-- ===== src/Lib.antt =====
-- Verification of the backend of Lyra, a self-hosted mail client (backend/src, Rust).
--
-- The program is one server. Handlers answer the browser, a poll scheduler and workers keep the mail
-- of the accounts in step, and two stores hold the state: a database, and a key-value store for
-- sessions, counters and short-lived records. Each part below is a module with the types of the
-- source, one function for each operation, and child modules named for what they prove.
--
-- Kv          the trait `KvStore` (kv/mod.rs) as a record of operations; `KvLaws` is its contract, in
--             terms of what can be read under a key at a moment. Kv.Memory is the process-local store
--             (kv/memory.rs), whose laws Kv.Memory.Laws proves.
-- Auth        constants, errors and keys (auth/mod.rs, auth/types.rs, auth/session.rs);
--             Auth.RateLimit is the limiter of failed logins; Auth.Session is `SessionStore` and
--             `invalidate_user_sessions`; Auth.Users is the `lyra_user` table and the rules for
--             passwords (auth/db.rs, auth/password.rs); Auth.Totp is the second factor with its
--             replay guard (auth/totp.rs, auth/handlers.rs); Auth.Login is `auth_login` and
--             `totp_verify`, Auth.Account the handlers of bootstrap, of a change of password and of the
--             second factor. All are written over any store, and their theorems over any store with
--             the laws; Kv.Frame has the rules for calls that leave a key alone.
-- Opengpg     Opengpg.Session is the unlock ring (opengpg/session.rs), Opengpg.Unlock the handlers
--             that fill and clear it (opengpg/http.rs) and the logout of auth/handlers.rs.
-- Backup      Backup.Upload is the chunked upload of an archive (backup/upload.rs): the registry in
--             the key-value store beside the staging directory. Its operations take the size of a
--             chunk, which the server fixes as `chunk_size`. Backup.Mbox is the mailbox file of a folder,
--             as `write_mbox_message` (backup/format.rs) writes it for the export and `split_mbox` and
--             `recover_raw` (backup/import.rs) read it.
-- Imap        the texts that IMAP commands are made of (imap.rs).
-- Sync        the IMAP sync. Sync has the tables of messages, folders and cursors (entities) and what
--             the mail client answers (imap.rs); Sync.Ids the texts of message ids and of cursors,
--             Sync.Folders the rows of folders, Sync.Messages those of messages, Sync.Rows the
--             transactions on the tables (sync/store.rs). Sync.Imap and Sync.Imap.Pass are the pass
--             over one folder, Sync.Imap.Account the whole of `run_imap_sync` (sync/imap_loop.rs).
--             `Replies` holds what the client answers on a folder in one pass, whatever that is, and
--             the same to the same request.
-- Jobs        the table of durable jobs (jobs.rs), enqueueing, claims with their compare-and-set, the
--             set of accounts in flight; Jobs.Worker is `process_job` with the retries of sends and
--             the ids that a database refuses (db_row.rs).
-- Scheduler   the backoff and a poll pass (scheduler.rs), which reads and fills the jobs' table.
-- Netsec      the filter on addresses (netsec.rs) that outbound connections go through.
-- Labels      labels as provider keywords (sync/labels.rs).
-- Spam        the sender lists, the score and the verdict on a message (spam.rs).
-- Push        the diff of an account's newest messages against a baseline (push/diff.rs).
-- Prelude     what the parts share: numbers and their Boolean tests, text as a list of code points,
--             maps keyed by text, numbers of 32 and 64 bits in decimal, splitting and joining of text,
--             results, and `Exec`, the monad of a call that reads and changes a store and may fail.
-- Tests       runs of the definitions on the inputs of the unit tests, and the theorems applied at
--             concrete inputs.
--
-- An asynchronous call is a function on the state it reads and changes. Where calls interleave, the
-- steps between which they can do so are separate functions: a claim takes the rows it has read
-- before and the table as it is now, and a sync job has a first and a second half. Moments are
-- natural numbers of nanoseconds, given to each call; a call that reads the clock more than once
-- gets one reading. A stamp in the database is a number in the order in which its text compares.
-- Seconds of a time to live are not bounded, nor is a session epoch by its 32-bit column, and a 64-bit
-- counter saturates as in the source. Ids compare as text, where PostgreSQL compares UUIDs. Maps
-- are lists without an order that shows. No loop of the modelled code needs fuel: all of them run
-- over lists.
--
-- Code outside the repository is a parameter: what a sync job, a backup or a send plugin answers,
-- what an IMAP server answers, fresh tokens and ids, the JSON of a column or of a registry, the
-- sanitizer of HTML, the parsers of dates and of UUIDs, hashing, TOTP codes, the captcha provider,
-- the opening of an OpenPGP key, Unicode's lower-case mapping and alphanumeric characters, and the
-- decoding of Modified UTF-7. A job takes the sync's answer as it is.
--
-- Not modelled: the secret of an account, which `imap_sync_account` resolves before the sync, the Redis
-- store, the connections of the IMAP, JMAP, SMTP and DAV clients, JMAP's sync, SQL beyond the tables
-- named here and its failures in a sync, cryptography, HTTP routing, and the browser client.
pub mod Auth
pub mod Backup
pub mod Imap
pub mod Jobs
pub mod Kv
pub mod Labels
pub mod Netsec
pub mod Opengpg
pub mod Prelude
pub mod Push
pub mod Scheduler
pub mod Spam
pub mod Sync
pub mod Tests
