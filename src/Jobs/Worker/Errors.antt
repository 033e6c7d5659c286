-- ===== src/Jobs/Worker/Errors.antt =====
-- The errors of a sync, without their messages, and the fixed category that a failed job stores:
-- `SyncError` of backend/src/sync/types.rs, `ImapError`, `JmapError`, `SmtpError` and
-- `sanitize_error` of backend/src/jobs.rs.
use lyra.Prelude.{Text, codes}

pub data ImapError : Type 0 where
  connection tls login protocol timeout crypto imap : ImapError

pub data JmapError : Type 0 where
  http session_discovery authentication crypto invalid_response invalid_server_url : JmapError
  cross_origin client : JmapError

pub data SmtpError : Type 0 where
  transient permanent transport message_build address crypto credential config : SmtpError

pub data SyncError : Type 0 where
  account_not_found message_not_found account_disabled database : SyncError
  imap : ImapError → SyncError
  jmap : JmapError → SyncError
  smtp : SmtpError → SyncError
  crypto invalid_input internal protocol : SyncError

unfoldable pub job_category : SmtpError → Text
job_category transient = codes "SMTP transient"
job_category permanent = codes "SMTP permanent"
job_category _ = codes "SMTP error"

unfoldable pub sanitize_error : SyncError → Text
unfolding job_category
sanitize_error (imap login) = codes "auth error"
sanitize_error (imap timeout) = codes "IMAP timeout"
sanitize_error (imap _) = codes "IMAP error"
sanitize_error (jmap authentication) = codes "auth error"
sanitize_error (jmap _) = codes "JMAP error"
sanitize_error (smtp e) = job_category e
sanitize_error database = codes "database error"
sanitize_error protocol = codes "protocol error"
sanitize_error crypto = codes "credential error"
sanitize_error _ = codes "sync failed"
