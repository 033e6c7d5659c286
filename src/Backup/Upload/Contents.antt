-- ===== src/Backup/Upload/Contents.antt =====
-- An upload of backend/src/backup/upload.rs from its start to its end.
use lyra.Prelude.{ℕ, ◌≤◌, ◌≡◌, true, none, some, List, [], ◌∷◌, Text, codes, if◌then◌else◌}
use lyra.Prelude.Map
use lyra.Kv.{KvStore, KvLaws}
use lyra.Backup.Upload.{UploadServices, Staging, State, start, put_chunk, finish}
use lyra.Backup.Upload.Chunks.{Sent, sent_with, nothing}
use lyra.Backup.Upload.Joined.{joined}
use lyra.Backup.Upload.Assembly.{UploadLaws, is_ok, IsOpen-put_chunk}
use lyra.Backup.Upload.Start.{file, Upload, IsOpen-start}
use lyra.Backup.Upload.Finish.{finish-joined}

-- A chunk as it arrives: when, which, and its bytes.
pub record Chunk : Type 0 where
  pub at : ℕ
  pub n : ℕ
  pub bytes : List ℕ

-- Moments in order.
abbrev pub Ordered : ℕ → List Chunk → Type 0
Ordered from [] = Unit
Ordered from (c ∷ cs) = (from ≤ c.at) × Ordered c.at cs

abbrev pub last_at : ℕ → List Chunk → ℕ
last_at t [] = t
last_at t (c ∷ cs) = last_at c.at cs

module _ (kv : KvStore) (laws : KvLaws kv) (sv : UploadServices) (svlaws : UploadLaws sv) (size : ℕ)
    (user_id id uuid : Text) where
  open kv use {Store}

  unfoldable pub puts : List Chunk → State kv sv size → State kv sv size
  puts [] state = state
  puts (c ∷ cs) state = puts cs (put_chunk kv sv size c.at user_id id c.n c.bytes state).1

  -- What the server has taken of each chunk: the bytes that it accepted last.
  unfoldable pub received : Sent → List Chunk → State kv sv size → Sent
  received sent [] state = sent
  received sent (c ∷ cs) state =
      let (answer, state') = put_chunk kv sv size c.at user_id id c.n c.bytes state in
      received (if is_ok answer then sent_with sent c.n c.bytes else sent) cs state'

  IsOpen-puts :
      (since : ℕ) (sent : Sent) (cs : List Chunk) (s : Store) (dir : Staging)
      → sv.parse_uuid id ≡ some uuid
      → Upload kv laws sv svlaws size user_id id uuid since sent s dir
      → Ordered since cs
      → Upload kv laws sv svlaws size user_id id uuid
          (last_at since cs)
          (received sent cs (s, dir))
          (puts cs (s, dir)).0
          (puts cs (s, dir)).1
  unfolding puts received
  IsOpen-puts since sent [] s dir parse o w = o
  IsOpen-puts since sent (c ∷ cs) s dir parse o w =
      IsOpen-puts c.at _ cs _ _ parse
        (IsOpen-put_chunk kv laws sv svlaws size user_id id uuid c.at c.n c.bytes s dir since sent
          parse o w.0)
        w.1

  -- An upload with a new id that is started, sent in chunks in any order, again or not, some of them
  -- refused, and finished: if the start and the finish succeed, the file of the final name holds the
  -- chunks 0 to total - 1 joined, each with the bytes that were accepted last for it, and the part is
  -- gone.
  pub upload_contents :
      (t u total : ℕ) (created_at : Text) (cs : List Chunk) (s : Store) (dir : Staging)
      → sv.parse_uuid id ≡ some uuid
      → Map.get dir (file kv laws sv svlaws size user_id id uuid (codes "part")) ≡ none
      → Ordered t cs
      → last_at t cs ≤ u
      → is_ok (start kv sv size t user_id id created_at (s, dir)).0 ≡ true
      → is_ok
          (finish kv sv size u user_id id total
            (puts cs (start kv sv size t user_id id created_at (s, dir)).1)).0
        ≡ true
      → (Map.get
            (finish kv sv size u user_id id total
              (puts cs (start kv sv size t user_id id created_at (s, dir)).1)).1.1
            (file kv laws sv svlaws size user_id id uuid (codes "lyra"))
          ≡ some (
              joined
                (received nothing cs (start kv sv size t user_id id created_at (s, dir)).1)
                0
                total))
        × (Map.get
              (finish kv sv size u user_id id total
                (puts cs (start kv sv size t user_id id created_at (s, dir)).1)).1.1
              (file kv laws sv svlaws size user_id id uuid (codes "part"))
            ≡ none)
  upload_contents t u total created_at cs s dir parse new w h began done =
      let first = (start kv sv size t user_id id created_at (s, dir)).1 in
      let opened =
        IsOpen-start kv laws sv svlaws size user_id id uuid t created_at s dir parse new began in
      let sent = IsOpen-puts t nothing cs first.0 first.1 parse opened w in
      let (answer, whole, gone) =
        finish-joined kv laws sv svlaws size user_id id uuid u total (puts cs first).0
          (puts cs first).1 (last_at t cs) (received nothing cs first) parse sent h done in
      (whole, gone)
