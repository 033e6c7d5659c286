-- ===== src/Backup/Upload.antt =====
-- The chunked import uploads of backend/src/backup/upload.rs: the registry of a user's uploads in the
-- key-value store, and the staging directory as a map from names to files. Parsing an upload id and
-- the JSON of the registry belong to libraries; the bytes that a chunk may have are an argument. Of
-- the disk's failures the absence of a file is modelled.
pub mod Files
pub mod Chunks
pub mod Joined
pub mod Assembly
pub mod Start
pub mod Finish
pub mod Contents
use lyra.Prelude.{
  ℕ, zero, suc, ◌+◌, ◌-◌, ◌*◌, ◌≡◌, Bool, true, false, not, Option, none, some, List, [], ◌∷◌, ◌++◌,
  length, filter, Text, codes, ltb, leb, ◌==◌, if◌then◌else◌,
}
use lyra.Prelude.Map
use lyra.Prelude.Map.{Map}
use lyra.Prelude.Result.{Result, ok, err}
use lyra.Prelude.Exec.{Exec, pure, fail, lift, map_err, ◌>>=◌, ◌>>◌}
use lyra.Kv.{KvStore}
use lyra.Backup.Upload.Files.{write_at}

abbrev pub chunk_size : ℕ
chunk_size = 8 * 1024 * 1024

abbrev pub max_chunks : ℕ
max_chunks = 512

abbrev pub registry_ttl : ℕ
registry_ttl = 24 * 3600

-- The length of each chunk; 0 is one not received.
pub record UploadMeta : Type 0 where
  pub chunk_sizes : List ℕ
  pub created_at : Text

-- Messages are left out, and `backup` stands for a failure of the store or of the registry's JSON.
pub data UploadError : Type 0 where
  not_found empty_chunk oversized_chunk io backup : UploadError
  chunk_out_of_range : ℕ → UploadError
  incomplete : List ℕ → UploadError

-- `serde_json` on the registry, and the parse of a UUID into its canonical text.
pub record UploadServices : Type 0 where
  pub to_string : Map UploadMeta → Text
  pub from_str : Text → Option (Map UploadMeta)
  pub parse_uuid : Text → Option Text

-- The bytes of each file in the staging directory, by its name there.
abbrev pub Staging : Type 0
Staging = Map (List ℕ)

unfoldable pub registry_key : Text → Text
registry_key user_id = codes "backup:uploads:" ++ user_id

named : Text → Option Text → Result UploadError Text
named ext none = err not_found
named ext (some uuid) = ok (codes "upload-" ++ (uuid ++ (codes "." ++ ext)))

unfoldable pub upload_path : UploadServices → Text → Text → Result UploadError Text
unfolding named
upload_path sv id ext = named ext (sv.parse_uuid id)

-- `resize(n, 0)` of a list that is shorter than `n`.
abbrev resize : List ℕ → ℕ → List ℕ
resize xs zero = xs
resize [] (suc n) = 0 ∷ resize [] n
resize (x ∷ xs) (suc n) = x ∷ resize xs n

abbrev assign : List ℕ → ℕ → ℕ → List ℕ
assign [] i v = []
assign (x ∷ xs) zero v = v ∷ xs
assign (x ∷ xs) (suc i) v = x ∷ assign xs i v

unfoldable pub mark : List ℕ → ℕ → ℕ → List ℕ
mark chunk_sizes idx len =
    let sizes =
      if leb (length chunk_sizes) idx then resize chunk_sizes (idx + 1) else chunk_sizes in
    assign sizes idx len

-- `get(i).copied().unwrap_or(0)`
unfoldable pub size_at : List ℕ → ℕ → ℕ
size_at [] i = 0
size_at (x ∷ xs) zero = x
size_at (x ∷ xs) (suc i) = size_at xs i

-- The range from `i` with `k` members.
abbrev pub range : ℕ → ℕ → List ℕ
range i zero = []
range i (suc k) = i ∷ range (suc i) k

-- Whether the chunk `i` has a wrong length.
unfoldable pub is_bad : ℕ → ℕ → List ℕ → ℕ → Bool
is_bad size total_chunks chunk_sizes i =
    let len = size_at chunk_sizes i in
    if i == total_chunks - 1 then (if len == 0 then true else ltb size len) else not (len == size)

unfoldable pub expected : List ℕ → List ℕ → ℕ
expected chunk_sizes [] = 0
expected chunk_sizes (i ∷ is) = size_at chunk_sizes i + expected chunk_sizes is

or_not_found : {A : Type 0} → Option A → Result UploadError A
or_not_found none = err not_found
or_not_found (some a) = ok a

or_io : {A : Type 0} → Option A → Result UploadError A
or_io none = err io
or_io (some a) = ok a

-- What `put_chunk` asks of a chunk, before it looks for the upload.
check_chunk : ℕ → ℕ → List ℕ → Result UploadError (Unit {0})
check_chunk size n [] = err empty_chunk
check_chunk size n (b ∷ bytes) =
    if ltb size (length (b ∷ bytes))
    then err oversized_chunk
    else if leb max_chunks n
    then err (chunk_out_of_range n)
    else ok tt

check_total : ℕ → Result UploadError (Unit {0})
check_total total_chunks =
    if total_chunks == 0
    then err (chunk_out_of_range total_chunks)
    else if ltb max_chunks total_chunks
    then err (chunk_out_of_range total_chunks)
    else ok tt

complete : List ℕ → Result UploadError (Unit {0})
complete [] = ok tt
complete (i ∷ bad) = err (incomplete (i ∷ bad))

-- Every chunk has arrived with the right length.
unfoldable pub check_sizes : ℕ → ℕ → List ℕ → Result UploadError (Unit {0})
unfolding complete
check_sizes size total_chunks chunk_sizes =
    complete (filter (is_bad size total_chunks chunk_sizes) (range 0 total_chunks))

-- The file is as long as the chunks together.
unfoldable pub check_length : ℕ → List ℕ → List ℕ → Result UploadError (Unit {0})
check_length total_chunks chunk_sizes content =
    if length content == expected chunk_sizes (range 0 total_chunks)
    then ok tt
    else err (incomplete (range 0 total_chunks))

parsed : Option (Map UploadMeta) → Result UploadError (Map UploadMeta)
parsed none = err backup
parsed (some m) = ok m

registry_of : UploadServices → Option Text → Result UploadError (Map UploadMeta)
unfolding parsed
registry_of sv none = ok Map.empty
registry_of sv (some raw) = parsed (sv.from_str raw)

module _ (kv : KvStore) (sv : UploadServices) (size : ℕ) where
  open kv use {Store}

  -- The store and the staging directory.
  abbrev pub State : Type 0
  State = Store × Staging

  abbrev pub stored : {A : Type 0} → Exec Store UploadError A → Exec State UploadError A
  stored m (s, dir) = let (r, s') = m s in (r, (s', dir))

  unfoldable pub load : ℕ → Text → Exec Store UploadError (Map UploadMeta)
  unfolding registry_of
  load now user_id = do
    raw ← map_err (λ _. backup) (kv.get now (registry_key user_id))
    lift (registry_of sv raw)

  unfoldable pub save : ℕ → Text → Map UploadMeta → Exec Store UploadError Unit
  save now user_id map =
      map_err (λ _. backup)
        (kv.set now (registry_key user_id) (sv.to_string map) (some registry_ttl))

  -- `create_new` fails where the file exists.
  create : Text → Exec State UploadError Unit
  create path (s, dir) = elim (Map.get dir path) [
    | none ↦ (ok tt, (s, Map.insert dir path []))
    | some content ↦ (err io, (s, dir))
  ]

  -- `id` is the fresh id and `created_at` the stamp.
  unfoldable pub start : ℕ → Text → Text → Text → Exec State UploadError Text
  unfolding create load save
  start now user_id id created_at = do
    path ← lift (upload_path sv id (codes "part"))
    create path
    map ← stored (load now user_id)
    stored (
        save now user_id (Map.insert map id (record { chunk_sizes = []; created_at = created_at })))
    pure id

  write_chunk : Text → ℕ → List ℕ → Exec State UploadError Unit
  write_chunk path n bytes (s, dir) = elim (Map.get dir path) [
    | none ↦ (err io, (s, dir))
    | some content ↦ (ok tt, (s, Map.insert dir path (write_at (n * size) bytes content)))
  ]

  unfoldable pub put_chunk : ℕ → Text → Text → ℕ → List ℕ → Exec State UploadError Unit
  unfolding check_chunk or_not_found load save write_chunk
  put_chunk now user_id upload_id n bytes = do
    lift (check_chunk size n bytes)
    map ← stored (load now user_id)
    meta ← lift (or_not_found (Map.get map upload_id))
    path ← lift (upload_path sv upload_id (codes "part"))
    write_chunk path n bytes
    stored (
        save now user_id (
          Map.insert map upload_id
            (record meta { chunk_sizes = mark meta.chunk_sizes n (length bytes) })))

  read_file : Text → Exec State UploadError (List ℕ)
  unfolding or_io
  read_file path (s, dir) = (or_io (Map.get dir path), (s, dir))

  rename : Text → Text → List ℕ → Exec State UploadError Unit
  rename from to content (s, dir) = (ok tt, (s, Map.insert (Map.remove dir from) to content))

  unfoldable pub finish : ℕ → Text → Text → ℕ → Exec State UploadError Text
  unfolding check_total or_not_found load save read_file rename
  finish now user_id upload_id total_chunks = do
    lift (check_total total_chunks)
    map ← stored (load now user_id)
    meta ← lift (or_not_found (Map.get map upload_id))
    lift (check_sizes size total_chunks meta.chunk_sizes)
    part ← lift (upload_path sv upload_id (codes "part"))
    content ← read_file part
    lift (check_length total_chunks meta.chunk_sizes content)
    final_path ← lift (upload_path sv upload_id (codes "lyra"))
    rename part final_path content
    stored (save now user_id (Map.remove map upload_id))
    pure final_path
