-- ===== src/Tests/UploadRuns.antt =====
-- Uploads over the in-memory store, run with chunks of four bytes.
use lyra.Prelude.{ℕ, ◌≡◌, true, refl, some, none, [], ◌∷◌, List, codes, arith}
use lyra.Prelude.Map
use lyra.Tests.Open.{kv_run}
use lyra.Tests.RegistryText.{services, services-UploadLaws, to_string, from_str}
use lyra.Prelude.Result.{err}
use lyra.Kv.Memory.{new, memory_kv}
use lyra.Kv.Memory.Laws.{memory-KvLaws}
use lyra.Backup.Upload.{
  State, Staging, incomplete, registry_key, upload_path, start, put_chunk, finish, load, save, mark,
  size_at, is_bad, expected, check_sizes, check_length,
}
use lyra.Backup.Upload.Files.{write_at}
use lyra.Backup.Upload.Assembly.{is_ok}
use lyra.Backup.Upload.Start.{file}
use lyra.Backup.Upload.Contents.{Chunk, puts, received, upload_contents}

abbrev chunk : ℕ → ℕ → List ℕ → Chunk
chunk at n bytes = record { at = at; n = n; bytes = bytes }

-- The last chunk comes first, an empty one is refused, and the first one is sent twice.
abbrev chunks : List Chunk
chunks =
    chunk 1 1 (5 ∷ 6 ∷ []) ∷ chunk 2 0 (9 ∷ []) ∷ chunk 3 0 [] ∷ chunk 4 0 (1 ∷ 2 ∷ 3 ∷ 4 ∷ []) ∷ []

abbrev no_files : Staging
no_files = Map.empty

abbrev opened : State memory_kv services 4
opened = (start memory_kv services 4 0 (codes "u") (codes "a") (codes "now") (new, no_files)).1

abbrev sent : State memory_kv services 4
sent =
    puts memory_kv memory-KvLaws services services-UploadLaws 4 (codes "u") (codes "a") (codes "a")
      chunks opened

no_part :
    Map.get no_files (
      file memory_kv memory-KvLaws services services-UploadLaws 4
        (codes "u")
        (codes "a")
        (codes "a")
        (codes "part"))
    ≡ none
unfolding kv_run
no_part = refl

begins :
    is_ok (start memory_kv services 4 0 (codes "u") (codes "a") (codes "now") (new, no_files)).0
    ≡ true
unfolding kv_run start load save upload_path registry_key to_string from_str
begins = refl

ends : is_ok (finish memory_kv services 4 9 (codes "u") (codes "a") 2 sent).0 ≡ true
unfolding kv_run start load save upload_path registry_key to_string from_str puts put_chunk finish
    mark size_at is_bad expected check_sizes check_length write_at
ends = refl

upload_contents_example :
    (Map.get
        (finish memory_kv services 4 9 (codes "u") (codes "a") 2 sent).1.1
        (codes "upload-a.lyra")
      ≡ some (1 ∷ 2 ∷ 3 ∷ 4 ∷ 5 ∷ 6 ∷ []))
    × (Map.get
          (finish memory_kv services 4 9 (codes "u") (codes "a") 2 sent).1.1
          (codes "upload-a.part")
        ≡ none)
unfolding kv_run start load save upload_path registry_key to_string from_str puts put_chunk received
    mark write_at
upload_contents_example =
    upload_contents memory_kv memory-KvLaws services services-UploadLaws 4 (codes "u") (codes "a")
      (codes "a") 0 9 2 (codes "now") chunks new no_files refl no_part (omega arith) (omega arith)
      begins ends

-- Without the first chunk in full, the answer names it.
short_chunk :
    (finish memory_kv services 4 9 (codes "u") (codes "a") 2 (
      puts memory_kv memory-KvLaws services services-UploadLaws 4
        (codes "u")
        (codes "a")
        (codes "a")
        (chunk 1 1 (5 ∷ 6 ∷ []) ∷ chunk 2 0 (9 ∷ []) ∷ [])
        opened)).0
    ≡ err (incomplete (0 ∷ []))
unfolding kv_run start load save upload_path registry_key to_string from_str puts put_chunk finish
    mark size_at is_bad expected check_sizes check_length write_at
short_chunk = refl
