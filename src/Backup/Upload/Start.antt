-- ===== src/Backup/Upload/Start.antt =====
-- What `start` of backend/src/backup/upload.rs leaves.
use lyra.Prelude.{
  ℕ, ◌≡◌, ◌∙◌, true, false, none, some, List, [], ◌++◌, Text, codes, text_eq_refl, arith, inl, inr,
}
use lyra.Prelude.Map
use lyra.Prelude.Map.{Map}
use lyra.Prelude.Result.{ok, err, Result-cases}
use lyra.Kv.{KvStore, KvLaws}
use lyra.Backup.Upload.{
  UploadMeta, UploadError, UploadServices, Staging, registry_key, upload_path, named, load, save,
  create, start,
}
use lyra.Backup.Upload.Chunks.{Sent, IsConsistent-new, nothing}
use lyra.Backup.Upload.Assembly.{UploadLaws, is_ok, IsOpen, save_ok, save_peek}

module _ (kv : KvStore) (laws : KvLaws kv) (sv : UploadServices) (svlaws : UploadLaws sv) (size : ℕ)
    (user_id id uuid : Text) where
  open kv use {Store}
  open laws use {peek}

  abbrev pub registry : Text
  registry = registry_key user_id

  abbrev pub file : Text → Text
  file ext = codes "upload-" ++ (uuid ++ (codes "." ++ ext))

  abbrev pub Upload : ℕ → Sent → Store → Staging → Type 0
  Upload = IsOpen kv laws sv svlaws size user_id id uuid

  module _ (t : ℕ) (created_at : Text) (s : Store) (dir : Staging) where
    abbrev fresh : UploadMeta
    fresh = record { chunk_sizes = []; created_at = created_at }

    started :
        (m : Map UploadMeta)
        → sv.parse_uuid id ≡ some uuid
        → Map.get dir (file (codes "part")) ≡ none
        → (load kv sv size t user_id s).0 ≡ ok m
        → start kv sv size t user_id id created_at (s, dir) ≡ (
          ok id,
          (
            (save kv sv size t user_id (Map.insert m id fresh) (load kv sv size t user_id s).1).1,
            Map.insert dir (file (codes "part")) [],
          ),
        )
    unfolding start create upload_path named
    started m parse new loaded = ground (
      arith,
      parse,
      new,
      loaded,
      save_ok kv laws sv svlaws size user_id id uuid t (Map.insert m id fresh)
          (load kv sv size t user_id s).1,
    )

    start_refused :
        (x : UploadError)
        → sv.parse_uuid id ≡ some uuid
        → Map.get dir (file (codes "part")) ≡ none
        → (load kv sv size t user_id s).0 ≡ err x
        → is_ok (start kv sv size t user_id id created_at (s, dir)).0 ≡ false
    unfolding start create upload_path named
    start_refused x parse new loaded = ground (arith, parse, new, loaded)

    IsOpen-started :
        (m : Map UploadMeta)
        → Upload t nothing
            (save kv sv size t user_id (Map.insert m id fresh) (load kv sv size t user_id s).1).1
            (Map.insert dir (file (codes "part")) [])
    IsOpen-started m =
        let (back, decoded, same) = svlaws.round_trip (Map.insert m id fresh) in
        record {
          written = t;
          raw = sv.to_string (Map.insert m id fresh);
          map = back;
          meta = fresh;
          content = [];
          decoded = decoded;
          has_entry = same id ∙ ground (arith, text_eq_refl id, Map.get-insert m id id fresh);
          live = λ u p.
              save_peek kv laws sv svlaws size user_id id uuid t u (Map.insert m id fresh)
                (load kv sv size t user_id s).1 p;
          has_file = ground (
            arith,
            text_eq_refl (file (codes "part")),
            Map.get-insert {V = List ℕ} dir (file (codes "part")) (file (codes "part")) [],
          );
          consistent = IsConsistent-new size;
        }

    -- A start with a new id that succeeds opens an upload of which nothing is received.
    pub IsOpen-start :
        sv.parse_uuid id ≡ some uuid
        → Map.get dir (file (codes "part")) ≡ none
        → is_ok (start kv sv size t user_id id created_at (s, dir)).0 ≡ true
        → Upload t nothing
            (start kv sv size t user_id id created_at (s, dir)).1.0
            (start kv sv size t user_id id created_at (s, dir)).1.1
    IsOpen-start parse new done = elim (Result-cases (load kv sv size t user_id s).0) [
      | inl (m, e) ↦ rw (started m parse new e) (IsOpen-started m)
      | inr (x, e) ↦
          absurd (let impossible : ⊥ = cc (done, start_refused x parse new e) in impossible)
    ]
