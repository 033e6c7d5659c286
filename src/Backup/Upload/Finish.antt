-- ===== src/Backup/Upload/Finish.antt =====
-- What `finish` of backend/src/backup/upload.rs leaves of an open upload.
use lyra.Prelude.{
  ℕ, ◌+◌, ◌≤◌, ◌≡◌, ◌∙◌, true, false, none, some, ◌++◌, Text, codes, text_eq, text_eq_refl,
  text_eq_cancel, ltb, arith, inl, inr, Bool-cases,
}
use lyra.Prelude.Map
use lyra.Prelude.Map.{Map}
use lyra.Prelude.Result.{ok, err, Result-cases}
use lyra.Kv.{KvStore, KvLaws, from_secs}
use lyra.Backup.Upload.{
  UploadMeta, UploadError, UploadServices, Staging, registry_ttl, upload_path, named, check_total,
  or_not_found, or_io, load, read_file, rename, check_sizes, check_length, finish,
}
use lyra.Backup.Upload.Chunks.{Sent}
use lyra.Backup.Upload.Joined.{joined, checked-joined}
use lyra.Backup.Upload.Assembly.{UploadLaws, is_ok, load_expired, load_live, save_ok}
use lyra.Backup.Upload.Start.{registry, file, Upload}

module _ (kv : KvStore) (laws : KvLaws kv) (sv : UploadServices) (svlaws : UploadLaws sv) (size : ℕ)
    (user_id id uuid : Text) where
  open kv use {Store}
  open laws use {peek}

  -- A finish over an open upload.
  module _ (t total : ℕ) (s : Store) (dir : Staging) where
    loaded_live :
        (since : ℕ) (sent : Sent)
        → (o : Upload kv laws sv svlaws size user_id id uuid since sent s dir) → since ≤ t
        → ltb t (o.written + from_secs registry_ttl) ≡ true
        → (load kv sv size t user_id s).0 ≡ ok o.map
    loaded_live since sent o h early =
        load_live kv laws sv svlaws size user_id id uuid t s o.raw o.map
          (ground (arith, o.live t h, early)) o.decoded

    finish_expired :
        peek s t (registry kv laws sv svlaws size user_id id uuid) ≡ none
        → is_ok (finish kv sv size t user_id id total (s, dir)).0 ≡ false
    unfolding finish check_total or_not_found
    finish_expired gone = ground (
      arith,
      load_expired kv laws sv svlaws size user_id id uuid t s gone,
      Map.get-empty {V = UploadMeta} id,
    )

    module _ (since : ℕ) (sent : Sent) (parse : sv.parse_uuid id ≡ some uuid)
        (o : Upload kv laws sv svlaws size user_id id uuid since sent s dir) (h : since ≤ t)
        (early : ltb t (o.written + from_secs registry_ttl) ≡ true) where
      finish_unsized :
          (x : UploadError)
          → check_sizes size total o.meta.chunk_sizes ≡ err x
          → is_ok (finish kv sv size t user_id id total (s, dir)).0 ≡ false
      unfolding finish check_total or_not_found
      finish_unsized x e = ground (arith, loaded_live since sent o h early, o.has_entry, e)

      finish_cut :
          (x : UploadError)
          → check_sizes size total o.meta.chunk_sizes ≡ ok tt
          → check_length total o.meta.chunk_sizes o.content ≡ err x
          → is_ok (finish kv sv size t user_id id total (s, dir)).0 ≡ false
      unfolding finish check_total or_not_found upload_path named read_file or_io
      finish_cut x e f =
          ground (arith, loaded_live since sent o h early, o.has_entry, e, f, parse, o.has_file)

      -- The staging directory after the rename.
      abbrev renamed : Staging
      renamed =
          Map.insert (Map.remove dir (file kv laws sv svlaws size user_id id uuid (codes "part")))
            (file kv laws sv svlaws size user_id id uuid (codes "lyra")) o.content

      finished :
          check_sizes size total o.meta.chunk_sizes ≡ ok tt
          → check_length total o.meta.chunk_sizes o.content ≡ ok tt
          → is_ok (finish kv sv size t user_id id total (s, dir)).0 ≡ true
          → ((finish kv sv size t user_id id total (s, dir)).0
              ≡ ok (file kv laws sv svlaws size user_id id uuid (codes "lyra")))
            × ((finish kv sv size t user_id id total (s, dir)).1.1 ≡ renamed)
      unfolding finish check_total or_not_found upload_path named read_file or_io rename
      finished e f done =
          let saves =
            save_ok kv laws sv svlaws size user_id id uuid t (Map.remove o.map id)
              (load kv sv size t user_id s).1 in
          (
            ground (
              arith,
              loaded_live since sent o h early,
              o.has_entry,
              e,
              f,
              parse,
              o.has_file,
              saves,
              done,
            ),
            ground (
              arith,
              loaded_live since sent o h early,
              o.has_entry,
              e,
              f,
              parse,
              o.has_file,
              saves,
              done,
            ),
          )

    apart :
        text_eq
          (file kv laws sv svlaws size user_id id uuid (codes "lyra"))
          (file kv laws sv svlaws size user_id id uuid (codes "part"))
        ≡ false
    unfolding text_eq
    apart =
        text_eq_cancel (codes "upload-") (uuid ++ (codes "." ++ codes "lyra"))
          (uuid ++ (codes "." ++ codes "part"))
        ∙ text_eq_cancel uuid (codes "." ++ codes "lyra") (codes "." ++ codes "part")

    -- A finish that succeeds leaves the chunks joined under the final name, and no part.
    pub finish-joined :
        (since : ℕ) (sent : Sent)
        → sv.parse_uuid id ≡ some uuid
        → Upload kv laws sv svlaws size user_id id uuid since sent s dir
        → since ≤ t
        → is_ok (finish kv sv size t user_id id total (s, dir)).0 ≡ true
        → ((finish kv sv size t user_id id total (s, dir)).0
            ≡ ok (file kv laws sv svlaws size user_id id uuid (codes "lyra")))
          × (Map.get
                (finish kv sv size t user_id id total (s, dir)).1.1
                (file kv laws sv svlaws size user_id id uuid (codes "lyra"))
              ≡ some (joined sent 0 total))
          × (Map.get
                (finish kv sv size t user_id id total (s, dir)).1.1
                (file kv laws sv svlaws size user_id id uuid (codes "part"))
              ≡ none)
    finish-joined since sent parse o h done =
        elim (Bool-cases (ltb t (o.written + from_secs registry_ttl))) [
          | inr late ↦ absurd (
              let impossible : ⊥ = cc (done, finish_expired (ground (arith, o.live t h, late))) in
              impossible)
          | inl early ↦ elim (Result-cases (check_sizes size total o.meta.chunk_sizes)) [
            | inr (x, e) ↦ absurd (
                let impossible : ⊥ = cc (done, finish_unsized since sent parse o h early x e) in
                impossible)
            | inl (u, e) ↦ elim (Result-cases (check_length total o.meta.chunk_sizes o.content)) [
              | inr (x, f) ↦ absurd (
                  let impossible : ⊥ = cc (done, finish_cut since sent parse o h early x e f) in
                  impossible)
              | inl (v, f) ↦
                  let (answer, left) = finished since sent parse o h early e f done in
                  let whole =
                    checked-joined size total o.meta.chunk_sizes o.content sent o.consistent e f in
                  let part_gone =
                    Map.remove dir (file kv laws sv svlaws size user_id id uuid (codes "part")) in
                  rw left (
                    answer,
                    ground (
                      arith,
                      whole,
                      text_eq_refl (file kv laws sv svlaws size user_id id uuid (codes "lyra")),
                      Map.get-insert part_gone
                          (file kv laws sv svlaws size user_id id uuid (codes "lyra"))
                          (file kv laws sv svlaws size user_id id uuid (codes "lyra")) o.content,
                    ),
                    ground (
                      arith,
                      apart,
                      text_eq_refl (file kv laws sv svlaws size user_id id uuid (codes "part")),
                      Map.get-insert part_gone
                          (file kv laws sv svlaws size user_id id uuid (codes "lyra"))
                          (file kv laws sv svlaws size user_id id uuid (codes "part")) o.content,
                      Map.get-remove dir
                          (file kv laws sv svlaws size user_id id uuid (codes "part"))
                          (file kv laws sv svlaws size user_id id uuid (codes "part")),
                    ),
                  )
            ]
          ]
        ]
