-- ===== src/Backup/Upload/Assembly.antt =====
-- An open upload of backend/src/backup/upload.rs: what the store and the staging directory hold, and
-- what a chunk changes.
use lyra.Prelude.{
  ℕ, ◌+◌, ◌*◌, ◌≤◌, ◌≡◌, refl, ◌∙◌, Bool, true, false, none, some, List, [], ◌∷◌, ◌++◌, Text, codes,
  text_eq_refl, length, ltb, arith, inl, inr, Bool-cases, if◌then◌else◌,
}
use lyra.Prelude.Map
use lyra.Prelude.Map.{Map}
use lyra.Prelude.Result.{Result, ok, err, Result-cases}
use lyra.Kv.{KvStore, KvLaws, from_secs}
use lyra.Backup.Upload.{
  UploadMeta, UploadError, not_found, UploadServices, Staging, registry_key, registry_ttl,
  upload_path, named, check_chunk, or_not_found, registry_of, parsed, load, save, write_chunk, mark,
  put_chunk,
}
use lyra.Backup.Upload.Files.{write_at}
use lyra.Backup.Upload.Chunks.{Sent, sent_with, IsConsistent, IsConsistent-write_at}

-- What the registry's JSON promises: it reads back as the same map.
pub record UploadLaws (sv : UploadServices) : Type 0 where
  pub round_trip :
      (m : Map UploadMeta)
      → (back : Map UploadMeta) × (sv.from_str (sv.to_string m) ≡ some back)
        × ((k : Text) → Map.get back k ≡ Map.get m k)

abbrev pub is_ok : {E A : Type 0} → Result E A → Bool
is_ok (ok a) = true
is_ok (err e) = false

module _ (kv : KvStore) (laws : KvLaws kv) (sv : UploadServices) (svlaws : UploadLaws sv) (size : ℕ)
    (user_id id uuid : Text) where
  open kv use {Store}
  open laws use {peek}

  abbrev pub key : Text
  key = registry_key user_id

  abbrev pub staged : Text → Text
  staged ext = codes "upload-" ++ (uuid ++ (codes "." ++ ext))

  -- What can be read from `since` on of an open upload: its entry until the registry expires, and
  -- the file, which agree with what was received.
  pub record IsOpen (since : ℕ) (sent : Sent) (s : Store) (dir : Staging) : Type 0 where
    pub written : ℕ
    pub raw : Text
    pub map : Map UploadMeta
    pub meta : UploadMeta
    pub content : List ℕ
    pub decoded : sv.from_str raw ≡ some map
    pub has_entry : Map.get map id ≡ some meta
    pub live :
        (u : ℕ)
        → since ≤ u
        → peek s u key ≡ (if ltb u (written + from_secs registry_ttl) then some raw else none)
    pub has_file : Map.get dir (staged (codes "part")) ≡ some content
    pub consistent : IsConsistent size meta.chunk_sizes content sent

  -- What a load answers: an expired registry is empty.
  pub load_expired :
      (t : ℕ) (s : Store) → peek s t key ≡ none → (load kv sv size t user_id s).0 ≡ ok Map.empty
  unfolding load registry_of
  load_expired t s h = ground (arith, laws.get_result t key s, h)

  pub load_live :
      (t : ℕ) (s : Store) (raw : Text) (m : Map UploadMeta)
      → peek s t key ≡ some raw
      → sv.from_str raw ≡ some m
      → (load kv sv size t user_id s).0 ≡ ok m
  unfolding load registry_of parsed
  load_live t s raw m h d = ground (arith, laws.get_result t key s, h, d)

  pub load_peek :
      (t u : ℕ) (s : Store) → t ≤ u → peek (load kv sv size t user_id s).1 u key ≡ peek s u key
  unfolding load
  load_peek t u s h = elim (Result-cases (kv.get t key s).0) [
    | inl (a, e) ↦ ground (arith, e, laws.get_peek t u key key s h)
    | inr (x, e) ↦ ground (arith, e, laws.get_peek t u key key s h)
  ]

  pub save_ok : (t : ℕ) (m : Map UploadMeta) (s : Store) → (save kv sv size t user_id m s).0 ≡ ok tt
  unfolding save
  save_ok t m s = ground (arith, laws.set_result t key (sv.to_string m) (some registry_ttl) s)

  pub save_peek :
      (t u : ℕ) (m : Map UploadMeta) (s : Store)
      → t ≤ u
      → peek (save kv sv size t user_id m s).1 u key
        ≡ (if ltb u (t + from_secs registry_ttl) then some (sv.to_string m) else none)
  unfolding save
  save_peek t u m s h =
      ground (
        arith,
        text_eq_refl key,
        laws.set_peek t u key (sv.to_string m) (some registry_ttl) key s h,
      )

  -- Later, an upload is still open where nothing touched it.
  pub IsOpen-later :
      (since t : ℕ) (sent : Sent) (s s' : Store) (dir : Staging)
      → IsOpen since sent s dir
      → since ≤ t
      → ((u : ℕ) → t ≤ u → peek s' u key ≡ peek s u key)
      → IsOpen t sent s' dir
  IsOpen-later since t sent s s' dir o h same = record {
    written = o.written;
    raw = o.raw;
    map = o.map;
    meta = o.meta;
    content = o.content;
    decoded = o.decoded;
    has_entry = o.has_entry;
    live = λ u p. same u p ∙ o.live u (omega (arith, h, p));
    has_file = o.has_file;
    consistent = o.consistent;
  }

  check_chunk_le : (n : ℕ) (bytes : List ℕ) → check_chunk size n bytes ≡ ok tt → length bytes ≤ size
  unfolding check_chunk
  check_chunk_le n [] h = omega arith
  check_chunk_le n (b ∷ bytes) h = ground (arith, h)

  module _ (t n : ℕ) (bytes : List ℕ) (s : Store) (dir : Staging) where
    put_refused :
        (x : UploadError)
        → check_chunk size n bytes ≡ err x
        → put_chunk kv sv size t user_id id n bytes (s, dir) ≡ (err x, (s, dir))
    unfolding put_chunk
    put_refused x c = ground (arith, c)

    put_expired :
        check_chunk size n bytes ≡ ok tt
        → peek s t key ≡ none
        → put_chunk kv sv size t user_id id n bytes (s, dir)
          ≡ (err not_found, ((load kv sv size t user_id s).1, dir))
    unfolding put_chunk or_not_found
    put_expired c gone = ground (arith, c, load_expired t s gone, Map.get-empty {V = UploadMeta} id)

    -- The registry as it is saved after the chunk.
    abbrev saved : Map UploadMeta → UploadMeta → Map UploadMeta
    saved map meta =
        Map.insert map id (record meta { chunk_sizes = mark meta.chunk_sizes n (length bytes) })

    put_live :
        (raw : Text) (map : Map UploadMeta) (meta : UploadMeta) (content : List ℕ)
        → check_chunk size n bytes ≡ ok tt
        → peek s t key ≡ some raw
        → sv.from_str raw ≡ some map
        → Map.get map id ≡ some meta
        → sv.parse_uuid id ≡ some uuid
        → Map.get dir (staged (codes "part")) ≡ some content
        → put_chunk kv sv size t user_id id n bytes (s, dir) ≡ (
          ok tt,
          (
            (save kv sv size t user_id (saved map meta) (load kv sv size t user_id s).1).1,
            Map.insert dir (staged (codes "part")) (write_at (n * size) bytes content),
          ),
        )
    unfolding put_chunk or_not_found write_chunk upload_path named
    put_live raw map meta content c live decoded found parse file = ground (
      arith,
      c,
      load_live t s raw map live decoded,
      found,
      parse,
      file,
      save_ok t (saved map meta) (load kv sv size t user_id s).1,
    )

    -- A chunk that is taken counts as received in place of an earlier one, and one that is not
    -- changes nothing.
    pub IsOpen-put_chunk :
        (since : ℕ) (sent : Sent)
        → sv.parse_uuid id ≡ some uuid
        → IsOpen since sent s dir
        → since ≤ t
        → IsOpen t
            (if is_ok (put_chunk kv sv size t user_id id n bytes (s, dir)).0
              then sent_with sent n bytes
              else sent)
            (put_chunk kv sv size t user_id id n bytes (s, dir)).1.0
            (put_chunk kv sv size t user_id id n bytes (s, dir)).1.1
    IsOpen-put_chunk since sent parse o h = elim (Result-cases (check_chunk size n bytes)) [
      | inr (x, c) ↦ rw (put_refused x c) (IsOpen-later since t sent s s dir o h (λ u p. refl))
      | inl (u0, c) ↦ elim (Bool-cases (ltb t (o.written + from_secs registry_ttl))) [
        | inr late ↦
            let gone : peek s t key ≡ none = ground (arith, o.live t h, late) in
            rw (put_expired c gone) (
              IsOpen-later since t sent s (load kv sv size t user_id s).1 dir o h
                (λ u p. load_peek t u s p))
        | inl early ↦
            let found : peek s t key ≡ some o.raw = ground (arith, o.live t h, early) in
            let (back, decoded, same) = svlaws.round_trip (saved o.map o.meta) in
            rw
              (put_live o.raw o.map o.meta o.content c found o.decoded o.has_entry parse o.has_file)
              (record {
                written = t;
                raw = sv.to_string (saved o.map o.meta);
                map = back;
                meta = record o.meta { chunk_sizes = mark o.meta.chunk_sizes n (length bytes) };
                content = write_at (n * size) bytes o.content;
                decoded = decoded;
                has_entry =
                    same id
                    ∙ ground (
                      arith,
                      text_eq_refl id,
                      Map.get-insert o.map id id (record o.meta {
                        chunk_sizes = mark o.meta.chunk_sizes n (length bytes);
                      }),
                    );
                live = λ u p. save_peek t u (saved o.map o.meta) (load kv sv size t user_id s).1 p;
                has_file = ground (
                  arith,
                  text_eq_refl (staged (codes "part")),
                  Map.get-insert dir (staged (codes "part")) (staged (codes "part"))
                      (write_at (n * size) bytes o.content),
                );
                consistent =
                    IsConsistent-write_at size n bytes o.meta.chunk_sizes o.content sent
                      (check_chunk_le n bytes c) o.consistent;
              })
      ]
    ]
