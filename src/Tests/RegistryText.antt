-- ===== src/Tests/RegistryText.antt =====
-- A registry of uploads as text, each part behind its length: something that `UploadServices` can be.
use lyra.Prelude.{
  ℕ, zero, suc, ◌≡◌, refl, Option, none, some, List, [], ◌∷◌, ◌++◌, length, Text, arith,
}
use lyra.Prelude.Map.{Map}
use lyra.Backup.Upload.{UploadMeta, UploadServices}
use lyra.Backup.Upload.Assembly.{UploadLaws}

abbrev and_then : {A B : Type 0} → Option A → (A → Option B) → Option B
and_then none f = none
and_then (some a) f = f a

abbrev Entries : Type 0
Entries = List (Text × UploadMeta)

put_text : Text → Text → Text
put_text t rest = length t ∷ (t ++ rest)

split : ℕ → Text → Option (Text × Text)
split zero t = some ([], t)
split (suc n) [] = none
split (suc n) (c ∷ t) = and_then (split n t) (λ r. some (c ∷ r.0, r.1))

read_text : Text → Option (Text × Text)
unfolding split
read_text [] = none
read_text (n ∷ t) = split n t

split-append : (a rest : Text) → split (length a) (a ++ rest) ≡ some (a, rest)
unfolding split
split-append [] rest = refl
split-append (c ∷ a) rest = ground (arith, split-append a rest)

read_text-put_text : (a rest : Text) → read_text (put_text a rest) ≡ some (a, rest)
unfolding read_text put_text
read_text-put_text a rest = split-append a rest

encode : Entries → Text
unfolding put_text
encode [] = []
encode ((k, m) ∷ l) = put_text k (put_text m.chunk_sizes (put_text m.created_at (encode l)))

decode : ℕ → Text → Option Entries
unfolding read_text
decode zero t = some []
decode (suc n) t = and_then (read_text t) (λ k. and_then (read_text k.1) (λ sizes.
    and_then (read_text sizes.1) (λ at.
      and_then (decode n at.1)
        (λ l. some ((k.0, record { chunk_sizes = sizes.0; created_at = at.0 }) ∷ l)))))

decode-encode : (l : Entries) → decode (length l) (encode l) ≡ some l
unfolding encode decode
decode-encode [] = refl
decode-encode ((k, m) ∷ l) = ground (
  arith,
  decode-encode l,
  read_text-put_text m.created_at (encode l),
  read_text-put_text m.chunk_sizes (put_text m.created_at (encode l)),
  read_text-put_text k (put_text m.chunk_sizes (put_text m.created_at (encode l))),
)

unfoldable pub to_string : Map UploadMeta → Text
unfolding encode
to_string m = length m.entries ∷ encode m.entries

from_entries : Option Entries → Option (Map UploadMeta)
from_entries none = none
from_entries (some l) = some (record { entries = l })

unfoldable pub from_str : Text → Option (Map UploadMeta)
unfolding decode from_entries
from_str [] = none
from_str (n ∷ t) = from_entries (decode n t)

-- Every id is its own canonical form.
abbrev pub services : UploadServices
services = record { to_string = to_string; from_str = from_str; parse_uuid = λ id. some id }

pub services-UploadLaws : UploadLaws services
unfolding to_string from_str from_entries
services-UploadLaws = record {
  round_trip = λ m. (m, ground (arith, decode-encode m.entries), λ k. refl);
}
