-- ===== src/Prelude/Map.antt =====
-- `HashMap<String, V>` by its keys: the code never depends on the order of the entries.
use mathlib.Core.Path.{◌≡◌, refl}
use mathlib.Core.Bool.{Bool, true, false}
use mathlib.Core.List.{List, [], ◌∷◌, map}
use mathlib.Core.Option.{Option, none, some}
use native.Mathlib.Omega.{arith}
use lyra.Prelude.Tests.{if◌then◌else◌}
use lyra.Prelude.Texts.{Text, text_eq, text_eq_iff}

pub record Map {ℓ} (V : Type ℓ) : Type ℓ where
  pub entries : List (Text × V)

module _ {ℓ} {V : Type ℓ} where
  find : Text → List (Text × V) → Option V
  find k [] = none
  find k ((j, v) ∷ l) = if text_eq j k then some v else find k l

  keep : (Text → Bool) → List (Text × V) → List (Text × V)
  keep p [] = []
  keep p ((j, v) ∷ l) = let rest = keep p l in if p j then (j, v) ∷ rest else rest

  unfoldable pub empty : Map V
  empty = record { entries = [] }

  unfoldable pub get : Map V → Text → Option V
  unfolding find
  get m k = find k m.entries

  -- `retain(|k, _| p(k))`
  unfoldable pub retain : (Text → Bool) → Map V → Map V
  unfolding keep
  retain p m = record { entries = keep p m.entries }

  unfoldable pub remove : Map V → Text → Map V
  unfolding retain
  remove m k = retain (λ j. if text_eq k j then false else true) m

  unfoldable pub insert : Map V → Text → V → Map V
  unfolding remove
  insert m k v = record { entries = (k, v) ∷ (remove m k).entries }

  abbrev pub holds : (V → Bool) → Option V → Bool
  holds p none = false
  holds p (some v) = p v

  -- `retain(|_, v| p(v))`; the keys are distinct.
  unfoldable pub retain_values : (V → Bool) → Map V → Map V
  unfolding retain get
  retain_values p m = retain (λ k. holds p (get m k)) m

  nothing : List (Text × V) → Bool
  nothing [] = true
  nothing (e ∷ l) = false

  unfoldable pub is_empty : Map V → Bool
  unfolding nothing
  is_empty m = nothing m.entries

  unfoldable pub keys : Map V → List Text
  keys m = map (λ e. e.0) m.entries

  get_nothing : (l : List (Text × V)) (k : Text) → nothing l ≡ true → find k l ≡ none
  unfolding nothing find
  get_nothing [] k h = refl
  get_nothing (e ∷ l) k h = cc

  pub get_is_empty : (m : Map V) (k : Text) → is_empty m ≡ true → get m k ≡ none
  unfolding is_empty get
  get_is_empty m k h = get_nothing m.entries k h

  find-keep :
      (p : Text → Bool) (k : Text) (l : List (Text × V))
      → find k (keep p l) ≡ (if p k then find k l else none)
  unfolding find keep
  find-keep p k [] = ground arith
  find-keep p k ((j, v) ∷ l) = ground (arith, find-keep p k l, text_eq_iff j k)

  pub get-retain :
      (m : Map V) (p : Text → Bool) (k : Text)
      → get (retain p m) k ≡ (if p k then get m k else none)
  unfolding get retain
  get-retain m p k = find-keep p k m.entries

  pub get-retain_values :
      (m : Map V) (p : V → Bool) (k : Text)
      → get (retain_values p m) k ≡ (if holds p (get m k) then get m k else none)
  unfolding get retain_values
  get-retain_values m p k = get-retain m (λ j. holds p (get m j)) k

  pub get-remove :
      (m : Map V) (k j : Text) → get (remove m k) j ≡ (if text_eq k j then none else get m j)
  unfolding get remove
  get-remove m k j =
      ground (arith, find-keep (λ i. if text_eq k i then false else true) j m.entries)

  pub get-insert :
      (m : Map V) (k j : Text) (v : V)
      → get (insert m k v) j ≡ (if text_eq k j then some v else get m j)
  unfolding get insert
  get-insert m k j v = ground (arith, get-remove m k j)

pub get-empty {ℓ} : {V : Type ℓ} (k : Text) → get (empty {V = V}) k ≡ none
unfolding get empty
get-empty k = refl

pub ruleset map_laws = (get-empty, get-retain, get-remove, get-insert)
