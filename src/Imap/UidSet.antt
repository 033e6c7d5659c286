-- ===== src/Imap/UidSet.antt =====
-- A server's reading of what `format_uid_set` of backend/src/imap.rs writes.
use lyra.Prelude.{
  ℕ, ◌+◌, ◌-◌, ◌*◌, ◌≤◌, ◌≡◌, refl, ◌∙◌, ap, Bool, false, ◌&&◌, ◌||◌, Option, none, some, List, [],
  ◌∷◌, ◌++◌, any, map, Text, codes, leb, ◌==◌, arith, inl, inr, Bool-cases, if◌then◌else◌,
}
use mathlib.Core.List.{append_assoc, append-nil}
use lyra.Prelude.Decimal.{show_ℕ, read_digits, read_digits-show_ℕ, is_digit}
use lyra.Imap.{
  insert_sorted, sort, dedup_from, ranges_from, show_range, join, ranges_of_sorted, deduped,
  uid_ranges, show_ranges, format_uid_set,
}

abbrev pub has : ℕ → List ℕ → Bool
has x uids = any (λ u. u == x) uids

-- Whether a list of ranges covers a UID.
abbrev pub covers : ℕ → List (ℕ × ℕ) → Bool
covers x ranges = any (λ r. leb r.0 x && leb x r.1) ranges

has-insert_sorted : (x y : ℕ) (ys : List ℕ) → has x (insert_sorted y ys) ≡ has x (y ∷ ys)
unfolding insert_sorted
has-insert_sorted x y [] = refl
has-insert_sorted x y (z ∷ ys) = ground (arith, has-insert_sorted x y ys)

has-sort : (x : ℕ) (uids : List ℕ) → has x (sort uids) ≡ has x uids
unfolding sort
has-sort x [] = refl
has-sort x (u ∷ uids) = ground (arith, has-insert_sorted x u (sort uids), has-sort x uids)

has-dedup_from : (x u : ℕ) (uids : List ℕ) → has x (dedup_from u uids) ≡ has x (u ∷ uids)
unfolding dedup_from
has-dedup_from x u [] = refl
has-dedup_from x u (v ∷ uids) = ground (arith, has-dedup_from x v uids)

has-deduped : (x : ℕ) (uids : List ℕ) → has x (deduped uids) ≡ has x uids
unfolding deduped
has-deduped x [] = refl
has-deduped x (u ∷ uids) = has-dedup_from x u uids

covers-ranges_from :
    (x start end : ℕ) (uids : List ℕ)
    → start ≤ end
    → covers x (ranges_from start end uids) ≡ (leb start x && leb x end || has x uids)
unfolding ranges_from
covers-ranges_from x start end [] h = refl
covers-ranges_from x start end (uid ∷ uids) h = elim (Bool-cases (uid == end + 1)) [
  | inl e ↦ ground (arith, e, covers-ranges_from x start uid uids (ground (arith, e, h)))
  | inr e ↦ ground (arith, e, covers-ranges_from x uid uid uids (omega arith))
]

abbrev covered : ℕ → Option (List (ℕ × ℕ)) → Bool
covered x none = false
covered x (some ranges) = covers x ranges

covered-ranges_of_sorted : (x : ℕ) (uids : List ℕ) → covered x (ranges_of_sorted uids) ≡ has x uids
unfolding ranges_of_sorted
covered-ranges_of_sorted x [] = refl
covered-ranges_of_sorted x (u ∷ uids) = ground (arith, covers-ranges_from x u u uids (omega arith))

covered-uid_ranges : (x : ℕ) (uids : List ℕ) → covered x (uid_ranges uids) ≡ has x uids
unfolding uid_ranges
covered-uid_ranges x uids =
    covered-ranges_of_sorted x (deduped (sort uids)) ∙ has-deduped x (sort uids) ∙ has-sort x uids

abbrev closed : Option ℕ → ℕ → ℕ × ℕ
closed none n = (n, n)
closed (some start) n = (start, n)

-- A server's reading of a set: numbers and pairs with a colon, between commas.
unfoldable pub read_set : Option ℕ → ℕ → Text → List (ℕ × ℕ)
read_set start n [] = closed start n ∷ []
read_set start n (c ∷ t) =
    let next = read_set none 0 t in
    let second = read_set (some n) 0 t in
    let longer = read_set start (n * 10 + (c - 48)) t in
    if c == 44 then closed start n ∷ next else if c == 58 then second else longer

read_set-digits :
    (start : Option ℕ) (n m : ℕ) (t rest : Text)
    → read_digits n t ≡ some m
    → read_set start n (t ++ rest) ≡ read_set start m rest
unfolding read_set read_digits
read_set-digits start n m [] rest h = ground (arith, h)
read_set-digits start n m (c ∷ t) rest h = elim (Bool-cases (is_digit c)) [
  | inl e ↦
      ground (arith, e, read_set-digits start (n * 10 + (c - 48)) m t rest (ground (arith, h, e)))
  | inr e ↦ absurd (let impossible : ⊥ = ground (arith, h, e) in impossible)
]

read_set-number :
    (start : Option ℕ) (m : ℕ) (rest : Text)
    → read_set start 0 (show_ℕ m ++ rest) ≡ read_set start m rest
read_set-number start m rest = read_set-digits start 0 m (show_ℕ m) rest (read_digits-show_ℕ m)

-- What follows a printed range is read behind it.
read_set-range :
    (r : ℕ × ℕ) (t : Text)
    → read_set none 0 (show_range r ++ (codes "," ++ t)) ≡ r ∷ read_set none 0 t
unfolding show_range read_set
read_set-range (start, end) t = elim (Bool-cases (start == end)) [
  | inl e ↦ ground (arith, e, read_set-number none start (codes "," ++ t))
  | inr e ↦ ground (
    arith,
    e,
    append_assoc (show_ℕ start) (codes ":" ++ show_ℕ end) (codes "," ++ t),
    read_set-number none start (codes ":" ++ (show_ℕ end ++ (codes "," ++ t))),
    read_set-number (some start) end (codes "," ++ t),
  )
]

read_set-last : (r : ℕ × ℕ) → read_set none 0 (show_range r) ≡ r ∷ []
unfolding show_range read_set
read_set-last (start, end) = elim (Bool-cases (start == end)) [
  | inl e ↦ ground (arith, e, append-nil (show_ℕ start), read_set-number none start [])
  | inr e ↦ ground (
    arith,
    e,
    append-nil (show_ℕ end),
    read_set-number none start (codes ":" ++ show_ℕ end),
    read_set-number (some start) end [],
  )
]

read_set-join :
    (r : ℕ × ℕ) (ranges : List (ℕ × ℕ))
    → read_set none 0 (join (map show_range (r ∷ ranges))) ≡ r ∷ ranges
unfolding join
read_set-join r [] = read_set-last r
read_set-join r (q ∷ ranges) =
    read_set-range r (join (map show_range (q ∷ ranges)))
    ∙ ap (λ rest. r ∷ rest) (read_set-join q ranges)

some_range :
    (start end : ℕ) (uids : List ℕ)
    → (r : ℕ × ℕ) × (ranges : List (ℕ × ℕ)) × (ranges_from start end uids ≡ r ∷ ranges)
unfolding ranges_from
some_range start end [] = ((start, end), [], refl)
some_range start end (uid ∷ uids) = elim (Bool-cases (uid == end + 1)) [
  | inl e ↦
      let (r, ranges, same) = some_range start uid uids in (r, ranges, ground (arith, e, same))
  | inr e ↦ ((start, end), ranges_from uid uid uids, ground (arith, e))
]

abbrev pub named : ℕ → Option Text → Bool
named x none = false
named x (some t) = covers x (read_set none 0 t)

named-show_ranges :
    (x : ℕ) (uids : List ℕ)
    → named x (show_ranges (ranges_of_sorted uids)) ≡ covered x (ranges_of_sorted uids)
unfolding show_ranges ranges_of_sorted
named-show_ranges x [] = refl
named-show_ranges x (u ∷ uids) =
    let (r, ranges, same) = some_range u u uids in rw same (ap (covers x) (read_set-join r ranges))

-- A formatted set, read as numbers and pairs with a colon between commas, names exactly the UIDs of
-- the list, in whatever order and however often they stand in it.
pub format_uid_set_lem : (x : ℕ) (uids : List ℕ) → named x (format_uid_set uids) ≡ has x uids
unfolding format_uid_set uid_ranges
format_uid_set_lem x uids = named-show_ranges x (deduped (sort uids)) ∙ covered-uid_ranges x uids
