-- ===== src/Backup/Upload/Joined.antt =====
-- What the checks of `finish` (backend/src/backup/upload.rs) say of the file.
use lyra.Prelude.{
  ℕ, zero, suc, ◌+◌, ◌*◌, ◌≤◌, ◌<◌, ◌≡◌, refl, sym, ◌∙◌, ap, Bool, false, List, [], ◌∷◌, ◌++◌,
  length, filter, subst, ◌==◌, arith, inl, inr, Bool-cases,
}
use lyra.Prelude.Result.{ok}
use lyra.Backup.Upload.{size_at, range, is_bad, expected, complete, check_sizes, check_length}
use lyra.Backup.Upload.Files.{drop, take-drop, drop-drop, length-drop}
use lyra.Backup.Upload.Chunks.{Sent, IsConsistent}

range_good :
    (p : ℕ → Bool) (i k j : ℕ) → filter p (range i k) ≡ [] → i ≤ j → j < i + k → p j ≡ false
range_good p i zero j h a b = ground (arith, a, b)
range_good p i (suc k) j h a b = elim (Bool-cases (p i)) [
  | inl bad ↦ absurd (let impossible : ⊥ = ground (arith, h, bad) in impossible)
  | inr good ↦ elim (Bool-cases (i == j)) [
    | inl e ↦ let same : i ≡ j = ground (arith, e) in subst (λ x. p x ≡ false) same good
    | inr e ↦
        let rest : filter p (range (suc i) k) ≡ [] = ground (arith, h, good) in
        range_good p (suc i) k j rest (ground (arith, a, e)) (omega (arith, b))
  ]
]

-- The chunks from `i` on, joined.
abbrev pub joined : Sent → ℕ → ℕ → List ℕ
joined sent i zero = []
joined sent i (suc k) = sent i ++ joined sent (suc i) k

nil_of_length : (xs : List ℕ) → length xs ≡ 0 → xs ≡ []
nil_of_length [] h = refl
nil_of_length (x ∷ xs) h = ground (arith, h)

not_last :
    (size total i : ℕ) (sizes : List ℕ)
    → is_bad size total sizes i ≡ false
    → i + 1 < total
    → size_at sizes i ≡ size
unfolding is_bad
not_last size total i sizes h p = ground (arith, h)

-- A file that is as long as its chunks, all but the last of them full, is the chunks joined.
assembled :
    (size total i k : ℕ) (sizes content : List ℕ) (sent : Sent)
    → IsConsistent size sizes content sent
    → ((j : ℕ) → j < total → is_bad size total sizes j ≡ false)
    → i + k ≡ total
    → length (drop (i * size) content) ≡ expected sizes (range i k)
    → drop (i * size) content ≡ joined sent i k
unfolding expected
assembled size total i zero sizes content sent c good e h = nil_of_length _ h
assembled size total i (suc zero) sizes content sent c good e h =
    let rest = drop (i * size) content in
    let l = length (sent i) in
    let cut : l + length (drop l rest) ≡ length rest =
      length-drop l rest (omega (arith, h, c.recorded i)) in
    let tail : drop l rest ≡ [] = nil_of_length _ (omega (arith, cut, h, c.recorded i)) in
    sym (take-drop l rest) ∙ ap (λ r. r ++ drop l rest) (c.placed i) ∙ ap (λ r. sent i ++ r) tail
assembled size total i (suc (suc k)) sizes content sent c good e h =
    let rest = drop (i * size) content in
    let l = length (sent i) in
    let full : l ≡ size =
      sym (c.recorded i) ∙ not_last size total i sizes (good i (omega arith)) (omega arith) in
    let next : i * size + l ≡ suc i * size = omega (arith, full) in
    let cut : l + length (drop l rest) ≡ length rest =
      length-drop l rest (omega (arith, h, c.recorded i)) in
    let moved : drop l rest ≡ drop (suc i * size) content =
      drop-drop l (i * size) content ∙ ap (λ m. drop m content) next in
    let tail =
      assembled size total (suc i) (suc k) sizes content sent c good (omega arith)
        (omega (arith, cut, h, c.recorded i, ap length moved)) in
    sym (take-drop l rest)
    ∙ ap (λ r. r ++ drop l rest) (c.placed i)
    ∙ ap (λ r. sent i ++ r) (moved ∙ tail)

none_bad : (bad : List ℕ) → complete bad ≡ ok tt → bad ≡ []
unfolding complete
none_bad [] h = refl
none_bad (i ∷ bad) h = absurd (let impossible : ⊥ = cc (h) in impossible)

-- A file that passes the checks is the chunks joined.
pub checked-joined :
    (size total : ℕ) (sizes content : List ℕ) (sent : Sent)
    → IsConsistent size sizes content sent
    → check_sizes size total sizes ≡ ok tt
    → check_length total sizes content ≡ ok tt
    → content ≡ joined sent 0 total
unfolding check_sizes check_length
checked-joined size total sizes content sent c sized long =
    let clear = none_bad (filter (is_bad size total sizes) (range 0 total)) sized in
    let whole : length content ≡ expected sizes (range 0 total) = ground (arith, long) in
    let e : 0 * size ≡ 0 = omega arith in
    let from_start : drop (0 * size) content ≡ content = rw e refl in
    sym from_start
    ∙ assembled size total 0 total sizes content sent c
        (λ j p.
          range_good (is_bad size total sizes) 0 total j clear (omega arith) (omega (arith, p)))
        (omega arith) (ap length from_start ∙ whole)
