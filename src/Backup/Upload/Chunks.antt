-- ===== src/Backup/Upload/Chunks.antt =====
-- The file of an upload beside its registry entry (backend/src/backup/upload.rs): which chunks stand
-- where.
use lyra.Prelude.{
  ℕ, zero, suc, ◌+◌, ◌*◌, ◌≤◌, ◌<◌, ◌≡◌, refl, ◌∙◌, ap, List, [], ◌∷◌, length, take, ◌⊎◌, subst,
  ltb, leb, ◌==◌, arith, inl, inr, Bool-cases, if◌then◌else◌,
}
use native.Mathlib.Nat.{mul-le-mul_right}
use lyra.Backup.Upload.{mark, resize, assign, size_at}
use lyra.Backup.Upload.Files.{drop, write_at, read-write_at, after-write_at, before-write_at}

-- The chunks as they were last received; a missing one is empty.
abbrev pub Sent : Type 0
Sent = ℕ → List ℕ

abbrev pub sent_with : Sent → ℕ → List ℕ → Sent
sent_with sent n bytes i = if n == i then bytes else sent i

size_at-assign :
    (xs : List ℕ) (n v i : ℕ)
    → n < length xs
    → size_at (assign xs n v) i ≡ (if n == i then v else size_at xs i)
unfolding size_at
size_at-assign [] n v i h = ground (arith, h)
size_at-assign (x ∷ xs) zero v zero h = refl
size_at-assign (x ∷ xs) zero v (suc i) h = ground arith
size_at-assign (x ∷ xs) (suc n) v zero h = ground arith
size_at-assign (x ∷ xs) (suc n) v (suc i) h = ground (arith, size_at-assign xs n v i (omega arith))

size_at-resize : (xs : List ℕ) (n i : ℕ) → size_at (resize xs n) i ≡ size_at xs i
unfolding size_at
size_at-resize xs zero i = refl
size_at-resize [] (suc n) zero = refl
size_at-resize [] (suc n) (suc i) = size_at-resize [] n i
size_at-resize (x ∷ xs) (suc n) zero = refl
size_at-resize (x ∷ xs) (suc n) (suc i) = size_at-resize xs n i

length-resize : (xs : List ℕ) (n : ℕ) → n ≤ length (resize xs n)
length-resize xs zero = omega arith
length-resize [] (suc n) = omega (arith, length-resize [] n)
length-resize (x ∷ xs) (suc n) = omega (arith, length-resize xs n)

-- After a chunk its length is recorded, and no other's changes.
pub size_at-mark :
    (xs : List ℕ) (n v i : ℕ) → size_at (mark xs n v) i ≡ (if n == i then v else size_at xs i)
unfolding mark
size_at-mark xs n v i = elim (Bool-cases (leb (length xs) n)) [
  | inl short ↦ ground (
    arith,
    short,
    size_at-assign (resize xs (n + 1)) n v i (omega (arith, length-resize xs (n + 1))),
    size_at-resize xs (n + 1) i,
  )
  | inr long ↦ ground (arith, long, size_at-assign xs n v i (ground (arith, long)))
]

-- The registry's sizes and the file's bytes agree with what was received.
pub record IsConsistent (size : ℕ) (sizes content : List ℕ) (sent : Sent) : Type 0 where
  pub small : (i : ℕ) → length (sent i) ≤ size
  pub recorded : (i : ℕ) → size_at sizes i ≡ length (sent i)
  pub placed : (i : ℕ) → take (length (sent i)) (drop (i * size) content) ≡ sent i

abbrev pub nothing : Sent
nothing i = []

pub IsConsistent-new : (size : ℕ) → IsConsistent size [] [] nothing
unfolding size_at
IsConsistent-new size = record {
  small = λ i. omega arith;
  recorded = λ i. refl;
  placed = λ i. refl;
}

-- A stretch that is all there lies within the file.
reach :
    (a l : ℕ) (content : List ℕ)
    → length (take l (drop a content)) ≡ l
    → (l ≡ 0) ⊎ (a + l ≤ length content)
reach zero zero content h = inl refl
reach zero (suc l) [] h = ground (arith, h)
reach zero (suc l) (x ∷ content) h = elim (reach zero l content (omega (arith, h))) [
  | inl z ↦ inr (omega arith)
  | inr p ↦ inr (omega arith)
]
reach (suc a) zero content h = inl refl
reach (suc a) (suc l) [] h = ground (arith, h)
reach (suc a) (suc l) (x ∷ content) h = elim (reach a (suc l) content h) [
  | inl z ↦ inl z
  | inr p ↦ inr (omega arith)
]

module _ (size n : ℕ) (bytes sizes content : List ℕ) (sent : Sent) (h : length bytes ≤ size)
    (c : IsConsistent size sizes content sent) where
  abbrev written : List ℕ
  written = write_at (n * size) bytes content

  other_before : (i : ℕ) → i < n → take (length (sent i)) (drop (i * size) written) ≡ sent i
  other_before i p =
      let room : i * size + length (sent i) ≤ n * size =
        omega (arith, c.small i, mul-le-mul_right size p) in
      elim (reach (i * size) (length (sent i)) content (ap length (c.placed i))) [
        | inl z ↦ ground (arith, z, c.placed i)
        | inr q ↦
            before-write_at (n * size) (i * size) (length (sent i)) bytes content room q
            ∙ c.placed i
      ]

  other_after : (i : ℕ) → n < i → take (length (sent i)) (drop (i * size) written) ≡ sent i
  other_after i p =
      let room : n * size + length bytes ≤ i * size = omega (arith, h, mul-le-mul_right size p) in
      ap (take (length (sent i))) (after-write_at (n * size) (i * size) bytes content room)
      ∙ c.placed i

  placed_after :
      (i : ℕ)
      → take (length (sent_with sent n bytes i)) (drop (i * size) written)
        ≡ sent_with sent n bytes i
  placed_after i = elim (Bool-cases (n == i)) [
    | inl e ↦
        let same : n ≡ i = ground (arith, e) in
        rw e (
          subst (λ j. take (length bytes) (drop (j * size) written) ≡ bytes) same
            (read-write_at (n * size) bytes content))
    | inr e ↦ elim (Bool-cases (ltb i n)) [
      | inl p ↦ rw e (other_before i (ground (arith, p)))
      | inr p ↦ rw e (other_after i (ground (arith, p, e)))
    ]
  ]

-- A chunk received in full is placed, and every other stays where it is.
pub IsConsistent-write_at :
    (size n : ℕ) (bytes sizes content : List ℕ) (sent : Sent)
    → length bytes ≤ size
    → IsConsistent size sizes content sent
    → IsConsistent size
        (mark sizes n (length bytes))
        (write_at (n * size) bytes content)
        (sent_with sent n bytes)
IsConsistent-write_at size n bytes sizes content sent h c = record {
  small = λ i. ground (arith, h, c.small i);
  recorded = λ i. ground (arith, size_at-mark sizes n (length bytes) i, c.recorded i);
  placed = placed_after size n bytes sizes content sent h c;
}
