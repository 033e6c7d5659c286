-- ===== src/Backup/Upload/Files.antt =====
-- A file's bytes under the writes of backend/src/backup/upload.rs at an offset.
use lyra.Prelude.{
  ℕ, zero, suc, ◌+◌, ◌≤◌, ◌≡◌, refl, sym, ◌∙◌, ap, List, [], ◌∷◌, ◌++◌, length, take, arith,
}

abbrev pub drop : ℕ → List ℕ → List ℕ
drop zero xs = xs
drop (suc n) [] = []
drop (suc n) (x ∷ xs) = drop n xs

overwrite : List ℕ → List ℕ → List ℕ
overwrite [] content = content
overwrite (b ∷ bytes) [] = b ∷ overwrite bytes []
overwrite (b ∷ bytes) (x ∷ content) = b ∷ overwrite bytes content

-- A write past the end leaves a hole, which reads as zeros.
unfoldable pub write_at : ℕ → List ℕ → List ℕ → List ℕ
unfolding overwrite
write_at zero bytes content = overwrite bytes content
write_at (suc offset) bytes [] = 0 ∷ write_at offset bytes []
write_at (suc offset) bytes (x ∷ content) = x ∷ write_at offset bytes content

pub take-drop : (n : ℕ) (xs : List ℕ) → take n xs ++ drop n xs ≡ xs
take-drop zero xs = refl
take-drop (suc n) [] = refl
take-drop (suc n) (x ∷ xs) = ap (λ r. x ∷ r) (take-drop n xs)

pub drop_nil : (n : ℕ) → drop n [] ≡ []
drop_nil zero = refl
drop_nil (suc n) = refl

pub drop-drop : (m n : ℕ) (xs : List ℕ) → drop m (drop n xs) ≡ drop (n + m) xs
drop-drop m zero xs = let e : 0 + m ≡ m = omega arith in rw e refl
drop-drop m (suc n) [] = drop_nil m ∙ sym (drop_nil (suc n + m))
drop-drop m (suc n) (x ∷ xs) =
    let e : suc n + m ≡ suc (n + m) = omega arith in rw e (drop-drop m n xs)

pub length-drop : (n : ℕ) (xs : List ℕ) → n ≤ length xs → n + length (drop n xs) ≡ length xs
length-drop zero xs h = omega arith
length-drop (suc n) [] h = ground (arith, h)
length-drop (suc n) (x ∷ xs) h = omega (arith, length-drop n xs)

take-overwrite : (bytes content : List ℕ) → take (length bytes) (overwrite bytes content) ≡ bytes
unfolding overwrite
take-overwrite [] content = refl
take-overwrite (b ∷ bytes) [] = ap (λ r. b ∷ r) (take-overwrite bytes [])
take-overwrite (b ∷ bytes) (x ∷ content) = ap (λ r. b ∷ r) (take-overwrite bytes content)

drop-overwrite :
    (a : ℕ) (bytes content : List ℕ)
    → length bytes ≤ a
    → drop a (overwrite bytes content) ≡ drop a content
unfolding overwrite
drop-overwrite a [] content h = refl
drop-overwrite zero (b ∷ bytes) content h = ground (arith, h)
drop-overwrite (suc a) (b ∷ bytes) [] h = drop-overwrite a bytes [] (omega arith) ∙ drop_nil a
drop-overwrite (suc a) (b ∷ bytes) (x ∷ content) h = drop-overwrite a bytes content (omega arith)

-- What was written is read back.
pub read-write_at :
    (offset : ℕ) (bytes content : List ℕ)
    → take (length bytes) (drop offset (write_at offset bytes content)) ≡ bytes
unfolding write_at
read-write_at zero bytes content = take-overwrite bytes content
read-write_at (suc offset) bytes [] = read-write_at offset bytes []
read-write_at (suc offset) bytes (x ∷ content) = read-write_at offset bytes content

-- What stands after it is left alone.
pub after-write_at :
    (offset a : ℕ) (bytes content : List ℕ)
    → offset + length bytes ≤ a
    → drop a (write_at offset bytes content) ≡ drop a content
unfolding write_at
after-write_at zero a bytes content h = drop-overwrite a bytes content (omega arith)
after-write_at (suc offset) zero bytes content h = ground (arith, h)
after-write_at (suc offset) (suc a) bytes [] h =
    after-write_at offset a bytes [] (omega arith) ∙ drop_nil a
after-write_at (suc offset) (suc a) bytes (x ∷ content) h =
    after-write_at offset a bytes content (omega arith)

take-write_at :
    (offset l : ℕ) (bytes content : List ℕ)
    → l ≤ offset
    → l ≤ length content
    → take l (write_at offset bytes content) ≡ take l content
unfolding write_at
take-write_at offset zero bytes content h k = refl
take-write_at zero (suc l) bytes content h k = ground (arith, h)
take-write_at (suc offset) (suc l) bytes [] h k = ground (arith, k)
take-write_at (suc offset) (suc l) bytes (x ∷ content) h k =
    ap (λ r. x ∷ r) (take-write_at offset l bytes content (omega arith) (omega arith))

-- So is what stands before it.
pub before-write_at :
    (offset a l : ℕ) (bytes content : List ℕ)
    → a + l ≤ offset
    → a + l ≤ length content
    → take l (drop a (write_at offset bytes content)) ≡ take l (drop a content)
unfolding write_at
before-write_at offset zero l bytes content h k =
    take-write_at offset l bytes content (omega arith) (omega arith)
before-write_at zero (suc a) l bytes content h k = ground (arith, h)
before-write_at (suc offset) (suc a) l bytes [] h k = ground (arith, k)
before-write_at (suc offset) (suc a) l bytes (x ∷ content) h k =
    before-write_at offset a l bytes content (omega arith) (omega arith)
