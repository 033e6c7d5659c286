-- ===== src/Prelude/Decimal.antt =====
-- `to_string` and `str::parse` at `i64` and at unsigned numbers: decimal text, there and back.
use Prim.Native.Nat.{ℕ, zero, suc, ◌+◌, ◌-◌, ◌*◌, ◌/◌, ◌%◌, ◌≤◌, ◌<◌}
use mathlib.Core.Path.{◌≡◌, refl}
use mathlib.Core.Logic.{◌≢◌, inl, inr}
use mathlib.Core.Bool.{Bool, true, ◌&&◌}
use mathlib.Core.List.{[], ◌∷◌, ◌++◌}
use mathlib.Core.Option.{Option, none, some}
use native.Mathlib.Omega.{arith}
use lyra.Prelude.Tests.{ltb, leb, ◌==◌, if◌then◌else◌, Bool-cases}
use lyra.Prelude.Texts.{Text}
use lyra.Prelude.Lists.{All, All-append}
use lyra.Prelude.Int.{ℤ, pos, negsuc, i64_max, IsI64}

-- `n + 1` rounds are enough, since each divides by ten.
show_from : ℕ → ℕ → Text
show_from zero n = []
show_from (suc f) n =
    let more = show_from f (n / 10) ++ (48 + n % 10) ∷ [] in
    if ltb n 10 then (48 + n) ∷ [] else more

unfoldable pub show_ℕ : ℕ → Text
unfolding show_from
show_ℕ n = show_from (suc n) n

abbrev pub is_digit : ℕ → Bool
is_digit c = leb 48 c && leb c 57

unfoldable pub read_digits : ℕ → Text → Option ℕ
read_digits acc [] = some acc
read_digits acc (c ∷ rest) = if is_digit c then read_digits (acc * 10 + (c - 48)) rest else none

abbrev and_then : Option ℕ → (ℕ → Option ℕ) → Option ℕ
and_then none k = none
and_then (some n) k = k n

read_digits-append :
    (acc : ℕ) (s t : Text)
    → read_digits acc (s ++ t) ≡ and_then (read_digits acc s) (λ n. read_digits n t)
unfolding read_digits
read_digits-append acc [] t = refl
read_digits-append acc (c ∷ s) t = ground (arith, read_digits-append (acc * 10 + (c - 48)) s t)

read_digit : (acc d : ℕ) → d < 10 → read_digits acc ((48 + d) ∷ []) ≡ some (acc * 10 + d)
unfolding read_digits
read_digit acc d h = ground arith

read_digits-show_from : (f n : ℕ) → n < f → read_digits 0 (show_from f n) ≡ some n
unfolding show_from
read_digits-show_from zero n h = elim h [ ]
read_digits-show_from (suc f) n h = elim (Bool-cases (ltb n 10)) [
  | inl one ↦ rw one (ground (arith, read_digit 0 n (ground arith)))
  | inr more ↦
      rw
        (
          more,
          read_digits-append 0 (show_from f (n / 10)) ((48 + n % 10) ∷ []),
          read_digits-show_from f (n / 10) (ground arith),
          read_digit (n / 10) (n % 10) (omega arith),
        )
        (ground arith)
]

pub read_digits-show_ℕ : (n : ℕ) → read_digits 0 (show_ℕ n) ≡ some n
unfolding show_ℕ
read_digits-show_ℕ n = read_digits-show_from (suc n) n (omega arith)

abbrev pub IsDigit : ℕ → Type 0
IsDigit c = is_digit c ≡ true

show_from-IsDigit : (f n : ℕ) → All IsDigit (show_from f n)
unfolding show_from
show_from-IsDigit zero n = tt
show_from-IsDigit (suc f) n = elim (Bool-cases (ltb n 10)) [
  | inl one ↦ rw one (ground arith, tt)
  | inr more ↦ rw more (
      All-append IsDigit (show_from f (n / 10)) ((48 + n % 10) ∷ []) (show_from-IsDigit f (n / 10))
        (ground arith, tt))
]

-- Every character of a printed number is a digit.
pub show_ℕ-IsDigit : (n : ℕ) → All IsDigit (show_ℕ n)
unfolding show_ℕ
show_ℕ-IsDigit n = show_from-IsDigit (suc n) n

append-ne-nil : (s : Text) (c : ℕ) → s ++ c ∷ [] ≢ []
append-ne-nil [] c = cc
append-ne-nil (d ∷ s) c = cc

pub show_ℕ-ne-nil : (n : ℕ) → show_ℕ n ≢ []
unfolding show_ℕ show_from
show_ℕ-ne-nil n = ground (arith, append-ne-nil (show_from n (n / 10)) (48 + n % 10))

-- `n.to_string()` of an `i64`.
unfoldable pub show_i64 : ℤ → Text
show_i64 (pos n) = show_ℕ n
show_i64 (negsuc n) = 45 ∷ show_ℕ (suc n)

-- The digits after a sign: at least one.
read_unsigned : Text → Option ℕ
read_unsigned [] = none
read_unsigned (c ∷ s) = read_digits 0 (c ∷ s)

within : (ℕ → ℤ) → ℕ → Option ℕ → Option ℤ
within sign most none = none
within sign most (some n) = if leb n most then some (sign n) else none

minus : ℕ → ℤ
minus zero = pos 0
minus (suc n) = negsuc n

-- `text.parse::<i64>().ok()`: an optional sign, digits, and the range of the type.
unfoldable pub parse_i64 : Text → Option ℤ
unfolding read_unsigned within minus
parse_i64 [] = none
parse_i64 (c ∷ s) =
    if c == b'-'
    then within minus (suc i64_max) (read_unsigned s)
    else if c == b'+'
    then within pos i64_max (read_unsigned s)
    else within pos i64_max (read_unsigned (c ∷ s))

read_unsigned_of_ne : (s : Text) → s ≢ [] → read_unsigned s ≡ read_digits 0 s
unfolding read_unsigned
read_unsigned_of_ne [] h = absurd (h refl)
read_unsigned_of_ne (c ∷ s) h = refl

read_unsigned-show : (n : ℕ) → read_unsigned (show_ℕ n) ≡ some n
read_unsigned-show n = rw (read_unsigned_of_ne (show_ℕ n) (show_ℕ-ne-nil n)) (read_digits-show_ℕ n)

parse_unsigned :
    (s : Text) (n : ℕ)
    → All IsDigit s
    → read_unsigned s ≡ some n
    → n ≤ i64_max
    → parse_i64 s ≡ some (pos n)
unfolding parse_i64
parse_unsigned [] n h e k = cc
parse_unsigned (c ∷ s) n (d, h) e k = ground arith

-- Printing an `i64` and parsing the text gives it back.
pub parse_i64-show_i64 : (z : ℤ) → IsI64 z → parse_i64 (show_i64 z) ≡ some z
unfolding show_i64 parse_i64
parse_i64-show_i64 (pos n) h =
    parse_unsigned (show_ℕ n) n (show_ℕ-IsDigit n) (read_unsigned-show n) h
parse_i64-show_i64 (negsuc n) h = rw (read_unsigned-show (suc n)) (ground arith)

abbrev pub u64_max : ℕ
u64_max = 18_446_744_073_709_551_615

at_most : ℕ → Option ℕ → Option ℕ
at_most most none = none
at_most most (some n) = if leb n most then some n else none

-- `text.parse().ok()` of an unsigned type: an optional plus, digits, and the range of the type.
unfoldable pub parse_up_to : ℕ → Text → Option ℕ
unfolding read_unsigned at_most
parse_up_to most [] = none
parse_up_to most (c ∷ s) =
    at_most most (if c == b'+' then read_unsigned s else read_unsigned (c ∷ s))

parse_digits :
    (most : ℕ) (s : Text) (n : ℕ)
    → All IsDigit s
    → read_unsigned s ≡ some n
    → n ≤ most
    → parse_up_to most s ≡ some n
unfolding parse_up_to at_most
parse_digits most [] n h e k = cc
parse_digits most (c ∷ s) n (d, h) e k = ground arith

-- Printing an unsigned number within the range and parsing the text gives it back.
pub parse_up_to-show_ℕ : (most n : ℕ) → n ≤ most → parse_up_to most (show_ℕ n) ≡ some n
parse_up_to-show_ℕ most n h =
    parse_digits most (show_ℕ n) n (show_ℕ-IsDigit n) (read_unsigned-show n) h

unfoldable pub parse_u64 : Text → Option ℕ
unfolding parse_up_to
parse_u64 s = parse_up_to u64_max s

pub parse_u64-show_ℕ : (n : ℕ) → n ≤ u64_max → parse_u64 (show_ℕ n) ≡ some n
unfolding parse_u64
parse_u64-show_ℕ n h = parse_up_to-show_ℕ u64_max n h

abbrev pub u32_max : ℕ
u32_max = 4_294_967_295

unfoldable pub parse_u32 : Text → Option ℕ
unfolding parse_up_to
parse_u32 s = parse_up_to u32_max s

pub parse_u32-show_ℕ : (n : ℕ) → n ≤ u32_max → parse_u32 (show_ℕ n) ≡ some n
unfolding parse_u32
parse_u32-show_ℕ n h = parse_up_to-show_ℕ u32_max n h
