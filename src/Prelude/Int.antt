-- ===== src/Prelude/Int.antt =====
-- Signed integers over the native numbers, and the range of an `i64`.
use Prim.Native.Nat.{ℕ, suc, ◌+◌, ◌-◌, ◌^◌, ◌≤◌}
use mathlib.Core.Path.{◌≡◌}
use mathlib.Core.Bool.{Bool}
use native.Mathlib.Omega.{arith}
use lyra.Prelude.Tests.{leb, if◌then◌else◌}

-- `negsuc n` is -(n + 1).
pub data ℤ : Type 0 where
  pos : ℕ → ℤ
  negsuc : ℕ → ℤ

abbrev pub pos_part : ℤ → ℕ
pos_part (pos n) = n
pos_part (negsuc n) = 0

abbrev pub neg_part : ℤ → ℕ
neg_part (pos n) = 0
neg_part (negsuc n) = suc n

-- a - b, as an integer.
abbrev pub sub_ℕ : ℕ → ℕ → ℤ
sub_ℕ a b = if leb b a then pos (a - b) else negsuc (b - a - 1)

abbrev pub leb_ℤ : ℤ → ℤ → Bool
leb_ℤ a b = leb (pos_part a + neg_part b) (pos_part b + neg_part a)

-- `i64::MAX`; `i64::MIN` is the integer -(i64_max + 1).
abbrev pub i64_max : ℕ
i64_max = 2 ^ 63 - 1

abbrev pub IsI64 : ℤ → Type 0
IsI64 (pos n) = n ≤ i64_max
IsI64 (negsuc n) = n ≤ i64_max

-- An integer brought into the range of an `i64`.
abbrev pub saturate : ℤ → ℤ
saturate (pos n) = if leb n i64_max then pos n else pos i64_max
saturate (negsuc n) = if leb n i64_max then negsuc n else negsuc i64_max

-- `a.saturating_add(b)`
unfoldable pub saturating_add : ℤ → ℤ → ℤ
saturating_add a b = saturate (sub_ℕ (pos_part a + pos_part b) (neg_part a + neg_part b))

pub saturating_add-IsI64 : (a b : ℤ) → IsI64 (saturating_add a b)
unfolding saturating_add
saturating_add-IsI64 a b = ground arith

pub saturating_add_pos : (a b : ℕ) → a + b ≤ i64_max → saturating_add (pos a) (pos b) ≡ pos (a + b)
unfolding saturating_add
saturating_add_pos a b h = ground arith
