-- ===== src/Prelude/Trim.antt =====
-- `trim`, `trim_matches` and their halves, on code points.
use lyra.Prelude.{
  ℕ, Bool, true, false, ◌&&◌, ◌||◌, [], ◌∷◌, Text, ◌==◌, if◌then◌else◌, ◌≤◌, length, arith, leb,
}

abbrev pub is_empty : Text → Bool
is_empty [] = true
is_empty (c ∷ t) = false

unfoldable pub trim_start_matches : (ℕ → Bool) → Text → Text
trim_start_matches p [] = []
trim_start_matches p (c ∷ t) = if p c then trim_start_matches p t else c ∷ t

abbrev keep : (ℕ → Bool) → ℕ → Text → Text
keep p c rest = if p c && is_empty rest then [] else c ∷ rest

unfoldable pub trim_end_matches : (ℕ → Bool) → Text → Text
trim_end_matches p [] = []
trim_end_matches p (c ∷ t) = keep p c (trim_end_matches p t)

unfoldable pub trim_matches : (ℕ → Bool) → Text → Text
trim_matches p s = trim_end_matches p (trim_start_matches p s)

-- Unicode's `White_Space`.
abbrev pub is_whitespace : ℕ → Bool
is_whitespace c =
    (leb 9 c && leb c 13)
    || c == 32
    || c == 133
    || c == 160
    || c == 5760
    || (leb 8192 c && leb c 8202)
    || c == 8232
    || c == 8233
    || c == 8239
    || c == 8287
    || c == 12288

unfoldable pub trim : Text → Text
unfolding trim_matches
trim s = trim_matches is_whitespace s

pub length-trim_end_matches : (p : ℕ → Bool) (s : Text) → length (trim_end_matches p s) ≤ length s
unfolding trim_end_matches
length-trim_end_matches p [] = omega arith
length-trim_end_matches p (c ∷ t) = ground (arith, length-trim_end_matches p t)
