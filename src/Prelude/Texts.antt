-- ===== src/Prelude/Texts.antt =====
-- Text as the list of its code points: Rust's `str`, where the code walks, joins or cuts it.
use Prim.Native.Nat.{ℕ, ◌+◌}
use Prim.Native.Char.{code}
use Prim.Native.String.{String}
use mathlib.Core.Path.{◌≡◌, refl}
use mathlib.Core.Logic.{◌↔◌}
use mathlib.Core.Bool.{Bool, true, false, ◌&&◌}
use mathlib.Core.List.{List, [], ◌∷◌, ◌++◌}
use mathlib.Core.Option.{Option, none, some}
use native.Mathlib.Omega.{arith}
use lyra.Prelude.Tests.{◌==◌, leb, if◌then◌else◌}

abbrev pub Text : Type 0
Text = List ℕ

-- A literal of the source.
abbrev pub codes : String → Text
codes String.[] = []
codes (String.◌∷◌ c s) = code c ∷ codes s

unfoldable pub text_eq : Text → Text → Bool
text_eq [] [] = true
text_eq [] (d ∷ t) = false
text_eq (c ∷ s) [] = false
text_eq (c ∷ s) (d ∷ t) = c == d && text_eq s t

text_eq_sound : (s t : Text) → text_eq s t ≡ true → s ≡ t
unfolding text_eq
text_eq_sound [] [] h = refl
text_eq_sound [] (d ∷ t) h = cc
text_eq_sound (c ∷ s) [] h = cc
text_eq_sound (c ∷ s) (d ∷ t) h = ground (arith, text_eq_sound s t)

pub text_eq_refl : (s : Text) → text_eq s s ≡ true
unfolding text_eq
text_eq_refl [] = refl
text_eq_refl (c ∷ s) = ground (arith, text_eq_refl s)

pub text_eq_iff : (s t : Text) → (text_eq s t ≡ true) ↔ (s ≡ t)
text_eq_iff s t = (text_eq_sound s t, λ e. rw e (text_eq_refl t))

-- `text.strip_prefix(prefix)`
unfoldable pub strip_prefix : Text → Text → Option Text
strip_prefix text [] = some text
strip_prefix [] (d ∷ prefix) = none
strip_prefix (c ∷ text) (d ∷ prefix) = if c == d then strip_prefix text prefix else none

-- `text.starts_with(prefix)`
unfoldable pub starts_with : Text → Text → Bool
starts_with text [] = true
starts_with [] (d ∷ prefix) = false
starts_with (c ∷ text) (d ∷ prefix) = c == d && starts_with text prefix

pub starts_with-append : (prefix rest : Text) → starts_with (prefix ++ rest) prefix ≡ true
unfolding starts_with
starts_with-append [] rest = refl
starts_with-append (c ∷ prefix) rest = ground (arith, starts_with-append prefix rest)

-- A common beginning plays no part in the test.
pub starts_with_cancel :
    (common text prefix : Text)
    → starts_with (common ++ text) (common ++ prefix) ≡ starts_with text prefix
unfolding starts_with
starts_with_cancel [] text prefix = refl
starts_with_cancel (c ∷ common) text prefix = ground (arith, starts_with_cancel common text prefix)

pub strip_prefix-append : (prefix rest : Text) → strip_prefix (prefix ++ rest) prefix ≡ some rest
unfolding strip_prefix
strip_prefix-append [] rest = refl
strip_prefix-append (c ∷ prefix) rest = ground (arith, strip_prefix-append prefix rest)

-- `list.contains(&text)`
unfoldable pub contains : List Text → Text → Bool
contains [] t = false
contains (x ∷ xs) t = if text_eq x t then true else contains xs t

pub text_eq_cancel : (common s t : Text) → text_eq (common ++ s) (common ++ t) ≡ text_eq s t
unfolding text_eq
text_eq_cancel [] s t = refl
text_eq_cancel (c ∷ common) s t = ground (arith, text_eq_cancel common s t)

abbrev utf8_char : ℕ → ℕ
utf8_char c = if leb c 127 then 1 else if leb c 2047 then 2 else if leb c 65535 then 3 else 4

-- `text.len()`: the bytes of its UTF-8 form.
unfoldable pub utf8_len : Text → ℕ
utf8_len [] = 0
utf8_len (c ∷ t) = utf8_char c + utf8_len t
