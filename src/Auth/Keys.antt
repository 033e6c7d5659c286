-- ===== src/Auth/Keys.antt =====
-- The keys of different kinds never meet, and an epoch's prefix covers the keys of that epoch alone.
use lyra.Prelude.{
  ℕ, inl, inr, Bool-cases, ◌≡◌, refl, sym, ap, subst, ◌∙◌, ◌↔◌, true, false, [], ◌∷◌, ◌++◌, Text,
  codes, text_eq, text_eq_iff, text_eq_cancel, starts_with, starts_with_cancel, starts_with-append,
  All, arith, some,
}
use lyra.Prelude.Decimal.{show_ℕ, IsDigit, show_ℕ-IsDigit, read_digits, read_digits-show_ℕ}
use lyra.Auth.{sess_prefix, sess_key, tok_key, pending_key, refresh_key}

pub tok-sess : (t : Text) (e : ℕ) (u : Text) → text_eq (tok_key t) (sess_key e u) ≡ false
unfolding tok_key sess_key text_eq
tok-sess t e u = refl

pub tok-sess_prefix : (t : Text) (e : ℕ) → starts_with (tok_key t) (sess_prefix e) ≡ false
unfolding tok_key sess_prefix starts_with
tok-sess_prefix t e = refl

pub sess-tok : (e : ℕ) (u t : Text) → text_eq (sess_key e u) (tok_key t) ≡ false
unfolding tok_key sess_key text_eq
sess-tok e u t = refl

pub refresh-tok : (u t : Text) → text_eq (refresh_key u) (tok_key t) ≡ false
unfolding tok_key refresh_key text_eq
refresh-tok u t = refl

pub refresh-sess : (u : Text) (e : ℕ) (t : Text) → text_eq (refresh_key u) (sess_key e t) ≡ false
unfolding sess_key refresh_key text_eq
refresh-sess u e t = refl

pub tok-refresh : (t u : Text) → text_eq (tok_key t) (refresh_key u) ≡ false
unfolding tok_key refresh_key text_eq
tok-refresh t u = refl

pub sess-refresh : (e : ℕ) (t u : Text) → text_eq (sess_key e t) (refresh_key u) ≡ false
unfolding sess_key refresh_key text_eq
sess-refresh e t u = refl

pub sess-pending : (e : ℕ) (t u : Text) → text_eq (sess_key e t) (pending_key u) ≡ false
unfolding sess_key pending_key text_eq
sess-pending e t u = refl

pub tok-pending : (t u : Text) → text_eq (tok_key t) (pending_key u) ≡ false
unfolding tok_key pending_key text_eq
tok-pending t u = refl

pub refresh-pending : (t u : Text) → text_eq (refresh_key t) (pending_key u) ≡ false
unfolding refresh_key pending_key text_eq
refresh-pending t u = refl

pub tok-starts : (t : Text) (e : ℕ) → starts_with (tok_key t) (sess_prefix e) ≡ false
unfolding tok_key sess_prefix starts_with
tok-starts t e = refl

pub refresh-starts : (t : Text) (e : ℕ) → starts_with (refresh_key t) (sess_prefix e) ≡ false
unfolding refresh_key sess_prefix starts_with
refresh-starts t e = refl

-- Of two numbers each followed by a colon, one begins the other only if they are the same.
digits-starts :
    (xs ys rest : Text)
    → All IsDigit xs
    → All IsDigit ys
    → starts_with (xs ++ (58 ∷ rest)) (ys ++ (58 ∷ [])) ≡ true
    → xs ≡ ys
unfolding starts_with
digits-starts [] [] rest h k e = refl
digits-starts [] (y ∷ ys) rest h k e = ground arith
digits-starts (x ∷ xs) [] rest h k e = ground arith
digits-starts (x ∷ xs) (y ∷ ys) rest h k e = ground (arith, digits-starts xs ys rest h.1 k.1)

some-injective : {a b : ℕ} → some a ≡ some b → a ≡ b
some-injective h = cc

show_ℕ-injective : (a b : ℕ) → show_ℕ a ≡ show_ℕ b → a ≡ b
show_ℕ-injective a b e = cc (ap (read_digits 0) e, read_digits-show_ℕ a, read_digits-show_ℕ b)

epoch_of_starts : (e d : ℕ) (t : Text) → starts_with (sess_key e t) (sess_prefix d) ≡ true → e ≡ d
unfolding sess_key sess_prefix
epoch_of_starts e d t h = show_ℕ-injective e d (
    digits-starts (show_ℕ e) (show_ℕ d) t (show_ℕ-IsDigit e) (show_ℕ-IsDigit d) (
      subst (λ b. b ≡ true)
        (starts_with_cancel (codes "sess:") (show_ℕ e ++ (58 ∷ t)) (show_ℕ d ++ (58 ∷ []))) h))

sess-starts : (e : ℕ) (t : Text) → starts_with (sess_key e t) (sess_prefix e) ≡ true
unfolding sess_key sess_prefix
sess-starts e t =
    starts_with_cancel (codes "sess:") (show_ℕ e ++ (58 ∷ t)) (show_ℕ e ++ (58 ∷ []))
    ∙ starts_with_cancel (show_ℕ e) (58 ∷ t) (58 ∷ [])
    ∙ starts_with-append (58 ∷ []) t

-- An epoch's prefix covers the session keys of that epoch, and of no other.
pub sess-starts_iff :
    (e d : ℕ) (t : Text) → (starts_with (sess_key e t) (sess_prefix d) ≡ true) ↔ (e ≡ d)
sess-starts_iff e d t = (epoch_of_starts e d t, λ h. rw h (sess-starts d t))

pub tok-tok : (t u : Text) → text_eq (tok_key t) (tok_key u) ≡ text_eq t u
unfolding tok_key
tok-tok t u = text_eq_cancel (codes "tok:") t u

pub refresh-refresh : (t u : Text) → text_eq (refresh_key t) (refresh_key u) ≡ text_eq t u
unfolding refresh_key
refresh-refresh t u = text_eq_cancel (codes "sess-refresh:") t u

pub pending-pending : (t u : Text) → text_eq (pending_key t) (pending_key u) ≡ text_eq t u
unfolding pending_key
pending-pending t u = text_eq_cancel (codes "pending:") t u

sess-sess_same : (e : ℕ) (t u : Text) → text_eq (sess_key e t) (sess_key e u) ≡ text_eq t u
unfolding sess_key
sess-sess_same e t u =
    text_eq_cancel (codes "sess:") (show_ℕ e ++ (58 ∷ t)) (show_ℕ e ++ (58 ∷ u))
    ∙ text_eq_cancel (show_ℕ e) (58 ∷ t) (58 ∷ u)
    ∙ text_eq_cancel (58 ∷ []) t u

-- Session keys agree only at the same epoch.
pub sess-sess_epoch : (e d : ℕ) (t u : Text) → text_eq (sess_key e t) (sess_key d u) ≡ true → e ≡ d
sess-sess_epoch e d t u h = epoch_of_starts e d t (
    subst (λ k. starts_with k (sess_prefix d) ≡ true)
      (sym ((text_eq_iff (sess_key e t) (sess_key d u)).0 h)) (sess-starts d u))

-- Different tokens have different session keys.
pub sess-sess_ne :
    (e d : ℕ) (t u : Text) → text_eq t u ≡ false → text_eq (sess_key e t) (sess_key d u) ≡ false
sess-sess_ne e d t u h = elim (Bool-cases (text_eq (sess_key e t) (sess_key d u))) [
  | inl same ↦
      let level = sess-sess_epoch e d t u same in
      cc
        (subst (λ k. text_eq (sess_key k t) (sess_key d u) ≡ true) level same, sess-sess_same d t u)
  | inr other ↦ other
]
