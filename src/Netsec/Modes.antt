-- ===== src/Netsec/Modes.antt =====
-- Security modes of backend/src/netsec.rs.
use lyra.Prelude.{◌≡◌, refl, ◌∙◌, ◌⊎◌, inl, inr, [], ◌∷◌, Text, codes, text_eq, arith, Bool-cases}
use lyra.Prelude.Result.{ok}
use lyra.Netsec.{to_ascii_lowercase, normalize_security_mode}

-- The mapping is its own repetition.
lowercase_again : (s : Text) → to_ascii_lowercase (to_ascii_lowercase s) ≡ to_ascii_lowercase s
unfolding to_ascii_lowercase
lowercase_again [] = refl
lowercase_again (c ∷ s) = ground (arith, lowercase_again s)

tls_kept : normalize_security_mode (codes "tls") ≡ ok (codes "tls")
unfolding normalize_security_mode to_ascii_lowercase text_eq
tls_kept = refl

starttls_kept : normalize_security_mode (codes "starttls") ≡ ok (codes "starttls")
unfolding normalize_security_mode to_ascii_lowercase text_eq
starttls_kept = refl

same_case :
    (value : Text)
    → normalize_security_mode (to_ascii_lowercase value) ≡ normalize_security_mode value
unfolding normalize_security_mode
same_case value = rw (lowercase_again value) refl

accepted :
    (value mode : Text)
    → normalize_security_mode value ≡ ok mode
    → (mode ≡ codes "tls") ⊎ (mode ≡ codes "starttls")
unfolding normalize_security_mode
accepted value mode h = elim (Bool-cases (text_eq (to_ascii_lowercase value) (codes "tls"))) [
  | inl tls ↦ inl (cc (h, tls))
  | inr not_tls ↦ elim (Bool-cases (text_eq (to_ascii_lowercase value) (codes "starttls"))) [
    | inl starttls ↦ inr (cc (h, not_tls, starttls))
    | inr other ↦ cc (h, not_tls, other)
  ]
]

-- The case of a security mode's letters does not matter, and an accepted mode is one of the two
-- supported and stays as it is when it is normalized again.
pub normalize_security_mode_lem :
    (value mode : Text)
    → normalize_security_mode value ≡ ok mode
    → (normalize_security_mode (to_ascii_lowercase value) ≡ ok mode)
      × (normalize_security_mode mode ≡ ok mode)
      × ((mode ≡ codes "tls") ⊎ (mode ≡ codes "starttls"))
normalize_security_mode_lem value mode h = (
  same_case value ∙ h,
  elim (accepted value mode h) [
    | inl tls ↦ rw tls tls_kept
    | inr starttls ↦ rw starttls starttls_kept
  ],
  accepted value mode h,
)
