-- ===== src/Auth/Session/Lifetime/Uses.antt =====
-- A session over a sequence of uses.
use lyra.Prelude.{ℕ, ◌+◌, ◌≤◌, ◌<◌, ◌≡◌, ◌∙◌, none, some, List, [], ◌∷◌, Text, arith}
use native.Mathlib.Nat.{le_refl}
use lyra.Prelude.Map
use lyra.Kv.{KvStore, KvLaws, from_secs}
use lyra.Auth.{session_ttl_secs}
use lyra.Auth.Session.{Users, create_session, get_session}
use lyra.Auth.Session.Reads.{get_session-session_user}
use lyra.Auth.Session.Lifetime.{half, Written, create-Written, use-Written, user_of_Written}

-- Each use comes at most half a window, 15 days, after the one before.
abbrev pub Gaps : ℕ → List ℕ → Type 0
Gaps from [] = Unit
Gaps from (t ∷ ts) = (from ≤ t) × (t ≤ from + from_secs half) × Gaps t ts

abbrev pub last : ℕ → List ℕ → ℕ
last t [] = t
last t (u ∷ ts) = last u ts

module _ (kv : KvStore) (laws : KvLaws kv) where
  open kv use {Store}

  -- The store after the token was presented at the listed moments.
  pub use_at : Users → Text → List ℕ → Store → Store
  use_at db token [] s = s
  use_at db token (t ∷ ts) s = use_at db token ts (get_session kv db t token s).1

  module _ (db : Users) (user_id : Text) (epoch : ℕ) (token : Text) where
    abbrev IsFresh : ℕ → Store → Type 0
    IsFresh t s =
        (w : ℕ) × Written kv laws db user_id epoch token w t s × (w ≤ t) × (t < w + from_secs half)

    use_at-IsFresh :
        (t : ℕ) (ts : List ℕ) (s : Store)
        → Map.get db user_id ≡ some epoch
        → Gaps t ts
        → IsFresh t s
        → IsFresh (last t ts) (use_at db token ts s)
    unfolding use_at
    use_at-IsFresh t [] s known g f = f
    use_at-IsFresh t (u ∷ ts) s known g (w, h, p, q) =
        use_at-IsFresh u ts (get_session kv db u token s).1 known g.2 (
          use-Written kv laws db user_id epoch token w t u s known h g.0 (omega arith)
            (omega arith))

    created-IsFresh :
        (start : ℕ) (s : Store)
        → Map.get db user_id ≡ some epoch
        → IsFresh start (create_session kv db start token user_id s).1
    created-IsFresh start s known = (
      start,
      create-Written kv laws db user_id epoch token start s known,
      le_refl start,
      omega arith,
    )

    module _ (start u : ℕ) (ts : List ℕ) (s : Store) (known : Map.get db user_id ≡ some epoch)
        (gaps : Gaps start ts) where
      -- A session that is created for a known user and presented at most 15 days apart still answers
      -- its user, at any moment up to 15 days after the last use.
      pub session_kept_alive :
          last start ts ≤ u
          → u ≤ last start ts + from_secs half
          → (get_session kv db u token
              (use_at db token ts (create_session kv db start token user_id s).1)).0
            ≡ some user_id
      session_kept_alive p q =
          let (w, h, a, b) =
            use_at-IsFresh start ts (create_session kv db start token user_id s).1 known gaps
              (created-IsFresh start s known) in
          get_session-session_user kv laws db u token _
          ∙ user_of_Written kv laws db user_id epoch token w (last start ts) u _ known h p
          ∙ ground arith

      -- It answers no user from 30 days after the last use on.
      pub session_abandoned :
          last start ts + from_secs session_ttl_secs ≤ u
          → (get_session kv db u token
              (use_at db token ts (create_session kv db start token user_id s).1)).0
            ≡ none
      session_abandoned q =
          let (w, h, a, b) =
            use_at-IsFresh start ts (create_session kv db start token user_id s).1 known gaps
              (created-IsFresh start s known) in
          get_session-session_user kv laws db u token _
          ∙ user_of_Written kv laws db user_id epoch token w (last start ts) u _ known h
              (omega arith)
          ∙ ground arith
