-- ===== src/Opengpg/Session/Expiry.antt =====
-- How long the ring of backend/src/opengpg/session.rs remembers an unlock.
use lyra.Prelude.{
  ℕ, ◌+◌, ◌*◌, ◌≤◌, ◌≡◌, refl, ap, ◌∙◌, Bool, true, false, ◌&&◌, Option, none, some, List, [], ◌∷◌,
  Text, text_eq_refl, arith, inl, inr, Bool-cases, Option-cases, ltb, leb, if◌then◌else◌,
}
use lyra.Opengpg.Session.{
  CacheMode, once, timed, session, CachedUnlock, UnlockRing, before, entry_alive, clamp_ttl, expiry,
  idle_timeout, get, put,
}
use lyra.Opengpg.Session.Entries.{entry, only_alive, fresh_entry, get-phrase, entry-get, entry-put}

-- Uses of a key at the listed moments.
unfoldable pub reads : Text → Text → List ℕ → UnlockRing → UnlockRing
reads t k [] rings = rings
reads t k (u ∷ us) rings = reads t k us (get u t k rings).1

-- In nanoseconds.
abbrev pub one_minute : ℕ
one_minute = 60_000_000_000

-- Moments in order, each at most ten minutes after the one before.
abbrev pub Steady : ℕ → List ℕ → Type 0
Steady from [] = Unit
Steady from (u ∷ us) = (from ≤ u) × (u ≤ from + 10 * one_minute) × Steady u us

abbrev pub last : ℕ → List ℕ → ℕ
last t [] = t
last t (u ∷ us) = last u us

-- A timed unlock ends with its TTL, any other does not end by itself.
unfoldable pub in_time : ℕ → Option ℕ → Bool
in_time u none = true
in_time u (some exp) = ltb u exp

gone :
    (t k : Text) (us : List ℕ) (u : ℕ) (rings : UnlockRing)
    → entry rings t k ≡ none
    → (get u t k (reads t k us rings)).0 ≡ none
unfolding reads only_alive
gone t k [] u rings h = ground (arith, h, get-phrase u t k rings)
gone t k (v ∷ us) u rings h =
    gone t k us u (get v t k rings).1
      (ground (arith, h, entry-get v t k t k rings, text_eq_refl t, text_eq_refl k))

last_after : (v : ℕ) (us : List ℕ) → Steady v us → v ≤ last v us
last_after v [] w = omega arith
last_after v (x ∷ us) w = omega (arith, w.0, last_after x us w.2)

in_time_before : (v u : ℕ) (exp : Option ℕ) → v ≤ u → in_time v exp ≡ false → in_time u exp ≡ false
unfolding in_time
in_time_before v u none h d = d
in_time_before v u (some x) h d = ground (arith, d)

-- Within the idle timeout an entry lives as long as its TTL.
alive-in_time :
    (u : ℕ) (e : CachedUnlock)
    → e.last_used ≤ u
    → entry_alive u e ≡ (leb u (e.last_used + idle_timeout) && in_time u e.expires_at)
unfolding entry_alive before in_time
alive-in_time u e h = elim (Option-cases e.expires_at) [
  | inl n ↦ ground (arith, n)
  | inr (x, n) ↦ ground (arith, n)
]

abbrev answered : ℕ → ℕ → Option ℕ → Text → Option Text
answered last u exp p = if leb u (last + idle_timeout) && in_time u exp then some p else none

held :
    (t k : Text) (u : ℕ) (us : List ℕ) (rings : UnlockRing) (e : CachedUnlock)
    → entry rings t k ≡ some e
    → Steady e.last_used us
    → last e.last_used us ≤ u
    → (get u t k (reads t k us rings)).0
      ≡ answered (last e.last_used us) u e.expires_at e.passphrase
unfolding reads only_alive
held t k u [] rings e h w q = ground (arith, h, get-phrase u t k rings, alive-in_time u e q)
held t k u (v ∷ us) rings e h w q = elim (Bool-cases (in_time v e.expires_at)) [
  | inl live ↦
      held t k u us (get v t k rings).1 (record e { last_used = v })
        (ground (
          arith,
          h,
          live,
          entry-get v t k t k rings,
          text_eq_refl t,
          text_eq_refl k,
          alive-in_time v e w.0,
          w.1,
        ))
        w.2 q
  | inr late ↦
      let dead = gone t k us u (get v t k rings).1 (
        ground (
          arith,
          h,
          late,
          entry-get v t k t k rings,
          text_eq_refl t,
          text_eq_refl k,
          alive-in_time v e w.0,
        )) in
      let after : v ≤ u = omega (arith, last_after v us w.2, q) in
      dead ∙ ground (arith, in_time_before v u e.expires_at after late)
]

-- How many minutes a timed unlock is given: at least 1 and at most 120.
abbrev pub given_minutes : ℕ → ℕ
given_minutes ttl = if leb ttl 1 then 1 else if leb 120 ttl then 120 else ttl

-- A timed unlock of the moment `now` is not over at `u`.
abbrev pub not_over : CacheMode → ℕ → ℕ → ℕ → Bool
not_over once ttl now u = true
not_over timed ttl now u = ltb u (now + given_minutes ttl * one_minute)
not_over session ttl now u = true

clamp_ttl-given : (ttl : ℕ) → clamp_ttl ttl ≡ given_minutes ttl
unfolding clamp_ttl
clamp_ttl-given ttl = ground arith

in_time-not_over :
    (mode : CacheMode) (ttl now u : ℕ)
    → in_time u (expiry now mode (clamp_ttl ttl)) ≡ not_over mode ttl now u
unfolding in_time expiry
in_time-not_over once ttl now u = refl
in_time-not_over timed ttl now u = rw (clamp_ttl-given ttl) (ground arith)
in_time-not_over session ttl now u = refl

-- After an unlock that is cached and uses of the key, each at most ten minutes after the one before,
-- the passphrase is answered at a later moment exactly when that is at most ten minutes after the
-- last use and, for the timed mode, before the end of its TTL, which is taken between 1 and 120
-- minutes from the unlock.
pub unlock_lasts :
    (now u : ℕ) (t k p : Text) (mode : CacheMode) (ttl : ℕ) (us : List ℕ) (rings : UnlockRing)
    → (mode ≡ once → ⊥)
    → Steady now us
    → last now us ≤ u
    → (get u t k (reads t k us (put now t k p mode ttl rings))).0
      ≡ (if leb u (last now us + 10 * one_minute) && not_over mode ttl now u then some p else none)
unlock_lasts now u t k p mode ttl us rings h w q =
    held t k u us (put now t k p mode ttl rings) (fresh_entry now p mode (clamp_ttl ttl))
      (ground (arith, entry-put now t k p mode ttl t k rings h, text_eq_refl t, text_eq_refl k)) w q
    ∙ ap
        (λ open_still. if leb u (last now us + 10 * one_minute) && open_still then some p else none)
        (in_time-not_over mode ttl now u)
