-- ===== src/Opengpg/Session/Locks.antt =====
-- Locks and reads of the ring of backend/src/opengpg/session.rs: what they mean for other keys.
use lyra.Prelude.{
  ℕ, ◌≤◌, ◌≡◌, refl, sym, ◌∙◌, Bool, true, false, ◌&&◌, Option, none, some, Text, text_eq,
  text_eq_iff, arith, inl, inr, Option-cases, if◌then◌else◌,
}
use lyra.Opengpg.Session.{CachedUnlock, UnlockRing, before, entry_alive, get, lock, unlocked_ids}
use lyra.Opengpg.Session.Entries.{
  entry, only_alive, phrase, get-phrase, entry-get, entry-lock_all, entry-lock_key,
  entry-unlocked_ids,
}

-- What is not alive does not come back.
once_dead :
    (now u : ℕ) (e : CachedUnlock) → now ≤ u → entry_alive now e ≡ false → entry_alive u e ≡ false
unfolding entry_alive before
once_dead now u e h d = elim (Option-cases e.expires_at) [
  | inl n ↦ ground (arith, n)
  | inr (x, n) ↦ ground (arith, n)
]

-- Pruning earlier changes no later answer.
pruned_early :
    (now u : ℕ) (o : Option CachedUnlock)
    → now ≤ u
    → phrase (only_alive u (only_alive now o)) ≡ phrase (only_alive u o)
unfolding only_alive
pruned_early now u none h = refl
pruned_early now u (some e) h = ground (arith, once_dead now u e h)

abbrev covers : Option Text → Text → Bool
covers none k = true
covers (some id) k = text_eq id k

-- Locking one key id, or all, of a token: no passphrase of what is locked is answered at any moment,
-- and every other key answers what it would have answered.
pub lock_lem :
    (u : ℕ) (t t' k' : Text) (key_id : Option Text) (rings : UnlockRing)
    → (get u t' k' (lock t key_id rings)).0
      ≡ (if text_eq t t' && covers key_id k' then none else (get u t' k' rings).0)
unfolding only_alive
lock_lem u t t' k' none rings = ground (
  arith,
  get-phrase u t' k' rings,
  get-phrase u t' k' (lock t none rings),
  entry-lock_all t t' k' rings,
)
lock_lem u t t' k' (some k) rings = ground (
  arith,
  get-phrase u t' k' rings,
  get-phrase u t' k' (lock t (some k) rings),
  entry-lock_key t k t' k' rings,
)

-- Reading a key changes no later answer of another key id or another token.
pub get_others :
    (now u : ℕ) (t k t' k' : Text) (rings : UnlockRing)
    → now ≤ u
    → text_eq t t' && text_eq k k' ≡ false
    → (get u t' k' (get now t k rings).1).0 ≡ (get u t' k' rings).0
get_others now u t k t' k' rings h d =
    let early = pruned_early now u (entry rings t' k') h in
    get-phrase u t' k' (get now t k rings).1
    ∙ ground (arith, d, early, text_eq_iff t t', entry-get now t k t' k' rings)
    ∙ sym (get-phrase u t' k' rings)

-- Listing the unlocked keys of a token changes no later answer.
pub unlocked_ids_reads :
    (now u : ℕ) (t t' k' : Text) (rings : UnlockRing)
    → now ≤ u
    → (get u t' k' (unlocked_ids now t rings).1).0 ≡ (get u t' k' rings).0
unlocked_ids_reads now u t t' k' rings h =
    let early = pruned_early now u (entry rings t' k') h in
    get-phrase u t' k' (unlocked_ids now t rings).1
    ∙ ground (arith, early, text_eq_iff t t', entry-unlocked_ids now t t' k' rings)
    ∙ sym (get-phrase u t' k' rings)
