-- ===== src/Opengpg/Session/Entries.antt =====
-- The ring of backend/src/opengpg/session.rs as a table of entries by token and key id: what each
-- call finds and leaves.
use lyra.Prelude.{
  ℕ, ◌≡◌, refl, ◌&&◌, Option, none, some, Text, text_eq, text_eq_iff, arith, inl, inr, Option-cases,
  if◌then◌else◌,
}
use lyra.Prelude.Map
use lyra.Prelude.Map.{Map}
use lyra.Opengpg.Session.{
  CacheMode, once, timed, session, CachedUnlock, UnlockRing, entry_alive, clamp_ttl, expiry,
  ring_of, store_entry, put, answer, look_up, get, lock_key, lock, unlocked, unlocked_ids,
}

in_ring : Option (Map CachedUnlock) → Text → Option CachedUnlock
in_ring none k = none
in_ring (some ring) k = Map.get ring k

-- The entry of a token and a key id.
unfoldable pub entry : UnlockRing → Text → Text → Option CachedUnlock
unfolding in_ring
entry rings t k = in_ring (Map.get rings t) k

pub entry-empty : (t k : Text) → entry Map.empty t k ≡ none
unfolding entry in_ring
entry-empty t k = ground (arith, Map.get-empty {V = Map CachedUnlock} t)

unfoldable pub only_alive : ℕ → Option CachedUnlock → Option CachedUnlock
only_alive now none = none
only_alive now (some e) = if entry_alive now e then some e else none

abbrev pub phrase : Option CachedUnlock → Option Text
phrase none = none
phrase (some e) = some e.passphrase

abbrev pub touched : ℕ → Option CachedUnlock → Option CachedUnlock
touched now none = none
touched now (some e) = some (record e { last_used = now })

pruned :
    (now : ℕ) (ring : Map CachedUnlock) (k : Text)
    → Map.get (Map.retain_values (entry_alive now) ring) k ≡ only_alive now (Map.get ring k)
unfolding only_alive
pruned now ring k = elim (Option-cases (Map.get ring k)) [
  | inl e ↦ ground (arith, e, Map.get-retain_values ring (entry_alive now) k)
  | inr (v, e) ↦ ground (arith, e, Map.get-retain_values ring (entry_alive now) k)
]

pub get-phrase :
    (now : ℕ) (t k : Text) (rings : UnlockRing)
    → (get now t k rings).0 ≡ phrase (only_alive now (entry rings t k))
unfolding get look_up answer entry in_ring only_alive
get-phrase now t k rings = elim (Option-cases (Map.get rings t)) [
  | inl e ↦ ground (arith, e)
  | inr (ring, e) ↦ elim (Option-cases (Map.get ring k)) [
    | inl f ↦ ground (arith, e, f, pruned now ring k)
    | inr (v, f) ↦ ground (arith, e, f, pruned now ring k)
  ]
]

pub entry-get :
    (now : ℕ) (t k t' k' : Text) (rings : UnlockRing)
    → entry (get now t k rings).1 t' k' ≡ (
        if text_eq t t'
        then (if text_eq k k'
            then touched now (only_alive now (entry rings t k))
            else only_alive now (entry rings t k'))
        else entry rings t' k')
unfolding get look_up answer entry in_ring only_alive
entry-get now t k t' k' rings = elim (Option-cases (Map.get rings t)) [
  | inl e ↦ ground (arith, e, text_eq_iff t t')
  | inr (ring, e) ↦
      let live = Map.retain_values (entry_alive now) ring in
      elim (Option-cases (Map.get live k)) [
        | inl f ↦ ground (
          arith,
          e,
          f,
          pruned now ring k,
          pruned now ring k',
          text_eq_iff t t',
          text_eq_iff k k',
          Map.get-insert rings t t' live,
        )
        | inr (v, f) ↦
            let used = Map.insert live k (record v { last_used = now }) in
            ground (
              arith,
              e,
              f,
              pruned now ring k,
              pruned now ring k',
              text_eq_iff t t',
              text_eq_iff k k',
              Map.get-insert rings t t' used,
              Map.get-insert live k k' (record v { last_used = now }),
            )
      ]
]

pub entry-lock_all :
    (t t' k' : Text) (rings : UnlockRing)
    → entry (lock t none rings) t' k' ≡ (if text_eq t t' then none else entry rings t' k')
unfolding lock entry in_ring
entry-lock_all t t' k' rings = ground (arith, Map.get-remove rings t t')

pub entry-lock_key :
    (t k t' k' : Text) (rings : UnlockRing)
    → entry (lock t (some k) rings) t' k'
      ≡ (if text_eq t t' && text_eq k k' then none else entry rings t' k')
unfolding lock lock_key entry in_ring
entry-lock_key t k t' k' rings = elim (Option-cases (Map.get rings t)) [
  | inl e ↦ ground (arith, e, text_eq_iff t t')
  | inr (ring, e) ↦
      let left = Map.remove ring k in
      ground (
        arith,
        e,
        text_eq_iff t t',
        Map.get-remove ring k k',
        Map.get-remove rings t t',
        Map.get-insert rings t t' left,
        Map.get_is_empty left k',
      )
]

pub entry-unlocked_ids :
    (now : ℕ) (t t' k' : Text) (rings : UnlockRing)
    → entry (unlocked_ids now t rings).1 t' k'
      ≡ (if text_eq t t' then only_alive now (entry rings t k') else entry rings t' k')
unfolding unlocked_ids unlocked entry in_ring only_alive
entry-unlocked_ids now t t' k' rings = elim (Option-cases (Map.get rings t)) [
  | inl e ↦ ground (arith, e, text_eq_iff t t')
  | inr (ring, e) ↦
      let live = Map.retain_values (entry_alive now) ring in
      ground (arith, e, text_eq_iff t t', pruned now ring k', Map.get-insert rings t t' live)
]

abbrev pub fresh_entry : ℕ → Text → CacheMode → ℕ → CachedUnlock
fresh_entry now p mode ttl = record {
  passphrase = p;
  mode = mode;
  expires_at = expiry now mode ttl;
  last_used = now;
}

entry-store :
    (now : ℕ) (t k p : Text) (mode : CacheMode) (ttl : ℕ) (t' k' : Text) (rings : UnlockRing)
    → entry (store_entry now t k p mode ttl rings) t' k' ≡ (
        if text_eq t t' && text_eq k k'
        then some (fresh_entry now p mode ttl)
        else entry rings t' k')
unfolding store_entry entry in_ring ring_of
entry-store now t k p mode ttl t' k' rings =
    let made = fresh_entry now p mode ttl in
    elim (Option-cases (Map.get rings t)) [
      | inl e ↦ ground (
        arith,
        e,
        text_eq_iff t t',
        Map.get-insert rings t t' (Map.insert Map.empty k made),
        Map.get-insert Map.empty k k' made,
        Map.get-empty {V = CachedUnlock} k',
      )
      | inr (ring, e) ↦ ground (
        arith,
        e,
        text_eq_iff t t',
        Map.get-insert rings t t' (Map.insert ring k made),
        Map.get-insert ring k k' made,
      )
    ]

pub entry-put :
    (now : ℕ) (t k p : Text) (mode : CacheMode) (ttl : ℕ) (t' k' : Text) (rings : UnlockRing)
    → (mode ≡ once → ⊥)
    → entry (put now t k p mode ttl rings) t' k' ≡ (
        if text_eq t t' && text_eq k k'
        then some (fresh_entry now p mode (clamp_ttl ttl))
        else entry rings t' k')
unfolding put
entry-put now t k p once ttl t' k' rings h = absurd (h refl)
entry-put now t k p timed ttl t' k' rings h =
    entry-store now t k p timed (clamp_ttl ttl) t' k' rings
entry-put now t k p session ttl t' k' rings h =
    entry-store now t k p session (clamp_ttl ttl) t' k' rings
