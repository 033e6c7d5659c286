-- ===== src/Opengpg/Unlock/Verified.antt =====
-- The invariant of the unlock ring of backend/src/opengpg/session.rs: where its passphrases come from.
use lyra.Prelude.{
  ℕ, ◌≡◌, refl, subst, Bool, true, false, ◌&&◌, Option, none, some, Text, text_eq, text_eq_iff, inl,
  inr, Bool-cases, if◌then◌else◌,
}
use lyra.Prelude.Result.{ok}
use lyra.Opengpg.Session.{
  CacheMode, once, timed, session, CachedUnlock, UnlockRing, entry_alive, clamp_ttl, get, put, lock,
  unlocked_ids,
}
use lyra.Opengpg.Session.Entries.{
  entry, only_alive, touched, fresh_entry, entry-get, entry-put, entry-lock_all, entry-lock_key,
  entry-unlocked_ids,
}
use lyra.Opengpg.Unlock.{KeyServices, StoredKey, get_key, verify_secret_passphrase}

module _ (sv : KeyServices) where
  -- Some user's secret key of this id opens with the passphrase.
  pub record Opens (key_id passphrase : Text) : Type 0 where
    pub user_id : Text
    pub key : StoredKey
    pub is_found : get_key sv user_id key_id ≡ ok (some key)
    pub has_secret : key.is_secret ≡ true
    pub is_right : verify_secret_passphrase sv key.key_data passphrase ≡ ok tt

  -- What one place of the ring may hold: an unlock of a mode other than `once` whose passphrase
  -- opens the key.
  pub record Good (key_id : Text) (e : CachedUnlock) : Type 0 where
    pub opens : Opens key_id e.passphrase
    pub kept : e.mode ≡ once → ⊥

  abbrev pub GoodAt : Text → Option CachedUnlock → Type 0
  GoodAt key_id none = Unit
  GoodAt key_id (some e) = Good key_id e

  abbrev pub IsVerified : UnlockRing → Type 0
  IsVerified rings = (t k : Text) → GoodAt k (entry rings t k)

  good_if :
      (b : Bool) (k : Text) (o p : Option CachedUnlock)
      → GoodAt k o
      → GoodAt k p
      → GoodAt k (if b then o else p)
  good_if true k o p g h = g
  good_if false k o p g h = h

  good_and :
      (a b : Bool) (k : Text) (o p : Option CachedUnlock)
      → (b ≡ true → GoodAt k o)
      → GoodAt k p
      → GoodAt k (if a && b then o else p)
  good_and false b k o p g h = h
  good_and true true k o p g h = g refl
  good_and true false k o p g h = h

  good_alive :
      (now : ℕ) (k : Text) (o : Option CachedUnlock) → GoodAt k o → GoodAt k (only_alive now o)
  unfolding only_alive
  good_alive now k none g = g
  good_alive now k (some e) g = good_if (entry_alive now e) k (some e) none g tt

  good_touched :
      (now : ℕ) (k : Text) (o : Option CachedUnlock) → GoodAt k o → GoodAt k (touched now o)
  good_touched now k none g = g
  good_touched now k (some e) g = record { opens = g.opens; kept = g.kept }

  pub IsVerified-get :
      (now : ℕ) (t k : Text) (rings : UnlockRing)
      → IsVerified rings
      → IsVerified (get now t k rings).1
  IsVerified-get now t k rings h t' k' =
      rw (entry-get now t k t' k' rings) (elim (Bool-cases (text_eq k k')) [
        | inl e ↦
            let here = good_touched now k _ (good_alive now k _ (h t k)) in
            let there =
              subst (λ x. GoodAt x (touched now (only_alive now (entry rings t k))))
                ((text_eq_iff k k').0 e) here in
            good_if (text_eq t t') k' _ _
              (good_if (text_eq k k') k' _ _ there (good_alive now k' _ (h t k'))) (h t' k')
        | inr e ↦ rw e (good_if (text_eq t t') k' _ _ (good_alive now k' _ (h t k')) (h t' k'))
      ])

  pub IsVerified-lock :
      (t : Text) (key_id : Option Text) (rings : UnlockRing)
      → IsVerified rings
      → IsVerified (lock t key_id rings)
  IsVerified-lock t none rings h t' k' =
      rw (entry-lock_all t t' k' rings) (good_if (text_eq t t') k' none _ tt (h t' k'))
  IsVerified-lock t (some k) rings h t' k' =
      rw (entry-lock_key t k t' k' rings)
        (good_if (text_eq t t' && text_eq k k') k' none _ tt (h t' k'))

  pub IsVerified-unlocked_ids :
      (now : ℕ) (t : Text) (rings : UnlockRing)
      → IsVerified rings
      → IsVerified (unlocked_ids now t rings).1
  IsVerified-unlocked_ids now t rings h t' k' =
      rw (entry-unlocked_ids now t t' k' rings)
        (good_if (text_eq t t') k' _ _ (good_alive now k' _ (h t k')) (h t' k'))

  good_put :
      (now : ℕ) (t k p : Text) (mode : CacheMode) (ttl : ℕ) (rings : UnlockRing)
      → (mode ≡ once → ⊥)
      → Opens k p
      → IsVerified rings
      → IsVerified (put now t k p mode ttl rings)
  good_put now t k p mode ttl rings n o h t' k' =
      let fresh = fresh_entry now p mode (clamp_ttl ttl) in
      let made : Good k fresh = record { opens = o; kept = n } in
      rw (entry-put now t k p mode ttl t' k' rings n) (
        good_and (text_eq t t') (text_eq k k') k' (some fresh) (entry rings t' k')
          (λ e. subst (λ x. Good x fresh) ((text_eq_iff k k').0 e) made) (h t' k'))

  pub IsVerified-put :
      (now : ℕ) (t k p : Text) (mode : CacheMode) (ttl : ℕ) (rings : UnlockRing)
      → Opens k p
      → IsVerified rings
      → IsVerified (put now t k p mode ttl rings)
  unfolding put
  IsVerified-put now t k p once ttl rings o h = h
  IsVerified-put now t k p timed ttl rings o h = good_put now t k p timed ttl rings (λ e. cc e) o h
  IsVerified-put now t k p session ttl rings o h =
      good_put now t k p session ttl rings (λ e. cc e) o h
