-- ===== src/Opengpg/Unlock/LogOut.antt =====
-- `auth_logout` of backend/src/auth/handlers.rs over sessions and the unlock ring.
use lyra.Prelude.{ℕ, ◌≤◌, ◌≡◌, ◌∙◌, none, some, Text, text_eq_refl, arith}
use lyra.Kv.{KvStore, KvLaws}
use lyra.Auth.Session.{Users, get_session}
use lyra.Auth.Session.Logout.{remove_session_ends}
use lyra.Opengpg.Session.{UnlockRing, get}
use lyra.Opengpg.Session.Locks.{lock_lem}
use lyra.Opengpg.Unlock.{KeyServices, auth_logout, logout}

module _ (kv : KvStore) (laws : KvLaws kv) (sv : KeyServices) where
  open kv use {Store}

  -- After a logout, at any later moment the token answers no user and no passphrase of any key.
  pub auth_logout_ends :
      (db : Users) (now u : ℕ) (token k : Text) (s : Store) (rings : UnlockRing)
      → now ≤ u
      → ((get_session kv db u token (auth_logout kv sv db now (some token) (s, rings)).0).0 ≡ none)
        × ((get u token k (auth_logout kv sv db now (some token) (s, rings)).1).0 ≡ none)
  unfolding auth_logout logout
  auth_logout_ends db now u token k s rings h = (
    remove_session_ends kv laws db now u token s h,
    lock_lem u token token k none rings ∙ ground (arith, text_eq_refl token),
  )
