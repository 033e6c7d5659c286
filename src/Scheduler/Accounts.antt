-- ===== src/Scheduler/Accounts.antt =====
-- A poll pass over the accounts that the query of backend/src/scheduler.rs lists.
use lyra.Prelude.{
  ℕ, ◌≡◌, true, ◌&&◌, ◌||◌, not, List, [], ◌∷◌, ◌++◌, any, Text, text_eq, text_eq_refl, arith,
}
use lyra.Jobs.{Job}
use lyra.Scheduler.{
  Backoff, MailAccount, list_active_accounts, is_due, has_pending_or_running_sync, poll_tick,
}
use lyra.Scheduler.Tick.{poll_tick_serves}

listed :
    (r : MailAccount) (xs ys : List MailAccount)
    → (r.is_active && r.sync_enabled) ≡ true
    → any (λ c. text_eq c.id r.id) (list_active_accounts (xs ++ r ∷ ys)) ≡ true
unfolding list_active_accounts
listed r [] ys h = ground (arith, h, text_eq_refl r.id)
listed r (x ∷ xs) ys h = ground (arith, h, listed r xs ys)

module _ (new_id : Text → Text) (now run_at : ℕ) where
  -- After a pass over the accounts that the query lists, each account that is active and has sync
  -- enabled is either not due or has a pending or running sync job.
  pub active_account_served :
      (r : MailAccount) (xs ys : List MailAccount) (table : List Job) (backoff : Backoff)
      → (r.is_active && r.sync_enabled) ≡ true
      → (not (
            is_due
              (poll_tick new_id now run_at
                (list_active_accounts (xs ++ r ∷ ys))
                table
                backoff).backoff
              r.id
              now)
          || has_pending_or_running_sync
              (poll_tick new_id now run_at
                (list_active_accounts (xs ++ r ∷ ys))
                table
                backoff).table
              r.id)
        ≡ true
  active_account_served r xs ys table b h =
      poll_tick_serves new_id now run_at r.id (list_active_accounts (xs ++ r ∷ ys)) table b
        (listed r xs ys h)
