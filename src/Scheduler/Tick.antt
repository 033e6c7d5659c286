-- ===== src/Scheduler/Tick.antt =====
-- What a poll pass of backend/src/scheduler.rs leaves in the queue.
use lyra.Prelude.{
  ℕ, max, zero, suc, ◌+◌, ◌≤◌, ◌≡◌, refl, ◌∙◌, Bool, true, false, ◌&&◌, ◌||◌, not, Option, none,
  some, List, [], ◌∷◌, ◌++◌, any, Text, codes, text_eq, text_eq_refl, text_eq_iff, filter, is_some,
  arith, inl, inr, Bool-cases, if◌then◌else◌,
}
use lyra.Prelude.Map
use lyra.Prelude.Map.{get-insert}
use lyra.Jobs.{sync_account, Job, order_by_due, insert_by_due, enqueue, payload_kind}
use lyra.Scheduler.{
  Backoff, ActiveAccount, Poll, delay, fail, succeed, mark_enqueued, apply_status, observe_outcome,
  observe_latest, is_due, is_sync_of, is_open, job_id, first_of_account,
  pending_or_running_sync_job_id, has_pending_or_running_sync, latest_terminal_sync, poll_account,
  poll_loop, poll_tick,
}

-- A row that holds an account's next sync.
abbrev pub is_open_sync_of : Text → Job → Bool
is_open_sync_of a j =
    text_eq j.kind (codes "sync_account") && is_open j.status && is_sync_of a j.payload

unfoldable pub open_syncs : Text → List Job → ℕ
open_syncs a [] = 0
open_syncs a (j ∷ t) = (if is_open_sync_of a j then 1 else 0) + open_syncs a t

abbrev has : Text → List Job → Bool
has a l = is_some (job_id (first_of_account a l))

has-cons : (a : Text) (j : Job) (l : List Job) → has a (j ∷ l) ≡ (is_sync_of a j.payload || has a l)
unfolding first_of_account
has-cons a j l = ground arith

has-insert_by_due :
    (a : Text) (j : Job) (l : List Job)
    → has a (insert_by_due j l) ≡ (is_sync_of a j.payload || has a l)
unfolding insert_by_due
has-insert_by_due a j [] = has-cons a j []
has-insert_by_due a j (k ∷ t) = ground (
  arith,
  has-insert_by_due a j t,
  has-cons a k (insert_by_due j t),
  has-cons a k t,
  has-cons a j (k ∷ t),
)

has-order_by_due : (a : Text) (l : List Job) → has a (order_by_due l) ≡ has a l
unfolding order_by_due
has-order_by_due a [] = refl
has-order_by_due a (j ∷ t) =
    ground (arith, has-insert_by_due a j (order_by_due t), has-order_by_due a t, has-cons a j t)

some_open : ℕ → Bool
some_open zero = false
some_open (suc n) = true

has-filter :
    (a : Text) (l : List Job)
    → has a (filter (λ j. text_eq j.kind (codes "sync_account") && is_open j.status) l)
      ≡ some_open (open_syncs a l)
unfolding open_syncs some_open first_of_account
has-filter a [] = refl
has-filter a (j ∷ t) =
    let rest = filter (λ j. text_eq j.kind (codes "sync_account") && is_open j.status) t in
    elim (Bool-cases (text_eq j.kind (codes "sync_account") && is_open j.status)) [
      | inl e ↦ ground (arith, e, has-cons a j rest, has-filter a t)
      | inr e ↦ ground (arith, e, has-filter a t)
    ]

has_pending_or_running_sync_lem :
    (table : List Job) (a : Text)
    → has_pending_or_running_sync table a ≡ some_open (open_syncs a table)
unfolding has_pending_or_running_sync pending_or_running_sync_job_id
has_pending_or_running_sync_lem table a =
    has-order_by_due a
      (filter (λ j. text_eq j.kind (codes "sync_account") && is_open j.status) table)
    ∙ has-filter a table

open_syncs-++ :
    (a : Text) (l r : List Job) → open_syncs a (l ++ r) ≡ open_syncs a l + open_syncs a r
unfolding open_syncs
open_syncs-++ a [] r = omega arith
open_syncs-++ a (j ∷ t) r = ground (arith, open_syncs-++ a t r)

open_syncs-enqueue :
    (a c u id : Text) (now run_at : ℕ) (table : List Job)
    → open_syncs a (enqueue id now (sync_account c u) run_at table)
      ≡ open_syncs a table + (if text_eq c a then 1 else 0)
unfolding open_syncs enqueue payload_kind
open_syncs-enqueue a c u id now run_at table = ground (
  arith,
  open_syncs-++ a table (enqueue id now (sync_account c u) run_at []),
  text_eq_refl (codes "sync_account"),
)

due_at : Backoff → Text → Option ℕ
due_at b a = Map.get b.next_due a

due_at-mark_enqueued :
    (a c : Text) (now : ℕ) (b : Backoff)
    → text_eq c a ≡ false
    → due_at (mark_enqueued c now b) a ≡ due_at b a
unfolding due_at mark_enqueued
due_at-mark_enqueued a c now b h = ground (arith, get-insert b.next_due c a (now + delay b c))

due_at-observe :
    (a c : Text) (now : ℕ) (o : Option (Text × Text)) (b : Backoff)
    → text_eq c a ≡ false
    → due_at (observe_latest c now o b) a ≡ due_at b a
unfolding due_at observe_latest observe_outcome apply_status fail succeed
due_at-observe a c now none b h = refl
due_at-observe a c now (some (id, s)) b h =
    let seen = record b { applied_job = Map.insert b.applied_job c id } in
    ground (arith, due_at-mark_enqueued a c now (fail c seen))

is_due-cong :
    (a : Text) (now : ℕ) (b b2 : Backoff)
    → due_at b a ≡ due_at b2 a
    → is_due b a now ≡ is_due b2 a now
unfolding due_at is_due
is_due-cong a now b b2 e = ground (arith, e)

module _ (new_id : Text → Text) (now run_at : ℕ) where
  abbrev seen : ActiveAccount → Poll → Backoff
  seen c p = observe_latest c.id now (latest_terminal_sync p.table c.id) p.backoff

  abbrev opens : ActiveAccount → Poll → Bool
  opens c p = is_due (seen c p) c.id now && not (has_pending_or_running_sync p.table c.id)

  open_syncs-poll_account :
      (a : Text) (c : ActiveAccount) (p : Poll)
      → open_syncs a (poll_account new_id now run_at c p).table
        ≡ open_syncs a p.table + (if text_eq c.id a && opens c p then 1 else 0)
  unfolding poll_account
  open_syncs-poll_account a c p =
      ground (arith, open_syncs-enqueue a c.id c.user_id (new_id c.id) run_at run_at p.table)

  -- A round opens a job only where none is open.
  opens-none :
      (a : Text) (c : ActiveAccount) (p : Poll)
      → (text_eq c.id a && opens c p) ≡ true
      → open_syncs a p.table ≡ 0
  unfolding some_open
  opens-none a c p h =
      ground (arith, has_pending_or_running_sync_lem p.table c.id, (text_eq_iff c.id a).0)

  open_syncs-poll_loop :
      (a : Text) (cs : List ActiveAccount) (p : Poll)
      → (open_syncs a p.table ≤ open_syncs a (poll_loop new_id now run_at cs p).table)
        × (open_syncs a (poll_loop new_id now run_at cs p).table ≤ max 1 (open_syncs a p.table))
  unfolding poll_loop
  open_syncs-poll_loop a [] p = (omega arith, omega arith)
  open_syncs-poll_loop a (c ∷ cs) p = ground (
    arith,
    open_syncs-poll_loop a cs (poll_account new_id now run_at c p),
    open_syncs-poll_account a c p,
    opens-none a c p,
  )

  -- A due account has an open job.
  abbrev is_served : Text → Poll → Bool
  is_served a p = not (is_due p.backoff a now) || has_pending_or_running_sync p.table a

  due_at-poll_account :
      (a : Text) (c : ActiveAccount) (p : Poll)
      → text_eq c.id a ≡ false
      → due_at (poll_account new_id now run_at c p).backoff a ≡ due_at p.backoff a
  unfolding poll_account
  due_at-poll_account a c p h = ground (
    arith,
    due_at-observe a c.id now (latest_terminal_sync p.table c.id) p.backoff h,
    due_at-mark_enqueued a c.id now (seen c p) h,
  )

  backoff-poll_account :
      (c : ActiveAccount) (p : Poll)
      → opens c p ≡ false
      → (poll_account new_id now run_at c p).backoff ≡ seen c p
  unfolding poll_account
  backoff-poll_account c p h = ground (arith, h)

  -- A round serves its own account.
  serves :
      (a : Text) (c : ActiveAccount) (p : Poll)
      → text_eq c.id a ≡ true
      → is_served a (poll_account new_id now run_at c p) ≡ true
  unfolding some_open
  serves a c p h = ground (
    arith,
    (text_eq_iff c.id a).0 h,
    open_syncs-poll_account a c p,
    backoff-poll_account c p,
    has_pending_or_running_sync_lem p.table a,
    has_pending_or_running_sync_lem (poll_account new_id now run_at c p).table a,
  )

  keeps_served :
      (a : Text) (c : ActiveAccount) (p : Poll)
      → text_eq c.id a ≡ false
      → is_served a p ≡ true
      → is_served a (poll_account new_id now run_at c p) ≡ true
  unfolding some_open
  keeps_served a c p h k = ground (
    arith,
    open_syncs-poll_account a c p,
    is_due-cong a now (poll_account new_id now run_at c p).backoff p.backoff
        (due_at-poll_account a c p h),
    has_pending_or_running_sync_lem p.table a,
    has_pending_or_running_sync_lem (poll_account new_id now run_at c p).table a,
  )

  served-poll_loop :
      (a : Text) (cs : List ActiveAccount) (p : Poll)
      → (is_served a p || any (λ c. text_eq c.id a) cs) ≡ true
      → is_served a (poll_loop new_id now run_at cs p) ≡ true
  unfolding poll_loop
  served-poll_loop a [] p h = ground (arith, h)
  served-poll_loop a (c ∷ cs) p h = ground (
    arith,
    served-poll_loop a cs (poll_account new_id now run_at c p),
    serves a c p,
    keeps_served a c p,
  )

  -- After a pass each account that it went through is either not due or has a pending or running
  -- sync job.
  pub poll_tick_serves :
      (account_id : Text) (accounts : List ActiveAccount) (table : List Job) (backoff : Backoff)
      → any (λ c. text_eq c.id account_id) accounts ≡ true
      → (not (is_due (poll_tick new_id now run_at accounts table backoff).backoff account_id now)
          || has_pending_or_running_sync
              (poll_tick new_id now run_at accounts table backoff).table
              account_id)
        ≡ true
  unfolding poll_tick
  poll_tick_serves a cs table b h =
      let p : Poll = record { table = table; backoff = b; enqueued = 0 } in
      served-poll_loop a cs p (ground (arith, h))

  -- A pass removes no account's pending or running sync job, and opens one only where there is
  -- none: an account with none or one before has at most one after, even if it is listed twice.
  pub poll_tick_opens_one :
      (account_id : Text) (accounts : List ActiveAccount) (table : List Job) (backoff : Backoff)
      → (open_syncs account_id table
          ≤ open_syncs account_id (poll_tick new_id now run_at accounts table backoff).table)
        × (open_syncs account_id (poll_tick new_id now run_at accounts table backoff).table
            ≤ max 1 (open_syncs account_id table))
  unfolding poll_tick
  poll_tick_opens_one a cs table b =
      open_syncs-poll_loop a cs (record { table = table; backoff = b; enqueued = 0 })
