-- ===== src/Jobs/Claim.antt =====
-- Claims: a job is claimed at most once, whatever the rows that the workers selected before.
use lyra.Prelude.{
  ℕ, ◌≤◌, ◌<◌, ◌≡◌, ◌≢◌, refl, subst, false, Option, none, some, List, [], ◌∷◌, Text, arith, inl,
  inr, Bool-cases, Option-cases, ◌==◌,
}
use lyra.Jobs.{
  Job, ClaimedJob, InFlight, update_where, rows_affected, pending_with, set_running, is_busy,
  claim_rows,
}

-- The rows that a compare-and-set for this id can still take.
abbrev open_rows : Text → List Job → ℕ
open_rows id table = rows_affected (pending_with id) table

open_rows-set_running :
    (id other : Text) (stamp : ℕ) (table : List Job)
    → open_rows id (update_where (pending_with other) (set_running stamp) table)
      ≤ open_rows id table
open_rows-set_running id other stamp [] = omega arith
open_rows-set_running id other stamp (j ∷ t) =
    ground (arith, open_rows-set_running id other stamp t)

open_rows-set_running_self :
    (id : Text) (stamp : ℕ) (table : List Job)
    → open_rows id (update_where (pending_with id) (set_running stamp) table) ≡ 0
open_rows-set_running_self id stamp [] = refl
open_rows-set_running_self id stamp (j ∷ t) = ground (arith, open_rows-set_running_self id stamp t)

claim_rows_mono :
    (id : Text) (stamp : ℕ) (inflight : InFlight) (rows table : List Job)
    → open_rows id (claim_rows stamp inflight rows table).1 ≤ open_rows id table
unfolding claim_rows
claim_rows_mono id stamp inflight [] table = omega arith
claim_rows_mono id stamp inflight (row ∷ rows) table = ground (
  arith,
  claim_rows_mono id stamp inflight rows table,
  claim_rows_mono id stamp inflight rows
      (update_where (pending_with row.id) (set_running stamp) table),
  open_rows-set_running id row.id stamp table,
)

-- A claimed job was there to take, and is not any more; it is not of a busy account.
claim_rows_takes :
    (stamp : ℕ) (inflight : InFlight) (rows table : List Job) (c : ClaimedJob)
    → (claim_rows stamp inflight rows table).0 ≡ some c
    → (0 < open_rows c.id table)
      × (open_rows c.id (claim_rows stamp inflight rows table).1 ≡ 0)
      × (is_busy inflight c.payload ≡ false)
unfolding claim_rows
claim_rows_takes stamp inflight [] table c h = cc
claim_rows_takes stamp inflight (row ∷ rows) table c h =
    let updated = update_where (pending_with row.id) (set_running stamp) table in
    elim (Option-cases row.payload) [
      | inl bad ↦ ground (arith, claim_rows_takes stamp inflight rows table c)
      | inr (payload, good) ↦ elim (Bool-cases (is_busy inflight payload)) [
        | inl busy ↦ ground (arith, claim_rows_takes stamp inflight rows table c)
        | inr idle ↦ elim (Bool-cases (rows_affected (pending_with row.id) table == 1)) [
          | inl won ↦ ground (arith, open_rows-set_running_self row.id stamp table)
          | inr lost ↦ ground (
            arith,
            claim_rows_takes stamp inflight rows updated c,
            open_rows-set_running c.id row.id stamp table,
          )
        ]
      ]
    ]

-- One worker's call: what it selected, at some earlier moment, and the in-flight set that it saw.
pub record Attempt : Type 0 where
  pub stamp : ℕ
  pub inflight : InFlight
  pub rows : List Job

abbrev pub ids_of : Option ClaimedJob → List Text → List Text
ids_of none ids = ids
ids_of (some c) ids = c.id ∷ ids

-- The ids that a sequence of calls claims.
pub claim_all : List Attempt → List Job → List Text
claim_all [] table = []
claim_all (a ∷ calls) table =
    let (got, table') = claim_rows a.stamp a.inflight a.rows table in
    ids_of got (claim_all calls table')

abbrev pub IsAbsent : Text → List Text → Type 0
IsAbsent id [] = Unit
IsAbsent id (x ∷ xs) = (id ≢ x) × IsAbsent id xs

abbrev pub AreDistinct : List Text → Type 0
AreDistinct [] = Unit
AreDistinct (x ∷ xs) = IsAbsent x xs × AreDistinct xs

claim_all-IsAbsent :
    (id : Text) (calls : List Attempt) (table : List Job)
    → open_rows id table ≡ 0
    → IsAbsent id (claim_all calls table)
unfolding claim_all
claim_all-IsAbsent id [] table h = tt
claim_all-IsAbsent id (a ∷ calls) table h =
    let later = claim_rows a.stamp a.inflight a.rows table in
    let ih =
      claim_all-IsAbsent id calls later.1
        (omega (arith, claim_rows_mono id a.stamp a.inflight a.rows table)) in
    elim (Option-cases later.0) [
      | inl nothing ↦ rw nothing ih
      | inr (c, got) ↦ rw got (
        (λ e.
            let taken = claim_rows_takes a.stamp a.inflight a.rows table c got in
            absurd (omega (arith, taken.0, subst (λ i. open_rows i table ≡ 0) e h))),
        ih,
      )
    ]

-- Workers that claim one after the other, each from rows selected at any moment before, never claim
-- the same job twice.
pub claim_all-AreDistinct :
    (calls : List Attempt) (table : List Job) → AreDistinct (claim_all calls table)
unfolding claim_all
claim_all-AreDistinct [] table = tt
claim_all-AreDistinct (a ∷ calls) table =
    let later = claim_rows a.stamp a.inflight a.rows table in
    elim (Option-cases later.0) [
      | inl nothing ↦ rw nothing (claim_all-AreDistinct calls later.1)
      | inr (c, got) ↦ rw got (
        claim_all-IsAbsent c.id calls later.1
            (claim_rows_takes a.stamp a.inflight a.rows table c got).1,
        claim_all-AreDistinct calls later.1,
      )
    ]
