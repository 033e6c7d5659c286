-- ===== src/Jobs/Worker/Exclusive.antt =====
-- Interleaved workers: at no time do two syncs of one account run.
use lyra.Prelude.{
  ℕ, ◌≡◌, ◌≢◌, refl, sym, ap, ◌∙◌, subst, true, false, List, [], ◌∷◌, Text, text_eq, text_eq_iff,
  text_eq_refl, contains, arith, inl, inr, Bool-cases, if◌then◌else◌,
}
use lyra.Prelude.Result.{Result, ok, err}
use lyra.Jobs.{InFlight, try_begin, finish}
use lyra.Jobs.Claim.{IsAbsent, AreDistinct}
use lyra.Jobs.Worker.{World, begin_sync, end_sync}
use lyra.Jobs.Worker.Errors.{SyncError}

-- The world, and the accounts whose syncs run, one entry for each run.
pub record System : Type 0 where
  pub world : World
  pub syncs : List Text

-- One run of this account less.
abbrev pub without : Text → List Text → List Text
without a [] = []
without a (x ∷ xs) = if text_eq x a then xs else x ∷ without a xs

-- A worker begins a sync job, goes away because its account is in flight, or ends a sync that runs.
pub data Step (s t : System) : Type 0 where
  begun :
      (job_id account : Text) (now : ℕ)
      → begin_sync job_id account now s.world ≡ (true, t.world)
      → t.syncs ≡ account ∷ s.syncs
      → Step s t
  refused :
      (job_id account : Text) (now : ℕ)
      → begin_sync job_id account now s.world ≡ (false, t.world)
      → t.syncs ≡ s.syncs
      → Step s t
  ended :
      (detail : SyncError → Text) (job_id account : Text) (r : Result SyncError Unit) (now : ℕ)
      → contains s.syncs account ≡ true
      → t.world ≡ end_sync detail job_id account r now s.world
      → t.syncs ≡ without account s.syncs
      → Step s t

pub data Reach (s : System) : System → Type 0 where
  here : Reach s s
  next : {t u : System} → Reach s t → Step t u → Reach s u

-- Every run is in flight.
abbrev AllIn : InFlight → List Text → Type 0
AllIn accounts [] = Unit
AllIn accounts (x ∷ xs) = (contains accounts x ≡ true) × AllIn accounts xs

pub record IsExclusive (s : System) : Type 0 where
  pub distinct : AreDistinct s.syncs
  pub in_flight : AllIn s.world.inflight s.syncs

contains-finish :
    (a b : Text) (l : InFlight) → text_eq b a ≡ false → contains (finish a l) b ≡ contains l b
unfolding finish contains
contains-finish a b [] h = refl
contains-finish a b (x ∷ l) h =
    ground (arith, contains-finish a b l h, text_eq_iff x a, text_eq_iff x b, text_eq_iff b a)

IsAbsent-of_not_in :
    (a : Text) (accounts : InFlight) (xs : List Text)
    → contains accounts a ≡ false
    → AllIn accounts xs
    → IsAbsent a xs
IsAbsent-of_not_in a accounts [] h k = tt
IsAbsent-of_not_in a accounts (x ∷ xs) h k = (
  (λ e. cc (subst (λ b. contains accounts b ≡ false) e h, k.0)),
  IsAbsent-of_not_in a accounts xs h k.1,
)

AllIn-cons :
    (a : Text) (accounts : InFlight) (xs : List Text) → AllIn accounts xs → AllIn (a ∷ accounts) xs
unfolding contains
AllIn-cons a accounts [] h = tt
AllIn-cons a accounts (x ∷ xs) h = (ground arith, AllIn-cons a accounts xs h.1)

IsAbsent-without : (b a : Text) (xs : List Text) → IsAbsent b xs → IsAbsent b (without a xs)
IsAbsent-without b a [] h = tt
IsAbsent-without b a (x ∷ xs) h = elim (Bool-cases (text_eq x a)) [
  | inl same ↦ rw same h.1
  | inr other ↦ rw other (h.0, IsAbsent-without b a xs h.1)
]

AreDistinct-without : (a : Text) (xs : List Text) → AreDistinct xs → AreDistinct (without a xs)
AreDistinct-without a [] h = tt
AreDistinct-without a (x ∷ xs) h = elim (Bool-cases (text_eq x a)) [
  | inl same ↦ rw same h.1
  | inr other ↦ rw other (IsAbsent-without x a xs h.0, AreDistinct-without a xs h.1)
]

ne_text_eq : (a x : Text) → a ≢ x → text_eq x a ≡ false
ne_text_eq a x h = elim (Bool-cases (text_eq x a)) [
  | inl same ↦ absurd (h (sym ((text_eq_iff x a).0 same)))
  | inr other ↦ other
]

AllIn-finish_absent :
    (a : Text) (l : InFlight) (xs : List Text) → IsAbsent a xs → AllIn l xs → AllIn (finish a l) xs
AllIn-finish_absent a l [] h k = tt
AllIn-finish_absent a l (x ∷ xs) h k =
    (rw (contains-finish a x l (ne_text_eq a x h.0)) k.0, AllIn-finish_absent a l xs h.1 k.1)

AllIn-finish :
    (a : Text) (l : InFlight) (xs : List Text)
    → AreDistinct xs
    → AllIn l xs
    → AllIn (finish a l) (without a xs)
AllIn-finish a l [] h k = tt
AllIn-finish a l (x ∷ xs) h k = elim (Bool-cases (text_eq x a)) [
  | inl same ↦
      let e = (text_eq_iff x a).0 same in
      rw same (AllIn-finish_absent a l xs (subst (λ b. IsAbsent b xs) e h.0) k.1)
  | inr other ↦ rw other (rw (contains-finish a x l other) k.0, AllIn-finish a l xs h.1 k.1)
]

inflight-end_sync :
    (detail : SyncError → Text) (job_id account : Text) (r : Result SyncError Unit) (now : ℕ)
    (w : World)
    → (end_sync detail job_id account r now w).inflight ≡ finish account w.inflight
unfolding end_sync
inflight-end_sync detail job_id account (ok _) now w = refl
inflight-end_sync detail job_id account (err e) now w = refl

begin_sync_begun :
    (job_id account : Text) (now : ℕ) (w v : World)
    → begin_sync job_id account now w ≡ (true, v)
    → (contains w.inflight account ≡ false) × (v.inflight ≡ account ∷ w.inflight)
unfolding begin_sync try_begin
begin_sync_begun job_id account now w v h = ground arith

begin_sync_refused :
    (job_id account : Text) (now : ℕ) (w v : World)
    → begin_sync job_id account now w ≡ (false, v)
    → v.inflight ≡ w.inflight
unfolding begin_sync try_begin
begin_sync_refused job_id account now w v h = ground arith

Step-IsExclusive : {s t : System} → Step s t → IsExclusive s → IsExclusive t
Step-IsExclusive {s} {t} (begun job_id account now e f) h =
    let (new, grown) = begin_sync_begun job_id account now s.world t.world e in
    record {
      distinct =
          rw f (IsAbsent-of_not_in account s.world.inflight s.syncs new h.in_flight, h.distinct);
      in_flight = rw f (
        rw grown contains_self,
        subst (λ l. AllIn l s.syncs) (sym grown)
            (AllIn-cons account s.world.inflight s.syncs h.in_flight),
      );
    }
  where
    contains_self : contains (account ∷ s.world.inflight) account ≡ true
    contains_self = unfold contains in rw (text_eq_refl account)
Step-IsExclusive {s} {t} (refused job_id account now e f) h =
    let same = begin_sync_refused job_id account now s.world t.world e in
    record {
      distinct = rw f h.distinct;
      in_flight = rw f (subst (λ l. AllIn l s.syncs) (sym same) h.in_flight);
    }
Step-IsExclusive {s} {t} (ended detail job_id account r now there e f) h = record {
  distinct = rw f (AreDistinct-without account s.syncs h.distinct);
  in_flight = rw f (
      subst (λ l. AllIn l (without account s.syncs))
        (sym (
          ap (λ (v : World). v.inflight) e ∙ inflight-end_sync detail job_id account r now s.world))
        (AllIn-finish account s.world.inflight s.syncs h.distinct h.in_flight));
}

Reach-IsExclusive : {s t : System} → IsExclusive s → Reach s t → IsExclusive t
Reach-IsExclusive h here = h
Reach-IsExclusive h (next r st) = Step-IsExclusive st (Reach-IsExclusive h r)

-- From a system with no running sync, however the workers' steps interleave, the running syncs are
-- always of different accounts, and each of these accounts is in the in-flight set.
pub one_sync_per_account :
    (w : World) (t : System) → Reach (record { world = w; syncs = [] }) t → IsExclusive t
one_sync_per_account w t r = Reach-IsExclusive (record { distinct = tt; in_flight = tt }) r
