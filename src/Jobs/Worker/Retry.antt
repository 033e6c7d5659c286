-- ===== src/Jobs/Worker/Retry.antt =====
-- A send that fails for a passing reason is tried again, with growing delays, three times in all.
use lyra.Prelude.{
  ℕ, zero, suc, ◌+◌, ◌≡◌, refl, ap, subst, ◌∙◌, codes, any, take, length, starts_with, inl, inr,
  Bool-cases, Option-cases, Bool, true, false, ◌&&◌, ◌==◌, Option, none, some, List, [], ◌∷◌, Text,
  text_eq, text_eq_iff, text_eq_refl, arith, ltb, if◌then◌else◌,
}
use lyra.Jobs.{
  Job, Status, pending, failed, is_pending, update_where, mark_failed, reschedule_transient,
}
use lyra.Jobs.Worker.{
  find_job, is_transient, safe_category, retry_delay, smtp_transient_max_attempts, send_failed,
}

abbrev map_job : (Job → Job) → Option Job → Option Job
map_job f none = none
map_job f (some j) = some (f j)

-- An update of the rows of one id is read back, and no other id's row is touched.
pub find_job-update :
    (id other : Text) (f : Job → Job) (table : List Job)
    → ((j : Job) → (f j).id ≡ j.id)
    → find_job other (update_where (λ j. text_eq j.id id) f table)
      ≡ (if text_eq id other then map_job f (find_job other table) else find_job other table)
unfolding find_job
find_job-update id other f [] keeps = ground arith
find_job-update id other f (j ∷ t) keeps = ground (
  arith,
  keeps j,
  find_job-update id other f t keeps,
  text_eq_iff j.id id,
  text_eq_iff j.id other,
  text_eq_iff id other,
)

pub find_job-update_row :
    (id other : Text) (f : Job → Job) (table : List Job) (j : Job)
    → ((k : Job) → (f k).id ≡ k.id)
    → find_job id table ≡ some j
    → find_job other (update_where (λ k. text_eq k.id id) f table)
      ≡ (if text_eq id other then some (f j) else find_job other table)
find_job-update_row id other f table j keeps there = elim (Bool-cases (text_eq id other)) [
  | inl same ↦
      let e = (text_eq_iff id other).0 same in
      let there' = subst (λ i. find_job i table ≡ some j) e there in
      cc (find_job-update id other f table keeps, there')
  | inr other_id ↦ cc (find_job-update id other f table keeps, other_id)
]

-- The row that a failed send writes.
abbrev pub written : Text → ℕ → Job → Job
written category now j =
    if is_transient category && ltb (j.attempts + 1) smtp_transient_max_attempts
    then record j {
      status = pending;
      last_error = some category;
      attempts = j.attempts + 1;
      run_at = now + retry_delay j.attempts;
      updated_at = now;
    }
    else record j {
      status = failed;
      last_error = some (safe_category category);
      last_error_detail = none;
      attempts = j.attempts + 1;
      updated_at = now;
    }

pub find_job-written :
    (id other category : Text) (now : ℕ) (table : List Job) (j : Job)
    → find_job id table ≡ some j
    → find_job other (send_failed id category now table)
      ≡ (if text_eq id other then some (written category now j) else find_job other table)
unfolding send_failed reschedule_transient mark_failed
find_job-written id other category now table j there =
    elim (Bool-cases (is_transient category && ltb (j.attempts + 1) smtp_transient_max_attempts)) [
      | inl again ↦
          rw (there, again)
            (find_job-update_row id other
              (λ k. record k {
                status = pending;
                last_error = some category;
                attempts = k.attempts + 1;
                run_at = now + retry_delay j.attempts;
                updated_at = now;
              })
              table j (λ _. refl) there)
      | inr over ↦
          rw (there, over)
            (find_job-update_row id other
              (λ k. record k {
                status = failed;
                last_error = some (safe_category category);
                last_error_detail = none;
                attempts = k.attempts + 1;
                updated_at = now;
              })
              table j (λ _. refl) there)
    ]

-- The seconds before the second and before the third attempt; there is no fourth.
abbrev pub next_delay : ℕ → Option ℕ
next_delay zero = some 30
next_delay (suc zero) = some 60
next_delay (suc (suc n)) = none

abbrev pub passing_failures : List Text
passing_failures = codes "SMTP transient" ∷ codes "JMAP transient" ∷ []

-- What a user is shown of a failure for good.
abbrev pub shown : Text → Text
shown category =
    if any (text_eq (take 5 category)) (codes "SMTP " ∷ codes "JMAP " ∷ [])
    then category
    else codes "send error"

abbrev pub put_back : Text → ℕ → Job → Option ℕ → Job
put_back category now j (some seconds) = record j {
  status = pending;
  last_error = some category;
  attempts = j.attempts + 1;
  run_at = now + seconds;
  updated_at = now;
}
put_back category now j none = record j {
  status = failed;
  last_error = some (shown category);
  last_error_detail = none;
  attempts = j.attempts + 1;
  updated_at = now;
}

-- The row of a job after a failed send.
abbrev pub after_failure : Text → ℕ → Job → Job
after_failure category now j =
    put_back category now j
      (if any (text_eq category) passing_failures then next_delay j.attempts else none)

starts_with-take :
    (t prefix : Text) → starts_with t prefix ≡ text_eq (take (length prefix) t) prefix
unfolding starts_with text_eq
starts_with-take t [] = refl
starts_with-take [] (d ∷ prefix) = refl
starts_with-take (c ∷ t) (d ∷ prefix) = ap (λ rest. c == d && rest) (starts_with-take t prefix)

safe_category-shown : (category : Text) → safe_category category ≡ shown category
safe_category-shown category =
    rw (starts_with-take category (codes "SMTP "), starts_with-take category (codes "JMAP "))
      (ground arith)

delay_lem :
    (n : ℕ)
    → next_delay n
      ≡ (if ltb (n + 1) smtp_transient_max_attempts then some (retry_delay n) else none)
delay_lem zero = refl
delay_lem (suc zero) = refl
delay_lem (suc (suc n)) = ground arith

written-after_failure :
    (category : Text) (now : ℕ) (j : Job) → written category now j ≡ after_failure category now j
written-after_failure category now j = elim (Bool-cases (is_transient category)) [
  | inl passing ↦
      let listed : any (text_eq category) passing_failures ≡ true = ground (arith, passing) in
      rw (listed, passing, delay_lem j.attempts)
        (elim (Bool-cases (ltb (j.attempts + 1) smtp_transient_max_attempts)) [
          | inl again ↦ rw again refl
          | inr over ↦ rw (over, safe_category-shown category) refl
        ])
  | inr lasting ↦
      let unlisted : any (text_eq category) passing_failures ≡ false = ground (arith, lasting) in
      rw (unlisted, lasting, safe_category-shown category) refl
]

-- A failed send of a job in the table puts it back if the failure is transient, after the first
-- attempt with a delay of 30 s and after the second with one of 60 s. After a third, or if the failure
-- is not transient, it fails for good, with the failure's category if that is SMTP's or JMAP's and as
-- a send error if not. Either way its attempts grow by one, and no row of another id changes.
pub find_job-send_failed :
    (id other category : Text) (now : ℕ) (table : List Job) (j : Job)
    → find_job id table ≡ some j
    → find_job other (send_failed id category now table)
      ≡ (if text_eq id other then some (after_failure category now j) else find_job other table)
find_job-send_failed id other category now table j there =
    find_job-written id other category now table j there
    ∙ ap (λ r. if text_eq id other then some r else find_job other table)
        (written-after_failure category now j)

-- The state and the attempts of a row.
abbrev pub progress : Option Job → Option (Status × ℕ)
progress none = none
progress (some j) = some (j.status, j.attempts)

abbrev pub is_open : Option Job → Bool
is_open none = false
is_open (some j) = is_pending j.status

-- The table after sends that all fail in the same way, at the listed moments, while the job is open.
pub resend : Text → Text → List ℕ → List Job → List Job
resend id category [] table = table
resend id category (now ∷ ts) table =
    let again = send_failed id category now table in
    resend id category ts (if is_open (find_job id table) then again else table)

progress-send_failed :
    (id category : Text) (now a : ℕ) (table : List Job)
    → progress (find_job id table) ≡ some (pending, a)
    → progress (find_job id (send_failed id category now table))
      ≡ some (
          if is_transient category && ltb (a + 1) smtp_transient_max_attempts
          then (pending, a + 1)
          else (failed, a + 1))
progress-send_failed id category now a table h = elim (Option-cases (find_job id table)) [
  | inl missing ↦ ground arith
  | inr (j, there) ↦
      ground (arith, find_job-written id id category now table j there, text_eq_refl id)
]

resend_stays :
    (id category : Text) (a : ℕ) (ts : List ℕ) (table : List Job)
    → progress (find_job id table) ≡ some (failed, a)
    → progress (find_job id (resend id category ts table)) ≡ some (failed, a)
unfolding resend
resend_stays id category a [] table h = h
resend_stays id category a (now ∷ ts) table h =
    let idle : is_open (find_job id table) ≡ false = ground arith in
    rw idle (resend_stays id category a ts table h)

resend_goes :
    (id category : Text) (now a : ℕ) (ts : List ℕ) (table : List Job)
    → progress (find_job id table) ≡ some (pending, a)
    → resend id category (now ∷ ts) table
      ≡ resend id category ts (send_failed id category now table)
unfolding resend
resend_goes id category now a ts table h =
    let busy : is_open (find_job id table) ≡ true = ground arith in rw busy

-- A pending job without attempts, whose sends all fail in the same way, has failed for good after
-- three of them: with three attempts made if the failure is transient, and with one if it is not.
pub resend_gives_up :
    (id category : Text) (t1 t2 t3 : ℕ) (ts : List ℕ) (table : List Job)
    → progress (find_job id table) ≡ some (pending, 0)
    → progress (find_job id (resend id category (t1 ∷ t2 ∷ t3 ∷ ts) table))
      ≡ some (failed, if is_transient category then 3 else 1)
resend_gives_up id category t1 t2 t3 ts table h =
    let one = send_failed id category t1 table in
    let two = send_failed id category t2 one in
    let three = send_failed id category t3 two in
    let p1 = progress-send_failed id category t1 0 table h in
    let go1 = resend_goes id category t1 0 (t2 ∷ t3 ∷ ts) table h in
    elim (Bool-cases (is_transient category)) [
      | inl passing ↦
          let q1 : progress (find_job id one) ≡ some (pending, 1) = ground arith in
          let p2 = progress-send_failed id category t2 1 one q1 in
          let q2 : progress (find_job id two) ≡ some (pending, 2) = ground arith in
          let p3 = progress-send_failed id category t3 2 two q2 in
          let q3 : progress (find_job id three) ≡ some (failed, 3) = ground arith in
          ground (
            arith,
            go1,
            resend_goes id category t2 1 (t3 ∷ ts) one q1,
            resend_goes id category t3 2 ts two q2,
            resend_stays id category 3 ts three q3,
          )
      | inr lasting ↦
          let q1 : progress (find_job id one) ≡ some (failed, 1) = ground arith in
          ground (arith, go1, resend_stays id category 1 (t2 ∷ t3 ∷ ts) one q1)
    ]
