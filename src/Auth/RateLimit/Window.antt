-- ===== src/Auth/RateLimit/Window.antt =====
-- Failures fill a fixed window: it opens at the first, no later one prolongs it, and the limit
-- holds exactly from the fifth failure to the window's end.
use lyra.Prelude.{
  ℕ, suc, ◌+◌, ◌≤◌, ◌<◌, ◌≡◌, Option, none, some, List, [], ◌∷◌, Text, text_eq_refl, arith, ◌&&◌,
  inl, inr, Bool-cases, length, leb, ltb, if◌then◌else◌,
}
use lyra.Prelude.Int.{pos, i64_max, saturating_add_pos}
use lyra.Prelude.Decimal.{show_i64, parse_i64-show_i64}
use lyra.Prelude.Result.{ok, err}
use lyra.Kv.{KvStore, KvLaws, from_secs}
use lyra.Auth.{too_many_requests, rate_limit_window_secs}
use lyra.Auth.RateLimit.{attempts_of, ensure_not_rate_limited, note_failed_attempt}

-- The number of failures that a reader finds.
abbrev count_text : ℕ → Option Text
count_text n = some (show_i64 (pos n))

-- The moments do not go back, and lie before `until`.
abbrev pub Within : ℕ → ℕ → List ℕ → Type 0
Within from until [] = Unit
Within from until (t ∷ ts) = (from ≤ t) × (t < until) × Within t until ts

abbrev pub last : ℕ → List ℕ → ℕ
last t [] = t
last t (u ∷ ts) = last u ts

module _ (kv : KvStore) (laws : KvLaws kv) (key op : Text) where
  open kv use {Store}
  open laws use {peek}

  -- Failed attempts at the listed moments, in order.
  pub fail_at : List ℕ → Store → Store
  fail_at [] s = s
  fail_at (t ∷ ts) s = fail_at ts (note_failed_attempt kv t key op s).1

  -- `n` failures are counted until `until`, and nothing after it.
  pub record Counts (from until n : ℕ) (s : Store) : Type 0 where
    pub open_now : (t : ℕ) → from ≤ t → t < until → peek s t key ≡ count_text n
    pub shut : (t : ℕ) → until ≤ t → peek s t key ≡ none

  pub first_failure :
      (t : ℕ) (s : Store)
      → peek s t key ≡ none
      → Counts t (t + from_secs rate_limit_window_secs) 1 (note_failed_attempt kv t key op s).1
  unfolding note_failed_attempt
  first_failure t s h = record {
    open_now = λ u p q. ground (
      arith,
      text_eq_refl key,
      laws.incr_fresh t key (pos 1) (some rate_limit_window_secs) s h,
      laws.incr_fresh_peek t u key (pos 1) (some rate_limit_window_secs) key s p h,
    );
    shut = λ u p. ground (
      arith,
      text_eq_refl key,
      laws.incr_fresh t key (pos 1) (some rate_limit_window_secs) s h,
      laws.incr_fresh_peek t u key (pos 1) (some rate_limit_window_secs) key s (omega arith) h,
    );
  }

  pub next_failure :
      (from until n t : ℕ) (s : Store)
      → Counts from until n s
      → from ≤ t
      → t < until
      → n + 1 ≤ i64_max
      → Counts t until (n + 1) (note_failed_attempt kv t key op s).1
  unfolding note_failed_attempt
  next_failure from until n t s c p q h =
      let found = c.open_now t p q in
      let parsed = parse_i64-show_i64 (pos n) (omega arith) in
      record {
        open_now = λ u r v. ground (
          arith,
          text_eq_refl key,
          saturating_add_pos n 1 h,
          laws.incr_next t key (pos 1) (some rate_limit_window_secs) s _ (pos n) found parsed,
          laws.incr_next_peek t u key (pos 1) (some rate_limit_window_secs) key s _ (pos n) r found
              parsed,
          c.open_now u (omega arith) v,
        );
        shut = λ u r. ground (
          arith,
          text_eq_refl key,
          laws.incr_next t key (pos 1) (some rate_limit_window_secs) s _ (pos n) found parsed,
          laws.incr_next_peek t u key (pos 1) (some rate_limit_window_secs) key s _ (pos n)
              (omega arith) found parsed,
          c.shut u r,
        );
      }

  fail_at-Counts :
      (from until n : ℕ) (ts : List ℕ) (s : Store)
      → Counts from until n s
      → Within from until ts
      → n + length ts ≤ i64_max
      → Counts (last from ts) until (n + length ts) (fail_at ts s)
  unfolding fail_at
  fail_at-Counts from until n [] s c w h = let e : n ≡ n + 0 = omega arith in rw (← e) c
  fail_at-Counts from until n (t ∷ ts) s c w h =
      let e : n + suc (length ts) ≡ n + 1 + length ts = omega arith in
      rw e (
        fail_at-Counts t until (n + 1) ts (note_failed_attempt kv t key op s).1
          (next_failure from until n t s c w.0 w.1 (omega arith)) w.2 (omega arith))

  pub ensure_fresh :
      (u : ℕ) (s : Store) → peek s u key ≡ none → (ensure_not_rate_limited kv u key op s).0 ≡ ok tt
  unfolding ensure_not_rate_limited attempts_of
  ensure_fresh u s h = ground (arith, laws.get_result u key s, h)

  pub ensure_lem :
      (from until n u : ℕ) (s : Store)
      → Counts from until n s
      → from ≤ u
      → n ≤ i64_max
      → (ensure_not_rate_limited kv u key op s).0
        ≡ (if leb 5 n && ltb u until then err too_many_requests else ok tt)
  unfolding ensure_not_rate_limited attempts_of
  ensure_lem from until n u s c p h = elim (Bool-cases (ltb u until)) [
    | inl before ↦ ground (
      arith,
      laws.get_result u key s,
      c.open_now u p (ground arith),
      parse_i64-show_i64 (pos n) h,
    )
    | inr after ↦ ground (arith, laws.get_result u key s, c.shut u (ground arith))
  ]

  -- From a key with no live counter, after a first failure at `start` and further ones at `ts` within
  -- 15 minutes of it, a check at any later moment refuses exactly when at least five failures were
  -- recorded and the 15 minutes are not over.
  pub rate_limit_window :
      (start u : ℕ) (ts : List ℕ) (s : Store)
      → peek s start key ≡ none
      → Within start (start + from_secs rate_limit_window_secs) ts
      → last start ts ≤ u
      → length ts < i64_max
      → (ensure_not_rate_limited kv u key op (fail_at (start ∷ ts) s)).0 ≡ (
          if leb 5 (length ts + 1) && ltb u (start + from_secs rate_limit_window_secs)
          then err too_many_requests
          else ok tt)
  unfolding fail_at
  rate_limit_window start u ts s fresh w p h =
      let until = start + from_secs rate_limit_window_secs in
      let counts =
        fail_at-Counts start until 1 ts (note_failed_attempt kv start key op s).1
          (first_failure start s fresh) w (omega arith) in
      let e : length ts + 1 ≡ 1 + length ts = omega arith in
      rw e (ensure_lem (last start ts) until (1 + length ts) u _ counts p (omega arith))
