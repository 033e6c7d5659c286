-- ===== src/Push/Baseline.antt =====
-- What a diff of backend/src/push/diff.rs reports against its baseline.
use lyra.Prelude.{
  ◌≤◌, ◌≡◌, refl, ap, sym, Bool, true, not, List, [], ◌∷◌, ◌++◌, map, Text, text_eq_refl, contains,
  filter, all, length, length-take, arith,
}
use lyra.Push.{
  MessageResponse, DiffOutcome, Address, identity, diff_limit, candidate, incoming, is_fresh,
  diff_new_messages, is_incoming,
}

length-map {ℓ κ} :
    {A : Type ℓ} {B : Type κ} (f : A → B) (xs : List A) → length (map f xs) ≡ length xs
length-map f [] = refl
length-map f (x ∷ xs) = omega (arith, length-map f xs)

length-filter {ℓ} : {A : Type ℓ} (p : A → Bool) (xs : List A) → length (filter p xs) ≤ length xs
length-filter p [] = omega arith
length-filter p (x ∷ xs) = ground (arith, length-filter p xs)

-- A larger list still holds what a list holds.
all_weaker :
    (t : Text) (xs : List Text) (ms : List MessageResponse)
    → all (λ m. contains xs (identity m)) ms ≡ true
    → all (λ m. contains (t ∷ xs) (identity m)) ms ≡ true
unfolding contains
all_weaker t xs [] h = refl
all_weaker t xs (m ∷ ms) h = ground (arith, h, all_weaker t xs ms)

first_contained : (t : Text) (xs : List Text) → contains (t ∷ xs) t ≡ true
unfolding contains
first_contained t xs = ground (arith, text_eq_refl t)

all_contained :
    (ms : List MessageResponse) → all (λ m. contains (map identity ms) (identity m)) ms ≡ true
all_contained [] = refl
all_contained (m ∷ ms) = ground (
  arith,
  first_contained (identity m) (map identity ms),
  all_weaker (identity m) (map identity ms) ms (all_contained ms),
)

module _ (read : Text → Address) (muted_folders muted_threads : List Text) where
  abbrev pub diff : List MessageResponse → List Text → DiffOutcome
  diff messages baseline = diff_new_messages read messages baseline muted_folders muted_threads

  none_known :
      (baseline : List Text) (ms : List MessageResponse)
      → all
          (λ c. not (contains baseline c.identity))
          (map (candidate read) (filter (is_fresh read baseline muted_folders muted_threads) ms))
        ≡ true
  unfolding candidate is_fresh
  none_known baseline [] = refl
  none_known baseline (m ∷ ms) = ground (arith, none_known baseline ms)

  -- Nothing that the baseline holds is reported.
  pub fresh_not_known :
      (messages : List MessageResponse) (baseline : List Text)
      → all (λ c. not (contains baseline c.identity)) (diff messages baseline).fresh ≡ true
  unfolding diff_new_messages
  fresh_not_known messages [] = refl
  fresh_not_known messages (b ∷ bs) = none_known (b ∷ bs) (incoming read messages)

  none_left :
      (baseline : List Text) (ms : List MessageResponse)
      → all (λ m. contains baseline (identity m)) ms ≡ true
      → filter (is_fresh read baseline muted_folders muted_threads) ms ≡ []
  unfolding is_fresh
  none_left baseline [] h = refl
  none_left baseline (m ∷ ms) h = ground (arith, h, none_left baseline ms)

  new_baseline_lem :
      (messages : List MessageResponse) (baseline : List Text)
      → (diff messages baseline).new_baseline ≡ map identity (incoming read messages)
  unfolding diff_new_messages
  new_baseline_lem messages [] = refl
  new_baseline_lem messages (b ∷ bs) = refl

  nothing_fresh :
      (messages : List MessageResponse) (baseline : List Text)
      → all (λ m. contains baseline (identity m)) (incoming read messages) ≡ true
      → (diff messages baseline).fresh ≡ []
  unfolding diff_new_messages
  nothing_fresh messages [] h = refl
  nothing_fresh messages (b ∷ bs) h =
      ap (map (candidate read)) (none_left (b ∷ bs) (incoming read messages) h)

  -- The diff after a diff reports nothing that was in the window of the one before, whatever messages
  -- there are then, and the same messages give nothing.
  pub diff_again :
      (before after : List MessageResponse) (baseline : List Text)
      → (all
            (λ c. not (contains (map identity (incoming read before)) c.identity))
            (diff after (diff before baseline).new_baseline).fresh
          ≡ true)
        × ((diff before (diff before baseline).new_baseline).fresh ≡ [])
  diff_again before after baseline = (
    rw (sym (new_baseline_lem before baseline))
        (fresh_not_known after (diff before baseline).new_baseline),
    nothing_fresh before (diff before baseline).new_baseline
        (rw (new_baseline_lem before baseline) (all_contained (incoming read before))),
  )

  window_le :
      (messages : List MessageResponse)
      → length (map identity (incoming read messages)) ≤ diff_limit
  window_le messages = omega (
    arith,
    length-map identity (incoming read messages),
    length-take diff_limit (filter (λ m. is_incoming m.folder_role) messages),
  )

  -- A baseline never grows beyond 15 identities, and no more messages than that are reported.
  pub diff_bounds :
      (messages : List MessageResponse) (baseline : List Text)
      → (length (diff messages baseline).new_baseline ≤ diff_limit)
        × (length (diff messages baseline).fresh ≤ length (diff messages baseline).new_baseline)
  unfolding diff_new_messages
  diff_bounds messages [] = (omega (arith, window_le messages), omega arith)
  diff_bounds messages (b ∷ bs) =
      let fresh =
        filter (is_fresh read (b ∷ bs) muted_folders muted_threads) (incoming read messages) in
      (
        omega (arith, window_le messages),
        omega (
          arith,
          length-map (candidate read) fresh,
          length-map identity (incoming read messages),
          length-filter (is_fresh read (b ∷ bs) muted_folders muted_threads)
              (incoming read messages),
        ),
      )

  filter-append :
      (p : MessageResponse → Bool) (xs ys : List MessageResponse)
      → filter p (xs ++ ys) ≡ filter p xs ++ filter p ys
  filter-append p [] ys = refl
  filter-append p (x ∷ xs) ys = ground (arith, filter-append p xs ys)

  -- A message that moves up into the window of 15 because a newer one, `first`, left it is reported
  -- as new, however old it is, if it is not muted and no message of the window before had its
  -- identity.
  pub moved_up_is_fresh :
      (before after : List MessageResponse) (first : MessageResponse) (kept : List MessageResponse)
      (old : MessageResponse) (baseline : List Text)
      → incoming read before ≡ first ∷ kept
      → incoming read after ≡ kept ++ old ∷ []
      → is_fresh read (map identity (first ∷ kept)) muted_folders muted_threads old ≡ true
      → map (λ c. c.id) (diff after (diff before baseline).new_baseline).fresh ≡ old.id ∷ []
  unfolding diff_new_messages candidate
  moved_up_is_fresh before after first kept old baseline b a f =
      rw (new_baseline_lem before baseline, b)
        (rw a (
          rw
            (
              filter-append
                  (is_fresh read (map identity (first ∷ kept)) muted_folders muted_threads) kept
                  (old ∷ []),
              none_left (map identity (first ∷ kept)) kept
                  (all_weaker (identity first) (map identity kept) kept (all_contained kept)),
              f,
            )
            refl))
