-- ===== src/Sync/Imap/Pass/Chunks.antt =====
-- The chunks in which new UIDs are fetched (backend/src/sync/imap_loop.rs).
use lyra.Prelude.{
  ℕ, zero, suc, ◌<◌, ◌≤◌, ◌≡◌, ◌⊎◌, inl, inr, length, refl, Bool, true, ◌||◌, List, [], ◌∷◌, any,
  All, arith, ◌==◌,
}
use lyra.Prelude.Result.{ok}
use lyra.Sync.{ImapMessage}
use lyra.Sync.Rows.Laws.{listed}
use lyra.Sync.Imap.{Replies, push_first, chunks_from, chunks}

-- Whether a UID is in one of the chunks.
abbrev pub pending : ℕ → List (List ℕ) → Bool
pending uid rest = any (λ chunk. listed uid chunk) rest

pending-push_first :
    (uid x : ℕ) (rest : List (List ℕ))
    → pending uid (push_first x rest) ≡ (x == uid || pending uid rest)
unfolding push_first
pending-push_first uid x [] = ground arith
pending-push_first uid x (c ∷ rest) = ground arith

pending-chunks_from :
    (uid size left : ℕ) (uids : List ℕ) → pending uid (chunks_from size left uids) ≡ listed uid uids
unfolding chunks_from
pending-chunks_from uid size left [] = refl
pending-chunks_from uid size zero (x ∷ uids) =
    ground (arith, pending-chunks_from uid size size uids)
pending-chunks_from uid size (suc left) (x ∷ uids) = ground (
  arith,
  pending-push_first uid x (chunks_from size left uids),
  pending-chunks_from uid size left uids,
)

-- The chunks hold the UIDs that they were made of.
pub pending-chunks : (uid : ℕ) (uids : List ℕ) → pending uid (chunks uids) ≡ listed uid uids
unfolding chunks
pending-chunks uid uids = pending-chunks_from uid 7 7 uids

abbrev pub Ascending : List ℕ → Type 0
Ascending [] = Unit
Ascending (x ∷ uids) = All (λ y. x < y) uids × Ascending uids

-- Each chunk lies below those that follow it.
abbrev pub Ordered : List (List ℕ) → Type 0
Ordered [] = Unit
Ordered (chunk ∷ rest) =
    ((u v : ℕ) → listed u chunk ≡ true → pending v rest ≡ true → u < v) × Ordered rest

lt_of_listed : (x v : ℕ) (uids : List ℕ) → All (λ y. x < y) uids → listed v uids ≡ true → x < v
lt_of_listed x v [] h k = absurd (let impossible : ⊥ = cc in impossible)
lt_of_listed x v (y ∷ uids) (lt, h) k = ground (arith, lt_of_listed x v uids h)

Ordered-push_first :
    (x : ℕ) (rest : List (List ℕ))
    → ((v : ℕ) → pending v rest ≡ true → x < v)
    → Ordered rest
    → Ordered (push_first x rest)
unfolding push_first
Ordered-push_first x [] h o = (λ u v k l. absurd (let impossible : ⊥ = cc (l) in impossible), tt)
Ordered-push_first x (c ∷ rest) h (below, o) = (λ u v k l. ground (arith, k, l, h v, below u v), o)

Ordered-chunks_from :
    (size left : ℕ) (uids : List ℕ) → Ascending uids → Ordered (chunks_from size left uids)
unfolding chunks_from
Ordered-chunks_from size left [] h = tt
Ordered-chunks_from size zero (x ∷ uids) (lt, h) = (
  λ u v k l. ground (arith, k, l, pending-chunks_from v size size uids, lt_of_listed x v uids lt),
  Ordered-chunks_from size size uids h,
)
Ordered-chunks_from size (suc left) (x ∷ uids) (lt, h) =
    Ordered-push_first x (chunks_from size left uids)
      (λ v k. ground (arith, k, pending-chunks_from v size left uids, lt_of_listed x v uids lt))
      (Ordered-chunks_from size left uids h)

pub Ordered-chunks : (uids : List ℕ) → Ascending uids → Ordered (chunks uids)
unfolding chunks
Ordered-chunks uids h = Ordered-chunks_from 7 7 uids h

-- No more UIDs than a chunk takes make at most one.
chunks_from_short :
    (size left : ℕ) (uids : List ℕ)
    → length uids ≤ suc left
    → (chunks_from size left uids ≡ []) ⊎ ((c : List ℕ) × (chunks_from size left uids ≡ c ∷ []))
unfolding chunks_from push_first
chunks_from_short size left [] h = inl refl
chunks_from_short size zero (x ∷ []) h = inr (x ∷ [], refl)
chunks_from_short size zero (x ∷ y ∷ uids) h =
    absurd (let impossible : ⊥ = omega (arith, h) in impossible)
chunks_from_short size (suc left) (x ∷ uids) h =
    elim (chunks_from_short size left uids (omega (arith, h))) [
      | inl nothing ↦ inr (x ∷ [], rw nothing refl)
      | inr (c, one) ↦ inr (x ∷ c, rw one refl)
    ]

pub Ordered-few : (uids : List ℕ) → length uids ≤ 8 → Ordered (chunks uids)
unfolding chunks
Ordered-few uids h = elim (chunks_from_short 7 7 uids (omega (arith, h))) [
  | inl nothing ↦ rw nothing tt
  | inr (c, one) ↦ rw one (λ u v k l. absurd (let impossible : ⊥ = cc (l) in impossible), tt)
]

-- UIDs that a pass cannot lose: at most eight, in any order; or in ascending order; or, in any order,
-- such that the fetch of each chunk succeeds.
abbrev pub Suits : Replies → List ℕ → Type 0
Suits r new_uids =
    (length new_uids ≤ 8)
    ⊎ (Ascending new_uids
        ⊎ All (λ chunk. (msgs : List ImapMessage) × (r.fetch_metadata chunk ≡ ok msgs))
            (chunks new_uids))
