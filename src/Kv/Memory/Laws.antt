-- ===== src/Kv/Memory/Laws.antt =====
-- The in-memory store keeps the contract of the trait.
use lyra.Prelude.{
  ℕ, ◌≤◌, ◌≡◌, refl, Option, none, some, Text, text_eq, text_eq_iff, text_eq_refl, starts_with,
  arith, inl, inr, Option-cases, is_some, if◌then◌else◌,
}
use lyra.Prelude.Map
use lyra.Prelude.Map.{map_laws, get-insert, get-remove, get-retain}
use lyra.Prelude.Int.{ℤ, saturating_add}
use lyra.Prelude.Decimal.{show_i64, parse_i64}
use lyra.Prelude.Result.{ok, err}
use lyra.Kv.{internal, lives, KvLaws}
use lyra.Kv.Memory.{Entry, MemoryKv, is_expired, expiry, get, set, del, del_prefix, incr, memory_kv}

-- What a reader sees of an entry at a moment.
abbrev live : ℕ → Option Entry → Option Text
live now none = none
live now (some e) = if is_expired now e.expires_at then none else some e.value

peek : MemoryKv → ℕ → Text → Option Text
peek s now k = live now (Map.get s k)

live_expired :
    (now later : ℕ) (e : Option Entry) → now ≤ later → live now e ≡ none → live later e ≡ none
live_expired now later e h p = ground arith

live_same :
    (now later : ℕ) (e : Option Entry) (v w : Text)
    → live now e ≡ some v
    → live later e ≡ some w
    → v ≡ w
live_same now later e v w p q = ground arith

get_result : (now : ℕ) (k : Text) (s : MemoryKv) → (get now k s).0 ≡ ok (peek s now k)
unfolding get peek
get_result now k s = ground arith

get_peek :
    (now later : ℕ) (k j : Text) (s : MemoryKv)
    → now ≤ later
    → peek (get now k s).1 later j ≡ peek s later j
unfolding get peek
get_peek now later k j s h = ground (arith, get-remove s k j, text_eq_iff k j)

set_peek :
    (now later : ℕ) (k v : Text) (ttl : Option ℕ) (j : Text) (s : MemoryKv)
    → now ≤ later
    → peek (set now k v ttl s).1 later j
      ≡ (if text_eq k j then (if lives now ttl later then some v else none) else peek s later j)
unfolding set peek
set_peek now later k v ttl j s h = simp map_laws (ground arith)

del_peek :
    (now later : ℕ) (k j : Text) (s : MemoryKv)
    → now ≤ later
    → peek (del now k s).1 later j ≡ (if text_eq k j then none else peek s later j)
unfolding del peek
del_peek now later k j s h = simp map_laws (ground arith)

del_prefix_peek :
    (now later : ℕ) (p j : Text) (s : MemoryKv)
    → now ≤ later
    → peek (del_prefix now p s).1 later j ≡ (if starts_with j p then none else peek s later j)
unfolding del_prefix peek
del_prefix_peek now later p j s h = simp map_laws (ground arith)

module _ (now : ℕ) (k : Text) (d : ℤ) (ttl : Option ℕ) (s : MemoryKv) where
  incr_fresh : peek s now k ≡ none → (incr now k d ttl s).0 ≡ ok d
  unfolding incr peek
  incr_fresh p = ground (arith, get-remove s k k, text_eq_refl k)

  incr_fresh_peek :
      (later : ℕ) (j : Text)
      → now ≤ later
      → peek s now k ≡ none
      → peek (incr now k d ttl s).1 later j ≡ (
          if text_eq k j
          then (if lives now ttl later then some (show_i64 d) else none)
          else peek s later j)
  unfolding incr peek
  incr_fresh_peek later j h p = ground (
    arith,
    get-remove s k k,
    get-remove s k j,
    get-insert s k j (record { value = show_i64 d; expires_at = expiry now ttl }),
    get-insert (Map.remove s k) k j (record { value = show_i64 d; expires_at = expiry now ttl }),
    text_eq_refl k,
  )

  incr_next :
      (v : Text) (c : ℤ)
      → peek s now k ≡ some v
      → parse_i64 v ≡ some c
      → (incr now k d ttl s).0 ≡ ok (saturating_add c d)
  unfolding incr peek
  incr_next v c p q = ground arith

  incr_next_peek :
      (later : ℕ) (j v : Text) (c : ℤ)
      → now ≤ later
      → peek s now k ≡ some v
      → parse_i64 v ≡ some c
      → peek (incr now k d ttl s).1 later j ≡ (
          if text_eq k j
          then (if is_some (peek s later k) then some (show_i64 (saturating_add c d)) else none)
          else peek s later j)
  unfolding incr peek
  incr_next_peek later j v c h p q = elim (Option-cases (Map.get s k)) [
    | inl missing ↦ ground arith
    | inr (e, found) ↦ ground (
      arith,
      get-insert s k j
          (record { value = show_i64 (saturating_add c d); expires_at = e.expires_at }),
      text_eq_iff k j,
    )
  ]

  incr_bad :
      (v : Text)
      → peek s now k ≡ some v
      → parse_i64 v ≡ none
      → (incr now k d ttl s).0 ≡ err internal
  unfolding incr peek
  incr_bad v p q = ground arith

  incr_bad_peek :
      (later : ℕ) (j v : Text)
      → now ≤ later
      → peek s now k ≡ some v
      → parse_i64 v ≡ none
      → peek (incr now k d ttl s).1 later j ≡ peek s later j
  unfolding incr peek
  incr_bad_peek later j v h p q = ground arith

-- The store's operations are those of the contract: what can be read at each moment is what was
-- last written, until its time to live has passed.
pub memory-KvLaws : KvLaws memory_kv
unfolding set del del_prefix
memory-KvLaws = record {
  peek = peek;
  peek_expired = λ s now later k h p. unfold peek in live_expired now later (Map.get s k) h p;
  peek_same = λ s now later k v w p q. unfold peek in live_same now later (Map.get s k) v w p q;
  get_result = get_result;
  get_peek = get_peek;
  set_result = λ now k v ttl s. refl;
  set_peek = set_peek;
  del_result = λ now k s. refl;
  del_peek = del_peek;
  del_prefix_result = λ now p s. refl;
  del_prefix_peek = del_prefix_peek;
  incr_fresh = incr_fresh;
  incr_fresh_peek = λ now later k d ttl j s h p. incr_fresh_peek now k d ttl s later j h p;
  incr_next = incr_next;
  incr_next_peek =
      λ now later k d ttl j s v c h p q. incr_next_peek now k d ttl s later j v c h p q;
  incr_bad = incr_bad;
  incr_bad_peek = λ now later k d ttl j s v h p q. incr_bad_peek now k d ttl s later j v h p q;
}
