-- ===== src/Tests/Open.antt =====
-- One name that opens what the runs compute with.
use lyra.Prelude.{text_eq, starts_with}
use lyra.Prelude.Map
use lyra.Prelude.Int.{saturating_add}
use lyra.Prelude.Decimal.{show_ℕ, show_i64, read_digits, parse_i64}
use lyra.Kv.Memory.{new, get, set, del, del_prefix, incr}

unfoldable pub kv_run : Unit {0}
unfolding text_eq starts_with Map.get Map.insert Map.remove Map.retain Map.empty saturating_add
    show_ℕ show_i64 read_digits parse_i64 new get set del del_prefix incr
kv_run = tt
