-- ===== src/Tests/NetsecRuns.antt =====
-- The address guard, run.
use lyra.Prelude.{codes, text_eq, ◌≡◌, refl, [], ◌∷◌, any, arith}
use lyra.Netsec.{
  Ipv4Addr, v4, v6, is_blocked_v4, is_blocked_v6, is_blocked_addr, is_special_v6, to_ipv4,
  to_ipv4_mapped, filter_public_addrs,
}
use lyra.Prelude.Result.{ok, err}
use lyra.Netsec.{to_ascii_lowercase, normalize_security_mode}
use lyra.Netsec.Ranges.{IsIpv4, blocked_networks, contains_addr, to_bits, blocked_networks_lem}
use lyra.Netsec.Embedded.{mapped, six_to_four, teredo, embed, blocked-embed}

unfoldable netsec_run : Unit {0}
unfolding is_blocked_v4 is_blocked_v6 is_blocked_addr is_special_v6 to_ipv4 to_ipv4_mapped
    filter_public_addrs embed
netsec_run = tt

abbrev metadata : Ipv4Addr
metadata = record { a = 169; b = 254; c = 169; d = 254 }

abbrev dns : Ipv4Addr
dns = record { a = 8; b = 8; c = 8; d = 8 }

abbrev loopback : Ipv4Addr
loopback = record { a = 127; b = 0; c = 0; d = 1 }

-- The addresses of the unit tests: the public one passes, plain or inside Teredo.
kept :
    filter_public_addrs (
      v4 metadata
      ∷ v4 dns
      ∷ v6 (embed mapped loopback)
      ∷ v6 (embed (six_to_four 0 0 0 0 1) loopback)
      ∷ v6 (embed (teredo 0 0 0 0) loopback)
      ∷ v6 (embed (teredo 1 2 3 4) dns)
      ∷ [])
    ≡ v4 dns ∷ v6 (embed (teredo 1 2 3 4) dns) ∷ []
unfolding netsec_run
kept = refl

metadata-IsIpv4 : IsIpv4 metadata
metadata-IsIpv4 = record {
  a_lt = omega arith;
  b_lt = omega arith;
  c_lt = omega arith;
  d_lt = omega arith;
}

blocked_networks_lem_example :
    is_blocked_addr (v4 metadata) ≡ any (contains_addr (to_bits metadata)) blocked_networks
blocked_networks_lem_example = blocked_networks_lem metadata metadata-IsIpv4

blocked-embed_example :
    is_blocked_addr (v6 (embed (teredo 1 2 3 4) metadata)) ≡ is_blocked_addr (v4 metadata)
blocked-embed_example = blocked-embed metadata metadata-IsIpv4 (teredo 1 2 3 4)

modes :
    (normalize_security_mode (codes "StartTLS") ≡ ok (codes "starttls"))
    × (normalize_security_mode (codes "None") ≡ err (codes "none"))
unfolding normalize_security_mode to_ascii_lowercase text_eq
modes = (refl, refl)

tls : normalize_security_mode (codes "TLS") ≡ ok (codes "tls")
unfolding normalize_security_mode to_ascii_lowercase text_eq
tls = refl
