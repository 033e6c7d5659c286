-- ===== src/Netsec/Embedded.antt =====
-- IPv6 addresses that carry an IPv4 address inside.
use lyra.Prelude.{ℕ, ◌+◌, ◌-◌, ◌*◌, ◌≡◌, ap, arith}
use lyra.Netsec.{
  Ipv4Addr, Ipv6Addr, v4, v6, of_halves, from_bits, is_blocked_v4, is_blocked_v6, is_blocked_addr,
  to_ipv4, to_ipv4_mapped,
}
use lyra.Netsec.Ranges.{IsIpv4}

abbrev halves_hi : Ipv4Addr → ℕ
halves_hi ip = ip.a * 256 + ip.b

abbrev halves_lo : Ipv4Addr → ℕ
halves_lo ip = ip.c * 256 + ip.d

-- The ways to embed an address: ::ffff:a.b.c.d, ::a.b.c.d, 2002:ab:cd::/48 with any rest, and
-- 2001:0::/32 with any server and port and the address inverted.
pub data Embedding : Type 0 where
  mapped compatible : Embedding
  six_to_four : (s3 s4 s5 s6 s7 : ℕ) → Embedding
  teredo : (s2 s3 s4 s5 : ℕ) → Embedding

unfoldable pub embed : Embedding → Ipv4Addr → Ipv6Addr
embed mapped ip = record {
  s0 = 0;
  s1 = 0;
  s2 = 0;
  s3 = 0;
  s4 = 0;
  s5 = 65535;
  s6 = halves_hi ip;
  s7 = halves_lo ip;
}
embed compatible ip = record {
  s0 = 0;
  s1 = 0;
  s2 = 0;
  s3 = 0;
  s4 = 0;
  s5 = 0;
  s6 = halves_hi ip;
  s7 = halves_lo ip;
}
embed (six_to_four s3 s4 s5 s6 s7) ip = record {
  s0 = 8194;
  s1 = halves_hi ip;
  s2 = halves_lo ip;
  s3 = s3;
  s4 = s4;
  s5 = s5;
  s6 = s6;
  s7 = s7;
}
embed (teredo s2 s3 s4 s5) ip = record {
  s0 = 8193;
  s1 = 0;
  s2 = s2;
  s3 = s3;
  s4 = s4;
  s5 = s5;
  s6 = 65535 - halves_hi ip;
  s7 = 65535 - halves_lo ip;
}

abbrev octets : ℕ → ℕ → ℕ → ℕ → Ipv4Addr
octets a b c d = record { a = a; b = b; c = c; d = d }

of_octets :
    {a a' b b' c c' d d' : ℕ}
    → a ≡ a'
    → b ≡ b'
    → c ≡ c'
    → d ≡ d'
    → octets a b c d ≡ octets a' b' c' d'
of_octets p q r s = cc (p, q, r, s)

module _ (ip : Ipv4Addr) (w : IsIpv4 ip) where
  of_halves_lem : of_halves (halves_hi ip) (halves_lo ip) ≡ ip
  of_halves_lem =
      of_octets (omega (arith, w.a_lt, w.b_lt, w.c_lt, w.d_lt))
        (omega (arith, w.a_lt, w.b_lt, w.c_lt, w.d_lt))
        (omega (arith, w.a_lt, w.b_lt, w.c_lt, w.d_lt))
        (omega (arith, w.a_lt, w.b_lt, w.c_lt, w.d_lt))

  from_bits_lem :
      from_bits (4294967295 - ((65535 - halves_hi ip) * 65536 + (65535 - halves_lo ip))) ≡ ip
  from_bits_lem =
      of_octets (omega (arith, w.a_lt, w.b_lt, w.c_lt, w.d_lt))
        (omega (arith, w.a_lt, w.b_lt, w.c_lt, w.d_lt))
        (omega (arith, w.a_lt, w.b_lt, w.c_lt, w.d_lt))
        (omega (arith, w.a_lt, w.b_lt, w.c_lt, w.d_lt))

  -- An IPv6 address that embeds an IPv4 address with octets in range, as a mapped, compatible, 6to4
  -- or Teredo address, is blocked exactly if that address is.
  pub blocked-embed : (e : Embedding) → is_blocked_addr (v6 (embed e ip)) ≡ is_blocked_addr (v4 ip)
  unfolding is_blocked_addr is_blocked_v6 embed to_ipv4 to_ipv4_mapped
  blocked-embed mapped = ap is_blocked_v4 of_halves_lem
  blocked-embed compatible = ap is_blocked_v4 of_halves_lem
  blocked-embed (six_to_four s3 s4 s5 s6 s7) = ap is_blocked_v4 of_halves_lem
  blocked-embed (teredo s2 s3 s4 s5) = ap is_blocked_v4 from_bits_lem
