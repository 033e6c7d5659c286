-- ===== src/Netsec/Ranges.antt =====
-- The IPv4 tests against the blocked networks in their usual notation.
use lyra.Prelude.{
  sym, refl, ◌∙◌, ℕ, ◌+◌, ◌-◌, ◌*◌, ◌/◌, ◌^◌, ◌<◌, ◌≡◌, Bool, true, false, ◌&&◌, ◌||◌, List, [],
  ◌∷◌, any, arith, leb, ◌==◌,
}
use lyra.Netsec.{Ipv4Addr, v4, is_blocked_v4, is_blocked_addr}

-- A network: the first of its addresses, and how many bits are not fixed.
pub record Network : Type 0 where
  pub first : ℕ
  pub free_bits : ℕ

abbrev net : ℕ → ℕ → ℕ → ℕ → ℕ → Network
net a b c d prefix = record {
  first = a * 2 ^ 24 + b * 2 ^ 16 + c * 2 ^ 8 + d;
  free_bits = 32 - prefix;
}

abbrev pub contains_addr : ℕ → Network → Bool
contains_addr n net = n / 2 ^ net.free_bits == net.first / 2 ^ net.free_bits

abbrev pub blocked_networks : List Network
blocked_networks =
    net 0 0 0 0 8
    ∷ net 10 0 0 0 8
    ∷ net 100 64 0 0 10
    ∷ net 127 0 0 0 8
    ∷ net 169 254 0 0 16
    ∷ net 172 16 0 0 12
    ∷ net 192 0 2 0 24
    ∷ net 192 168 0 0 16
    ∷ net 198 18 0 0 15
    ∷ net 198 51 100 0 24
    ∷ net 203 0 113 0 24
    ∷ net 224 0 0 0 4
    ∷ net 240 0 0 0 4
    ∷ []

-- The address as a number of 32 bits.
abbrev pub to_bits : Ipv4Addr → ℕ
to_bits ip = ip.a * 2 ^ 24 + ip.b * 2 ^ 16 + ip.c * 2 ^ 8 + ip.d

pub record IsIpv4 (ip : Ipv4Addr) : Type 0 where
  pub a_lt : ip.a < 256
  pub b_lt : ip.b < 256
  pub c_lt : ip.c < 256
  pub d_lt : ip.d < 256

-- The order of the source's tests, two of which another covers, against that of the networks.
rearranged :
    (lo ten pb pc ll un this bc sh d1 d2 d3 be re mu : Bool)
    → (un ≡ true → this ≡ true)
    → (bc ≡ true → re ≡ true)
    → (lo
        || (ten || pb || pc)
        || ll
        || un
        || this
        || bc
        || sh
        || (d1 || d2 || d3)
        || be
        || re
        || mu)
      ≡ (this
          || (ten
              || (sh
                  || (lo
                      || (ll
                          || (pb
                              || (d1
                                  || (pc || (be || (d2 || (d3 || (mu || (re || (false))))))))))))))
rearranged lo ten pb pc ll un this bc sh d1 d2 d3 be re mu p q = ground arith

or_cong : {x x' y y' : Bool} → x ≡ x' → y ≡ y' → (x || y) ≡ (x' || y')
or_cong p q = cc (p, q)

module _ (ip : Ipv4Addr) (w : IsIpv4 ip) where
  top_4 : to_bits ip / 2 ^ 28 ≡ ip.a / 16
  top_4 = omega (arith, w.a_lt, w.b_lt, w.c_lt, w.d_lt)

  top_8 : to_bits ip / 2 ^ 24 ≡ ip.a
  top_8 = omega (arith, w.a_lt, w.b_lt, w.c_lt, w.d_lt)

  top_10 : to_bits ip / 2 ^ 22 ≡ ip.a * 4 + ip.b / 64
  top_10 = omega (arith, w.a_lt, w.b_lt, w.c_lt, w.d_lt)

  top_12 : to_bits ip / 2 ^ 20 ≡ ip.a * 16 + ip.b / 16
  top_12 = omega (arith, w.a_lt, w.b_lt, w.c_lt, w.d_lt)

  top_15 : to_bits ip / 2 ^ 17 ≡ ip.a * 128 + ip.b / 2
  top_15 = omega (arith, w.a_lt, w.b_lt, w.c_lt, w.d_lt)

  top_16 : to_bits ip / 2 ^ 16 ≡ ip.a * 256 + ip.b
  top_16 = omega (arith, w.a_lt, w.b_lt, w.c_lt, w.d_lt)

  top_24 : to_bits ip / 2 ^ 8 ≡ ip.a * 65536 + ip.b * 256 + ip.c
  top_24 = omega (arith, w.a_lt, w.b_lt, w.c_lt, w.d_lt)

  this : contains_addr (to_bits ip) (net 0 0 0 0 8) ≡ (ip.a == 0)
  this = ground (arith, w.a_lt, w.b_lt, w.c_lt, top_8)

  ten : contains_addr (to_bits ip) (net 10 0 0 0 8) ≡ (ip.a == 10)
  ten = ground (arith, w.a_lt, w.b_lt, w.c_lt, top_8)

  shared :
      contains_addr (to_bits ip) (net 100 64 0 0 10)
      ≡ (ip.a == 100 && (leb 64 ip.b && leb ip.b 127))
  shared = ground (arith, w.a_lt, w.b_lt, w.c_lt, top_10)

  loopback : contains_addr (to_bits ip) (net 127 0 0 0 8) ≡ (ip.a == 127)
  loopback = ground (arith, w.a_lt, w.b_lt, w.c_lt, top_8)

  link_local : contains_addr (to_bits ip) (net 169 254 0 0 16) ≡ (ip.a == 169 && ip.b == 254)
  link_local = ground (arith, w.a_lt, w.b_lt, w.c_lt, top_16)

  private_b :
      contains_addr (to_bits ip) (net 172 16 0 0 12) ≡ (ip.a == 172 && (leb 16 ip.b && leb ip.b 31))
  private_b = ground (arith, w.a_lt, w.b_lt, w.c_lt, top_12)

  doc_1 : contains_addr (to_bits ip) (net 192 0 2 0 24) ≡ (ip.a == 192 && ip.b == 0 && ip.c == 2)
  doc_1 = ground (arith, w.a_lt, w.b_lt, w.c_lt, top_24)

  private_c : contains_addr (to_bits ip) (net 192 168 0 0 16) ≡ (ip.a == 192 && ip.b == 168)
  private_c = ground (arith, w.a_lt, w.b_lt, w.c_lt, top_16)

  bench : contains_addr (to_bits ip) (net 198 18 0 0 15) ≡ (ip.a == 198 && ip.b / 2 * 2 == 18)
  bench = ground (arith, w.a_lt, w.b_lt, w.c_lt, top_15)

  doc_2 :
      contains_addr (to_bits ip) (net 198 51 100 0 24) ≡ (ip.a == 198 && ip.b == 51 && ip.c == 100)
  doc_2 = ground (arith, w.a_lt, w.b_lt, w.c_lt, top_24)

  doc_3 :
      contains_addr (to_bits ip) (net 203 0 113 0 24) ≡ (ip.a == 203 && ip.b == 0 && ip.c == 113)
  doc_3 = ground (arith, w.a_lt, w.b_lt, w.c_lt, top_24)

  multicast : contains_addr (to_bits ip) (net 224 0 0 0 4) ≡ (leb 224 ip.a && leb ip.a 239)
  multicast = ground (arith, w.a_lt, w.b_lt, w.c_lt, top_4)

  reserved : contains_addr (to_bits ip) (net 240 0 0 0 4) ≡ (leb 240 ip.a)
  reserved = ground (arith, w.a_lt, w.b_lt, w.c_lt, top_4)

  -- An IPv4 address, its octets in range, is blocked exactly if its 32-bit number lies in one of
  -- the thirteen blocked networks.
  pub blocked_networks_lem :
      is_blocked_addr (v4 ip) ≡ any (contains_addr (to_bits ip)) blocked_networks
  unfolding is_blocked_addr is_blocked_v4
  blocked_networks_lem =
      rearranged (ip.a == 127) (ip.a == 10) (ip.a == 172 && (leb 16 ip.b && leb ip.b 31))
        (ip.a == 192 && ip.b == 168) (ip.a == 169 && ip.b == 254)
        (ip.a == 0 && ip.b == 0 && ip.c == 0 && ip.d == 0) (ip.a == 0)
        (ip.a == 255 && ip.b == 255 && ip.c == 255 && ip.d == 255)
        (ip.a == 100 && (leb 64 ip.b && leb ip.b 127)) (ip.a == 192 && ip.b == 0 && ip.c == 2)
        (ip.a == 198 && ip.b == 51 && ip.c == 100) (ip.a == 203 && ip.b == 0 && ip.c == 113)
        (ip.a == 198 && ip.b / 2 * 2 == 18) (leb 240 ip.a) (leb 224 ip.a && leb ip.a 239)
        (λ h. ground (arith, h)) (λ h. ground (arith, h))
      ∙ sym (
          or_cong this (
            or_cong ten (
              or_cong shared (
                or_cong loopback (
                  or_cong link_local (
                    or_cong private_b (
                      or_cong doc_1 (
                        or_cong private_c (
                          or_cong bench (
                            or_cong doc_2
                              (or_cong doc_3 (or_cong multicast (or_cong reserved refl)))))))))))))
