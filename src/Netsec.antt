-- ===== src/Netsec.antt =====
-- The address guard of backend/src/netsec.rs, which keeps the hosts that users name from reaching
-- the inside of the network. An IPv4 address is its four octets, an IPv6 address its eight
-- segments; masks are divisions.
pub mod Ranges
pub mod Embedded
pub mod Modes
use lyra.Prelude.{
  ℕ, ◌+◌, ◌-◌, ◌*◌, ◌/◌, ◌%◌, Bool, true, false, ◌&&◌, ◌||◌, not, Option, none, some, List, filter,
  leb, ◌==◌, if◌then◌else◌, map, Text, codes, text_eq,
}
use lyra.Prelude.Result.{Result, ok, err}

pub record Ipv4Addr : Type 0 where
  pub a : ℕ
  pub b : ℕ
  pub c : ℕ
  pub d : ℕ

pub record Ipv6Addr : Type 0 where
  pub s0 : ℕ
  pub s1 : ℕ
  pub s2 : ℕ
  pub s3 : ℕ
  pub s4 : ℕ
  pub s5 : ℕ
  pub s6 : ℕ
  pub s7 : ℕ

pub data IpAddr : Type 0 where
  v4 : (ip : Ipv4Addr) → IpAddr
  v6 : (ip : Ipv6Addr) → IpAddr

abbrev between : ℕ → ℕ → ℕ → Bool
between lo n hi = leb lo n && leb n hi

-- The library's tests on `Ipv4Addr`.
abbrev is_loopback : Ipv4Addr → Bool
is_loopback ip = ip.a == 127

abbrev is_private : Ipv4Addr → Bool
is_private ip = ip.a == 10 || (ip.a == 172 && between 16 ip.b 31) || (ip.a == 192 && ip.b == 168)

abbrev is_link_local : Ipv4Addr → Bool
is_link_local ip = ip.a == 169 && ip.b == 254

abbrev is_unspecified : Ipv4Addr → Bool
is_unspecified ip = ip.a == 0 && ip.b == 0 && ip.c == 0 && ip.d == 0

abbrev is_broadcast : Ipv4Addr → Bool
is_broadcast ip = ip.a == 255 && ip.b == 255 && ip.c == 255 && ip.d == 255

abbrev is_documentation : Ipv4Addr → Bool
is_documentation ip =
    (ip.a == 192 && ip.b == 0 && ip.c == 2)
    || (ip.a == 198 && ip.b == 51 && ip.c == 100)
    || (ip.a == 203 && ip.b == 0 && ip.c == 113)

abbrev is_multicast : Ipv4Addr → Bool
is_multicast ip = between 224 ip.a 239

unfoldable pub is_blocked_v4 : Ipv4Addr → Bool
is_blocked_v4 ip =
    is_loopback ip
    || is_private ip
    || is_link_local ip
    || is_unspecified ip
    || ip.a == 0
    || is_broadcast ip
    || (ip.a == 100 && between 64 ip.b 127)
    || is_documentation ip
    || (ip.a == 198 && ip.b / 2 * 2 == 18)
    || leb 240 ip.a
    || is_multicast ip

-- The address of two 16-bit halves, their bytes in network order.
abbrev pub of_halves : ℕ → ℕ → Ipv4Addr
of_halves hi lo = record { a = hi / 256; b = hi % 256; c = lo / 256; d = lo % 256 }

-- `Ipv4Addr::from_bits`
abbrev pub from_bits : ℕ → Ipv4Addr
from_bits bits = record {
  a = bits / 16777216;
  b = bits / 65536 % 256;
  c = bits / 256 % 256;
  d = bits % 256;
}

abbrev starts_with_zeros : Ipv6Addr → Bool
starts_with_zeros ip = ip.s0 == 0 && ip.s1 == 0 && ip.s2 == 0 && ip.s3 == 0 && ip.s4 == 0

unfoldable pub to_ipv4_mapped : Ipv6Addr → Option Ipv4Addr
to_ipv4_mapped ip =
    if starts_with_zeros ip && ip.s5 == 65535 then some (of_halves ip.s6 ip.s7) else none

unfoldable pub to_ipv4 : Ipv6Addr → Option Ipv4Addr
to_ipv4 ip =
    if starts_with_zeros ip && (ip.s5 == 0 || ip.s5 == 65535)
    then some (of_halves ip.s6 ip.s7)
    else none

abbrev or_else : Option Ipv4Addr → Option Ipv4Addr → Option Ipv4Addr
or_else none o = o
or_else (some ip) o = some ip

-- ::1, ::, ff00::/8, fc00::/7, fe80::/10 and the three prefixes.
unfoldable pub is_special_v6 : Ipv6Addr → Bool
is_special_v6 ip =
    (starts_with_zeros ip && ip.s5 == 0 && ip.s6 == 0 && ip.s7 == 1)
    || (starts_with_zeros ip && ip.s5 == 0 && ip.s6 == 0 && ip.s7 == 0)
    || ip.s0 / 256 == 255
    || ip.s0 / 512 == 126
    || ip.s0 / 64 == 1018
    || (ip.s0 == 8193 && ip.s1 == 3512)
    || (ip.s0 == 100 && ip.s1 == 65435 && ip.s2 == 1)

unfoldable pub is_blocked_v6 : Ipv6Addr → Bool
is_blocked_v6 ip = elim (or_else (to_ipv4_mapped ip) (to_ipv4 ip)) [
  | some inner ↦ is_blocked_v4 inner
  | none ↦
      if ip.s0 == 8194
      then is_blocked_v4 (of_halves ip.s1 ip.s2)
      else if ip.s0 == 8193 && ip.s1 == 0
      then is_blocked_v4 (from_bits (4294967295 - (ip.s6 * 65536 + ip.s7)))
      else is_special_v6 ip
]

unfoldable pub is_blocked_addr : IpAddr → Bool
is_blocked_addr (v4 ip) = is_blocked_v4 ip
is_blocked_addr (v6 ip) = is_blocked_v6 ip

-- `to_ascii_lowercase`
unfoldable pub to_ascii_lowercase : Text → Text
to_ascii_lowercase = map (λ c. if leb 65 c && leb c 90 then c + 32 else c)

-- The error is the unsupported mode, whose message is left out.
unfoldable pub normalize_security_mode : Text → Result Text Text
normalize_security_mode value =
    let mode = to_ascii_lowercase value in
    if text_eq mode (codes "tls")
    then ok (codes "tls")
    else if text_eq mode (codes "starttls")
    then ok (codes "starttls")
    else err mode

unfoldable pub filter_public_addrs : List IpAddr → List IpAddr
filter_public_addrs addrs = filter (λ a. not (is_blocked_addr a)) addrs
