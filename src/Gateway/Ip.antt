-- ===== src/Gateway/Ip.antt =====
-- The addresses of Rust's `std::net`, with the tests of them that the gateway uses.
use cuartel.Common.{◌/◌, ℕ, ◌<◌, Bool, ◌&&◌, ◌||◌, leb, ◌==◌}

pub record Ipv4Addr : Type 0 where
  pub a : ℕ
  pub b : ℕ
  pub c : ℕ
  pub d : ℕ

-- The eight segments, the first with the highest bits.
pub record Ipv6Addr : Type 0 where
  pub s0 : ℕ
  pub s1 : ℕ
  pub s2 : ℕ
  pub s3 : ℕ
  pub s4 : ℕ
  pub s5 : ℕ
  pub s6 : ℕ
  pub s7 : ℕ

pub data IpAddr : Type 0 where
  v4 : Ipv4Addr → IpAddr
  v6 : Ipv6Addr → IpAddr

pub record SocketAddr : Type 0 where
  pub ip : IpAddr
  pub port : ℕ

-- The octets are `u8`, the segments `u16`.
pub record FitsV4 (ip : Ipv4Addr) : Type 0 where
  pub a : ip.a < 256
  pub b : ip.b < 256
  pub c : ip.c < 256
  pub d : ip.d < 256

pub record FitsV6 (ip : Ipv6Addr) : Type 0 where
  pub s0 : ip.s0 < 65536
  pub s1 : ip.s1 < 65536
  pub s2 : ip.s2 < 65536
  pub s3 : ip.s3 < 65536
  pub s4 : ip.s4 < 65536
  pub s5 : ip.s5 < 65536
  pub s6 : ip.s6 < 65536
  pub s7 : ip.s7 < 65536

abbrev pub is_loopback_v4 : Ipv4Addr → Bool
is_loopback_v4 ip = ip.a == 127

abbrev pub is_unspecified_v4 : Ipv4Addr → Bool
is_unspecified_v4 ip = ip.a == 0 && (ip.b == 0 && (ip.c == 0 && ip.d == 0))

abbrev pub is_private_v4 : Ipv4Addr → Bool
is_private_v4 ip =
    ip.a == 10 || (ip.a == 172 && (leb 16 ip.b && leb ip.b 31) || ip.a == 192 && ip.b == 168)

abbrev pub is_link_local_v4 : Ipv4Addr → Bool
is_link_local_v4 ip = ip.a == 169 && ip.b == 254

abbrev pub is_broadcast_v4 : Ipv4Addr → Bool
is_broadcast_v4 ip = ip.a == 255 && (ip.b == 255 && (ip.c == 255 && ip.d == 255))

abbrev pub is_multicast_v4 : Ipv4Addr → Bool
is_multicast_v4 ip = leb 224 ip.a && leb ip.a 239

-- The first five segments are zero.
abbrev pub five_zero : Ipv6Addr → Bool
five_zero ip = ip.s0 == 0 && (ip.s1 == 0 && (ip.s2 == 0 && (ip.s3 == 0 && ip.s4 == 0)))

abbrev pub is_loopback_v6 : Ipv6Addr → Bool
is_loopback_v6 ip = five_zero ip && (ip.s5 == 0 && (ip.s6 == 0 && ip.s7 == 1))

abbrev pub is_unspecified_v6 : Ipv6Addr → Bool
is_unspecified_v6 ip = five_zero ip && (ip.s5 == 0 && (ip.s6 == 0 && ip.s7 == 0))

abbrev pub is_multicast_v6 : Ipv6Addr → Bool
is_multicast_v6 ip = ip.s0 / 256 == 255

abbrev pub is_loopback : IpAddr → Bool
is_loopback (v4 ip) = is_loopback_v4 ip
is_loopback (v6 ip) = is_loopback_v6 ip
