-- ===== src/Gateway/Firewall.antt =====
-- firewall.rs of the gateway: the addresses that it never proxies to. `parse_socket` and `parse_ip`
-- are the standard parsers of a socket address and of an IP address.
use Prim.Native.Nat.{bit_and}
use cuartel.Common.Text.{strip_first, strip_last}
use cuartel.Common.{
  String, ◌/◌, ◌%◌, Bool, true, false, ◌&&◌, ◌||◌, Option, none, some, ◌==◌, if◌then◌else◌,
}
use cuartel.Gateway.Ip.{
  Ipv4Addr, Ipv6Addr, IpAddr, SocketAddr, v4, v6, is_broadcast_v4, is_link_local_v4, is_loopback_v4,
  is_loopback_v6, is_multicast_v4, is_multicast_v6, is_private_v4, is_unspecified_v4,
  is_unspecified_v6, five_zero,
}

pub record FirewallPolicy : Type 0 where
  pub allow_private_upstreams : Bool

abbrev pub default_firewall : FirewallPolicy
default_firewall = record { allow_private_upstreams = false }

unfoldable pub is_blocked_v4 : Ipv4Addr → Bool
is_blocked_v4 ip =
    if is_loopback_v4 ip || (is_unspecified_v4 ip || is_private_v4 ip)
    then true
    else if is_link_local_v4 ip || (is_broadcast_v4 ip || is_multicast_v4 ip)
    then true
    else if ip.a == 0
    then true
    else if ip.a == 100 && bit_and ip.b 0xC0 == 64
    then true
    else false

-- The IPv4 address in the last two segments. `as u8` keeps the low byte.
unfoldable pub embedded : Ipv6Addr → Ipv4Addr
embedded ip = record {
  a = ip.s6 / 256 % 256;
  b = bit_and ip.s6 0xFF % 256;
  c = ip.s7 / 256 % 256;
  d = bit_and ip.s7 0xFF % 256;
}

unfoldable pub is_blocked_v6 : Ipv6Addr → Bool
is_blocked_v6 ip =
    if is_loopback_v6 ip || (is_unspecified_v6 ip || is_multicast_v6 ip)
    then true
    else if bit_and ip.s0 0xFE00 == 0xFC00
    then true
    else if bit_and ip.s0 0xFFC0 == 0xFE80
    then true
    else if five_zero ip && ip.s5 == 0xFFFF
    then is_blocked_v4 (embedded ip)
    else false

unfoldable pub is_blocked_ip : IpAddr → Bool
is_blocked_ip (v4 ip) = is_blocked_v4 ip
is_blocked_ip (v6 ip) = is_blocked_v6 ip

abbrev pub block_reason : String
block_reason = "firewall: upstream authority resolves to a private/loopback address"

module _ (parse_socket : String → Option SocketAddr) (parse_ip : String → Option IpAddr) where
  abbrev bare : String → Option SocketAddr
  bare authority = elim (parse_ip authority) [
    | some ip ↦ some (record { ip = ip; port = 0 })
    | none ↦ none
  ]

  -- The address of a text in brackets.
  abbrev bracketed : String → Option SocketAddr
  bracketed authority = elim (strip_first b'[' authority) [
    | none ↦ none
    | some rest ↦ elim (strip_last b']' rest) [ none ↦ none | some inner ↦ bare inner ]
  ]

  unfoldable pub parse_ip_authority : String → Option SocketAddr
  parse_ip_authority authority = elim (parse_socket authority) [
    | some sa ↦ some sa
    | none ↦ elim (bracketed authority) [ some sa ↦ some sa | none ↦ bare authority ]
  ]
