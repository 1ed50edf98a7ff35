-- ===== src/Gateway/BlocksV6.antt =====
-- The firewall against the blocks of IPv6, and the IPv4 addresses that are mapped into it.
use Prim.Native.Nat.{bit_and}
use cuartel.Common.{
  ℕ, ◌+◌, ◌*◌, ◌/◌, ◌%◌, ◌^◌, ◌<◌, ◌≡◌, refl, ap, ◌∙◌, Bool, true, false, ◌&&◌, ◌||◌, List, [], ◌∷◌,
  ◌==◌, if◌then◌else◌, arith, ==_iff,
}
use cuartel.Common.Bits.{bit_and-high, bit_and-low}
use cuartel.Gateway.Ip.{Ipv4Addr, Ipv6Addr, FitsV4, FitsV6, five_zero, is_multicast_v6}
use cuartel.Gateway.Firewall.{is_blocked_v4, is_blocked_v6, embedded}
use cuartel.Gateway.Blocks.{
  number_v4, in_block, in_any, blocks_v4, Bool-ext, if_true, or_assoc, is_blocked_v4-blocks,
}

-- The address as one number of 128 bits.
abbrev pub number_v6 : Ipv6Addr → ℕ
number_v6 ip =
    ip.s0 * 2 ^ 112
    + ip.s1 * 2 ^ 96
    + ip.s2 * 2 ^ 80
    + ip.s3 * 2 ^ 64
    + ip.s4 * 2 ^ 48
    + ip.s5 * 2 ^ 32
    + ip.s6 * 2 ^ 16
    + ip.s7

-- Loopback, unspecified, multicast, unique local and link-local.
abbrev pub blocks_v6 : List (ℕ × ℕ)
blocks_v6 =
    (1, 128)
    ∷ (0, 128)
    ∷ (0xFF00 * 2 ^ 112, 8)
    ∷ (0xFC00 * 2 ^ 112, 7)
    ∷ (0xFE80 * 2 ^ 112, 10)
    ∷ []

-- ::ffff:0:0/96
abbrev pub is_mapped : ℕ → Bool
is_mapped n = in_block 128 (0xFFFF * 2 ^ 32) 96 n

low_byte : (s : ℕ) → bit_and s 0xFF ≡ s % 256
low_byte s = bit_and-low 8 s

module _ (ip : Ipv6Addr) (f : FitsV6 ip) where
  last_segment :
      (k : ℕ)
      → k < 65536
      → in_block 128 k 128 (number_v6 ip)
        ≡ (five_zero ip && (ip.s5 == 0 && (ip.s6 == 0 && ip.s7 == k)))
  last_segment k h = Bool-ext _ _ (forward, backward)
    where
      forward :
          in_block 128 k 128 (number_v6 ip) ≡ true
          → (five_zero ip && (ip.s5 == 0 && (ip.s6 == 0 && ip.s7 == k))) ≡ true
      forward e =
          let n : number_v6 ip ≡ k = ground arith in
          let z0 : ip.s0 ≡ 0 = omega arith in
          let z1 : ip.s1 ≡ 0 = omega arith in
          let z2 : ip.s2 ≡ 0 = omega arith in
          let z3 : ip.s3 ≡ 0 = omega arith in
          let z4 : ip.s4 ≡ 0 = omega arith in
          let z5 : ip.s5 ≡ 0 = omega arith in
          let z6 : ip.s6 ≡ 0 = omega arith in
          let z7 : ip.s7 ≡ k = omega arith in
          rw (z0, z1, z2, z3, z4, z5, z6) ((==_iff ip.s7 k).1 z7)

      backward :
          (five_zero ip && (ip.s5 == 0 && (ip.s6 == 0 && ip.s7 == k))) ≡ true
          → in_block 128 k 128 (number_v6 ip) ≡ true
      backward e = ground arith

  multicast : in_block 128 (0xFF00 * 2 ^ 112) 8 (number_v6 ip) ≡ is_multicast_v6 ip
  multicast = Bool-ext _ _ (ground arith)

  unique_local : in_block 128 (0xFC00 * 2 ^ 112) 7 (number_v6 ip) ≡ (bit_and ip.s0 0xFE00 == 0xFC00)
  unique_local =
      let mask : bit_and ip.s0 0xFE00 ≡ ip.s0 / 512 % 128 * 512 =
        bit_and-high 9 127 ip.s0 ∙ ap (λ q. q * 512) (bit_and-low 7 (ip.s0 / 512)) in
      rw mask (Bool-ext _ _ (ground arith))

  link_local : in_block 128 (0xFE80 * 2 ^ 112) 10 (number_v6 ip) ≡ (bit_and ip.s0 0xFFC0 == 0xFE80)
  link_local =
      let mask : bit_and ip.s0 0xFFC0 ≡ ip.s0 / 64 % 1024 * 64 =
        bit_and-high 6 1023 ip.s0 ∙ ap (λ q. q * 64) (bit_and-low 10 (ip.s0 / 64)) in
      rw mask (Bool-ext _ _ (ground arith))

  mapped : is_mapped (number_v6 ip) ≡ (five_zero ip && ip.s5 == 0xFFFF)
  mapped = Bool-ext _ _ (ground arith)

  embedded-FitsV4 : FitsV4 (embedded ip)
  unfolding embedded
  embedded-FitsV4 = record { a = omega arith; b = omega arith; c = omega arith; d = omega arith }

  number_v4-embedded : number_v4 (embedded ip) ≡ number_v6 ip % 2 ^ 32
  unfolding embedded
  number_v4-embedded = rw (low_byte ip.s6, low_byte ip.s7) (omega arith)

if_and : (p q : Bool) → (if p then q else false) ≡ (p && q)
if_and true q = refl
if_and false q = refl

-- The firewall blocks exactly the IPv6 addresses of the listed blocks, and those that hold a
-- blocked IPv4 address in ::ffff:0:0/96.
pub is_blocked_v6-blocks :
    (ip : Ipv6Addr)
    → FitsV6 ip
    → is_blocked_v6 ip ≡ (
        in_any 128 blocks_v6 (number_v6 ip)
        || is_mapped (number_v6 ip) && in_any 32 blocks_v4 (number_v6 ip % 2 ^ 32))
unfolding is_blocked_v6
is_blocked_v6-blocks ip f =
    let inner : is_blocked_v4 (embedded ip) ≡ in_any 32 blocks_v4 (number_v6 ip % 2 ^ 32) =
      is_blocked_v4-blocks (embedded ip) (embedded-FitsV4 ip f)
      ∙ ap (in_any 32 blocks_v4) (number_v4-embedded ip f) in
    simp
      (
        last_segment ip f 1 (omega arith),
        last_segment ip f 0 (omega arith),
        multicast ip f,
        unique_local ip f,
        link_local ip f,
        mapped ip f,
        inner,
        if_true,
        if_and,
        or_assoc,
      )
      refl

-- ::ffff:a.b.c.d
abbrev pub to_mapped : Ipv4Addr → Ipv6Addr
to_mapped ip = record {
  s0 = 0;
  s1 = 0;
  s2 = 0;
  s3 = 0;
  s4 = 0;
  s5 = 0xFFFF;
  s6 = ip.a * 256 + ip.b;
  s7 = ip.c * 256 + ip.d;
}

same_octets : {ip jp : Ipv4Addr} → ip.a ≡ jp.a → ip.b ≡ jp.b → ip.c ≡ jp.c → ip.d ≡ jp.d → ip ≡ jp
same_octets p q r s = λ i. record { a = p i; b = q i; c = r i; d = s i }

embedded-to_mapped : (ip : Ipv4Addr) → FitsV4 ip → embedded (to_mapped ip) ≡ ip
unfolding embedded
embedded-to_mapped ip f =
    same_octets (omega arith) (rw (low_byte (ip.a * 256 + ip.b)) (omega arith)) (omega arith)
      (rw (low_byte (ip.c * 256 + ip.d)) (omega arith))

-- An IPv4 address is blocked exactly when the IPv6 address that it is mapped to is.
pub is_blocked_v6-to_mapped :
    (ip : Ipv4Addr) → FitsV4 ip → is_blocked_v6 (to_mapped ip) ≡ is_blocked_v4 ip
unfolding is_blocked_v6
is_blocked_v6-to_mapped ip f = ap is_blocked_v4 (embedded-to_mapped ip f)
