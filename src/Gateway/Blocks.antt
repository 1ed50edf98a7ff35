-- ===== src/Gateway/Blocks.antt =====
-- The firewall against the address blocks, in their usual notation of a base and a prefix length.
use Prim.Native.Nat.{bit_and}
use cuartel.Common.{
  ℕ, ◌+◌, ◌-◌, ◌*◌, ◌/◌, ◌^◌, ◌<◌, ◌≡◌, refl, sym, ap, ◌∙◌, ◌↔◌, Bool, true, false, ◌&&◌, ◌||◌,
  List, [], ◌∷◌, ◌==◌, leb, if◌then◌else◌, arith,
}
use cuartel.Common.Bits.{bit_and-high, bit_and-low}
use cuartel.Gateway.Ip.{Ipv4Addr, FitsV4}
use cuartel.Gateway.Firewall.{is_blocked_v4}

-- The address as one number of 32 bits.
abbrev pub number_v4 : Ipv4Addr → ℕ
number_v4 ip = ((ip.a * 256 + ip.b) * 256 + ip.c) * 256 + ip.d

abbrev address : ℕ → ℕ → ℕ → ℕ → Ipv4Addr
address a b c d = record { a = a; b = b; c = c; d = d }

-- The first `len` of `width` bits are those of the base.
abbrev pub in_block : ℕ → ℕ → ℕ → ℕ → Bool
in_block width base len n = n / 2 ^ (width - len) == base / 2 ^ (width - len)

abbrev pub in_any : ℕ → List (ℕ × ℕ) → ℕ → Bool
in_any width [] n = false
in_any width ((base, len) ∷ blocks) n = in_block width base len n || in_any width blocks n

abbrev block : ℕ → ℕ → ℕ → ℕ → ℕ → ℕ × ℕ
block a b c d len = (number_v4 (address a b c d), len)

-- Loopback, unspecified, the private ranges of RFC 1918, link-local, broadcast, multicast, "this
-- network" and carrier-grade NAT.
abbrev pub blocks_v4 : List (ℕ × ℕ)
blocks_v4 =
    block 127 0 0 0 8
    ∷ block 0 0 0 0 32
    ∷ block 10 0 0 0 8
    ∷ block 172 16 0 0 12
    ∷ block 192 168 0 0 16
    ∷ block 169 254 0 0 16
    ∷ block 255 255 255 255 32
    ∷ block 224 0 0 0 4
    ∷ block 0 0 0 0 8
    ∷ block 100 64 0 0 10
    ∷ []

pub Bool-ext : (p q : Bool) → (p ≡ true) ↔ (q ≡ true) → p ≡ q
Bool-ext true true h = refl
Bool-ext true false h = sym (h.0 refl)
Bool-ext false true h = h.1 refl
Bool-ext false false h = refl

pub if_true : (p q : Bool) → (if p then true else q) ≡ (p || q)
if_true true q = refl
if_true false q = refl

pub or_assoc : (p q r : Bool) → ((p || q) || r) ≡ (p || (q || r))
or_assoc true q r = refl
or_assoc false q r = refl

top_two : (b : ℕ) → b < 256 → bit_and b 0xC0 ≡ b / 64 * 64
top_two b h = bit_and-high 6 3 b ∙ ap (λ q. q * 64) (bit_and-low 2 (b / 64) ∙ omega arith)

module _ (ip : Ipv4Addr) (f : FitsV4 ip) where
  one_octet : (a : ℕ) → in_block 32 (number_v4 (address a 0 0 0)) 8 (number_v4 ip) ≡ (ip.a == a)
  one_octet a = Bool-ext _ _ (ground arith)

  two_octets :
      (a b : ℕ)
      → b < 256
      → in_block 32 (number_v4 (address a b 0 0)) 16 (number_v4 ip) ≡ (ip.a == a && ip.b == b)
  two_octets a b h = Bool-ext _ _ (ground arith)

  four_octets :
      (a b c d : ℕ)
      → b < 256
      → c < 256
      → d < 256
      → in_block 32 (number_v4 (address a b c d)) 32 (number_v4 ip)
        ≡ (ip.a == a && (ip.b == b && (ip.c == c && ip.d == d)))
  four_octets a b c d h i j = Bool-ext _ _ (ground arith)

  twelve :
      in_block 32 (number_v4 (address 172 16 0 0)) 12 (number_v4 ip)
      ≡ (ip.a == 172 && (leb 16 ip.b && leb ip.b 31))
  twelve = Bool-ext _ _ (ground arith)

  four_bits :
      in_block 32 (number_v4 (address 224 0 0 0)) 4 (number_v4 ip) ≡ (leb 224 ip.a && leb ip.a 239)
  four_bits = Bool-ext _ _ (ground arith)

  ten :
      in_block 32 (number_v4 (address 100 64 0 0)) 10 (number_v4 ip)
      ≡ (ip.a == 100 && bit_and ip.b 0xC0 == 64)
  ten = rw (top_two ip.b f.b) (Bool-ext _ _ (ground arith))

-- The firewall blocks exactly the IPv4 addresses of the listed blocks.
pub is_blocked_v4-blocks :
    (ip : Ipv4Addr) → FitsV4 ip → is_blocked_v4 ip ≡ in_any 32 blocks_v4 (number_v4 ip)
unfolding is_blocked_v4
is_blocked_v4-blocks ip f =
    simp
      (
        one_octet ip f,
        two_octets ip f 192 168 (omega arith),
        two_octets ip f 169 254 (omega arith),
        four_octets ip f 0 0 0 0 (omega arith) (omega arith) (omega arith),
        four_octets ip f 255 255 255 255 (omega arith) (omega arith) (omega arith),
        twelve ip f,
        four_bits ip f,
        ten ip f,
        if_true,
        or_assoc,
      )
      refl
