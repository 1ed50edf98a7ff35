-- ===== src/Common/Bits.antt =====
-- `&` with a mask of high bits, as arithmetic.
use Prim.Native.Nat.{
  ℕ, zero, suc, ◌+◌, ◌-◌, ◌*◌, ◌/◌, ◌%◌, ◌^◌, ◌≤◌, min, digits, bit_and, bit_and-bitwise,
}
use mathlib.Core.Path.{◌≡◌, refl, ap, ◌∙◌, sym}
use native.Mathlib.Omega.{arith}
use native.Mathlib.Nat.{pow-suc, one-le-pow, div-div-eq-div-mul, mod-add-div}

-- The digits that both numbers have, on a count of digits to go.
abbrev common : ℕ → ℕ → ℕ → ℕ
common n a b = digits (λ y. 0) min n a b

-- The count makes no difference once it is large enough.
enough : (n k a b : ℕ) → a ≤ n → a ≤ k → common n a b ≡ common k a b
enough zero zero a b h i = refl
enough zero (suc k) zero b h i = refl
enough zero (suc k) (suc a) b h i = absurd (omega arith)
enough (suc n) zero zero b h i = refl
enough (suc n) (suc k) zero b h i = refl
enough (suc n) zero (suc a) b h i = absurd (omega arith)
enough (suc n) (suc k) (suc a) b h i =
    ap (λ d. d * 2 + min (suc a % 2) (b % 2))
      (enough n k (suc a / 2) (b / 2) (omega arith) (omega arith))

pub lowest_bit : (a b : ℕ) → bit_and a b ≡ bit_and (a / 2) (b / 2) * 2 + min (a % 2) (b % 2)
lowest_bit zero b = simp bit_and-bitwise (omega arith)
lowest_bit (suc a) b = simp bit_and-bitwise (
    ap (λ d. d * 2 + min (suc a % 2) (b % 2))
      (enough a (suc a / 2) (suc a / 2) (b / 2) (omega arith) (omega arith)))

twice : (a m : ℕ) → bit_and a (m * 2) ≡ bit_and (a / 2) m * 2
twice a m =
    let half : m * 2 / 2 ≡ m = omega arith in
    omega (arith, lowest_bit a (m * 2), ap (bit_and (a / 2)) half)

-- The bits of `m` moved up by `k` places meet the bits of `a` from place `k` on.
pub bit_and-high : (k m a : ℕ) → bit_and a (m * 2 ^ k) ≡ bit_and (a / 2 ^ k) m * 2 ^ k
bit_and-high zero m a =
    let one : m * 1 ≡ m = omega arith in
    let whole : a ≡ a / 1 = omega arith in
    ap (bit_and a) one ∙ ap (λ q. bit_and q m) whole ∙ omega arith
bit_and-high (suc k) m a =
    let up : m * 2 ^ suc k ≡ m * 2 ^ k * 2 = grind (arith, pow-suc 2 k) in
    let down : a / 2 / 2 ^ k ≡ a / 2 ^ suc k =
      div-div-eq-div-mul a 2 (2 ^ k) ∙ ap (λ d. a / d) (omega (arith, pow-suc 2 k)) in
    ap (bit_and a) up
    ∙ twice a (m * 2 ^ k)
    ∙ ap (λ x. x * 2) (bit_and-high k m (a / 2) ∙ ap (λ q. bit_and q m * 2 ^ k) down)
    ∙ grind (arith, pow-suc 2 k)

common_zero : (n a : ℕ) → common n a 0 ≡ 0
common_zero zero a = refl
common_zero (suc n) zero = refl
common_zero (suc n) (suc a) = omega (arith, common_zero n (suc a / 2))

bit_and-zero : (a : ℕ) → bit_and a 0 ≡ 0
bit_and-zero a = simp bit_and-bitwise (common_zero a a)

mod-twice : (a m : ℕ) → a % (m * 2) ≡ (a / 2) % m * 2 + a % 2
mod-twice a m =
    let q : a / 2 / m ≡ a / (m * 2) = div-div-eq-div-mul a 2 m ∙ ap (λ d. a / d) (omega arith) in
    let low : a % (m * 2) + m * 2 * (a / (m * 2)) ≡ a = mod-add-div a (m * 2) in
    let high : a / 2 % m + m * (a / 2 / m) ≡ a / 2 = mod-add-div (a / 2) m in grind arith

-- A mask of `k` low bits keeps the last `k` bits.
pub bit_and-low : (k a : ℕ) → bit_and a (2 ^ k - 1) ≡ a % 2 ^ k
bit_and-low zero a = bit_and-zero a ∙ omega arith
bit_and-low (suc k) a =
    let half : (2 ^ suc k - 1) / 2 ≡ 2 ^ k - 1 = omega (arith, pow-suc 2 k, one-le-pow k 2) in
    lowest_bit a (2 ^ suc k - 1)
    ∙ omega (
      arith,
      ap (bit_and (a / 2)) half,
      bit_and-low k (a / 2),
      mod-twice a (2 ^ k),
      pow-suc 2 k,
      one-le-pow k 2,
    )
    ∙ ap (λ d. a % d) (sym (pow-suc 2 k))
