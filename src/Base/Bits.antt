-- ===== src/Base/Bits.antt =====
-- Bit operations at variables: one equation for the lowest digit, and what follows from it for
-- masks and disjoint fields.
use Prim.Native.Nat.{ℕ, zero, suc, ◌+◌, ◌*◌, ◌/◌, ◌%◌, ◌^◌, ◌≤◌, ◌<◌, min, max}
use Prim.Native.Nat.{
  bit_and, bit_or, digits, bitwise, bit_and-bitwise, bit_or-bitwise, bit_xor, bit_xor-bitwise,
  differ,
}
use mathlib.Core.Path.{◌≡◌, refl, sym, ap, ◌∙◌}
use mathlib.Core.WellFounded
use native.Mathlib.Nat.{pow-suc, one-le-pow, div-div-eq-div-mul}
use native.Mathlib.Omega.{arith}
use opssl.Base.Order.{lt_wf}

-- Fuel that is no less than the first operand is as good as that operand.
module _ (base : ℕ → ℕ) (op : ℕ → ℕ → ℕ) where
  Spare : ℕ → Type 0
  Spare fuel = (x y : ℕ) → x ≤ fuel → digits base op fuel x y ≡ bitwise base op x y

  Spare-below : (fuel : ℕ) → ((less : ℕ) → less < fuel → Spare less) → Spare fuel
  unfolding Spare
  Spare-below zero below zero y h = refl
  Spare-below zero below (suc x) y h = let wrong : ⊥ = omega arith in elim wrong [ ]
  Spare-below (suc fuel) below zero y h = refl
  Spare-below (suc fuel) below (suc x) y h =
      let left = below fuel (omega arith) (suc x / 2) (y / 2) (omega arith) in
      let right = below x (omega arith) (suc x / 2) (y / 2) (omega arith) in
      ap (λ high. high * 2 + op (suc x % 2) (y % 2)) (left ∙ sym right)

  spare : (fuel : ℕ) → Spare fuel
  spare fuel = WellFounded.induction lt_wf fuel Spare-below

  split_lowest :
      (x y : ℕ)
      → bitwise base op (suc x) y ≡ op (suc x % 2) (y % 2) + 2 * bitwise base op (suc x / 2) (y / 2)
  unfolding Spare
  split_lowest x y = omega (arith, spare x (suc x / 2) (y / 2) (omega arith))

pub bit_and_step : (x y : ℕ) → bit_and x y ≡ min (x % 2) (y % 2) + 2 * bit_and (x / 2) (y / 2)
bit_and_step (suc x) y = let h = split_lowest (λ low. 0) min x y in simp bit_and-bitwise h
bit_and_step zero y = simp bit_and-bitwise (omega arith)

pub bit_or_step : (x y : ℕ) → bit_or x y ≡ max (x % 2) (y % 2) + 2 * bit_or (x / 2) (y / 2)
bit_or_step (suc x) y = let h = split_lowest (λ low. low) max x y in simp bit_or-bitwise h
bit_or_step zero y = simp bit_or-bitwise (omega arith)

pub bit_xor_step : (x y : ℕ) → bit_xor x y ≡ differ (x % 2) (y % 2) + 2 * bit_xor (x / 2) (y / 2)
bit_xor_step (suc x) y = let h = split_lowest (λ low. low) differ x y in simp bit_xor-bitwise h
bit_xor_step zero y = simp bit_xor-bitwise (omega arith)

-- Zero as the second operand, for all first operands below a bound.
with_zero : (bound x : ℕ) → x < bound → (bit_or x 0 ≡ x) × (bit_and x 0 ≡ 0)
with_zero zero x h = let wrong : ⊥ = omega arith in elim wrong [ ]
with_zero (suc bound) zero h = (refl, refl)
with_zero (suc bound) (suc x) h =
    let (either, both) = with_zero bound (suc x / 2) (omega arith) in
    (omega (arith, either, bit_or_step (suc x) 0), omega (arith, both, bit_and_step (suc x) 0))

pub bit_or-zero : (x : ℕ) → bit_or x 0 ≡ x
bit_or-zero x = (with_zero (x + 1) x (omega arith)).0

pub bit_and-zero : (x : ℕ) → bit_and x 0 ≡ 0
bit_and-zero x = (with_zero (x + 1) x (omega arith)).1

pub double_power : (high width : ℕ) → high * 2 ^ suc width ≡ 2 * (high * 2 ^ width)
double_power high width =
    let power : 2 ^ suc width ≡ 2 ^ width * 2 = pow-suc 2 width in
    ap (λ (t : ℕ). high * t) power ∙ omega arith

-- A field below a shifted one: `|` is a sum where the lower field fits in its `width` bits.
pub bit_or_fields :
    (width high low : ℕ) → low < 2 ^ width → bit_or (high * 2 ^ width) low ≡ high * 2 ^ width + low
bit_or_fields zero high low fits =
    let none_left : low ≡ 0 = omega arith in
    let alone : high * 2 ^ 0 ≡ high = omega arith in
    rw (none_left, alone, bit_or-zero high) (omega arith)
bit_or_fields (suc width) high low fits =
    let even = double_power high width in
    let half : high * 2 ^ suc width / 2 ≡ high * 2 ^ width = omega arith in
    let below : low / 2 < 2 ^ width = omega (arith, pow-suc 2 width) in
    let upper : bit_or (high * 2 ^ suc width / 2) (low / 2) ≡ high * 2 ^ width + low / 2 =
      rw half (bit_or_fields width high (low / 2) below) in
    omega (arith, upper, bit_or_step (high * 2 ^ suc width) low)

-- A mask of `k` ones, `m`, keeps the low field of a number.
bit_and_low_field : (k m q r : ℕ) → m + 1 ≡ 2 ^ k → r < 2 ^ k → bit_and (q * 2 ^ k + r) m ≡ r
bit_and_low_field zero m q r e h =
    let m0 : m ≡ 0 = omega arith in rw (m0, bit_and-zero) (omega arith)
bit_and_low_field (suc k) m q r e h =
    let even = double_power q k in
    let half : (q * 2 ^ suc k + r) / 2 ≡ q * 2 ^ k + r / 2 = omega arith in
    let ones : (m % 2 ≡ 1) × (m / 2 + 1 ≡ 2 ^ k) = omega (arith, pow-suc 2 k, one-le-pow k 2) in
    let below : r / 2 < 2 ^ k = omega (arith, pow-suc 2 k) in
    let high : bit_and ((q * 2 ^ suc k + r) / 2) (m / 2) ≡ r / 2 =
      rw half (bit_and_low_field k (m / 2) q (r / 2) ones.1 below) in
    omega (arith, bit_and_step (q * 2 ^ suc k + r) m, high)

-- `a & m` for a mask of `k` ones is the remainder by `2 ^ k`.
pub bit_and_mask : (k m a : ℕ) → m + 1 ≡ 2 ^ k → bit_and a m ≡ a % 2 ^ k
bit_and_mask k m a e =
    ap (λ x. bit_and x m) (split (2 ^ k) (omega (arith, one-le-pow k 2)))
    ∙ bit_and_low_field k m (a / 2 ^ k) (a % 2 ^ k) e (omega (arith, one-le-pow k 2))
  where
    split : (n : ℕ) → 1 ≤ n → a ≡ a / n * n + a % n
    split n h = omega arith

pub bit_and_low24 : (a : ℕ) → bit_and a 0x00FFFFFF ≡ a % 2 ^ 24
bit_and_low24 a = bit_and_mask 24 0x00FFFFFF a refl

-- A single bit as a mask.
pub bit_and_bit : (k a : ℕ) → bit_and a (2 ^ k) ≡ a / 2 ^ k % 2 * 2 ^ k
bit_and_bit zero a = omega (arith, bit_and_step a 1, bit_and-zero (a / 2))
bit_and_bit (suc k) a =
    let halves : 2 ^ suc k / 2 ≡ 2 ^ k = omega (arith, pow-suc 2 k) in
    let step : bit_and a (2 ^ suc k) ≡ bit_and (a / 2) (2 ^ k) * 2 =
      omega (arith, rw halves at (bit_and_step a (2 ^ suc k)), pow-suc 2 k) in
    let shifted : a / 2 / 2 ^ k ≡ a / 2 ^ suc k =
      div-div-eq-div-mul a 2 (2 ^ k) ∙ ap (λ n. a / n) (omega (arith, pow-suc 2 k)) in
    step
    ∙ ap (λ n. n * 2) (bit_and_bit k (a / 2) ∙ ap (λ n. n % 2 * 2 ^ k) shifted)
    ∙ omega (arith, double_power (a / 2 ^ suc k % 2) k)
