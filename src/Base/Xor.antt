-- ===== src/Base/Xor.antt =====
-- Exclusive or: it undoes itself, it is zero for equal numbers only, and it stays within a width.
use Prim.Native.Nat.{
  ℕ, zero, suc, ◌+◌, ◌*◌, ◌/◌, ◌%◌, ◌^◌, ◌<◌, bit_xor, bit_or, differ, bit_xor-bitwise,
}
use mathlib.Core.Path.{◌≡◌, refl, sym, ap, ◌∙◌}
use native.Mathlib.Nat.{pow-suc}
use native.Mathlib.Omega.{arith}
use opssl.Base.Bits.{bit_xor_step, bit_or_step}

differ_twice : (d e : ℕ) → d < 2 → e < 2 → differ (differ d e) e ≡ d
differ_twice zero zero h k = refl
differ_twice zero (suc zero) h k = refl
differ_twice (suc zero) zero h k = refl
differ_twice (suc zero) (suc zero) h k = refl
differ_twice (suc (suc d)) e h k = absurd (omega arith)
differ_twice zero (suc (suc e)) h k = absurd (omega arith)
differ_twice (suc zero) (suc (suc e)) h k = absurd (omega arith)

differ-lt : (d e : ℕ) → d < 2 → e < 2 → differ d e < 2
differ-lt zero e h k = k
differ-lt (suc d) zero h k = h
differ-lt (suc d) (suc e) h k = differ-lt d e (omega arith) (omega arith)

differ_zero : (d e : ℕ) → differ d e ≡ 0 → d ≡ e
differ_zero zero e h = sym h
differ_zero (suc d) zero h = h
differ_zero (suc d) (suc e) h = ap suc (differ_zero d e h)

-- The lowest digit and the rest of an exclusive or.
parts :
    (x y : ℕ)
    → (bit_xor x y % 2 ≡ differ (x % 2) (y % 2)) × (bit_xor x y / 2 ≡ bit_xor (x / 2) (y / 2))
parts x y =
    let low = differ-lt (x % 2) (y % 2) (omega arith) (omega arith) in
    omega (arith, bit_xor_step x y)

twice_below : (bound x y : ℕ) → x < bound → y < bound → bit_xor (bit_xor x y) y ≡ x
twice_below zero x y h k = absurd (omega arith)
twice_below (suc zero) x y h k =
    let left : x ≡ 0 = omega arith in let right : y ≡ 0 = omega arith in rw (left, right) refl
twice_below (suc (suc bound)) x y h k =
    let (low, high) = parts x y in
    let digit = differ_twice (x % 2) (y % 2) (omega arith) (omega arith) in
    let rest = twice_below (suc bound) (x / 2) (y / 2) (omega arith) (omega arith) in
    bit_xor_step (bit_xor x y) y
    ∙ (λ i. differ (low i) (y % 2) + 2 * bit_xor (high i) (y / 2))
    ∙ omega (arith, digit, rest)

pub bit_xor_twice : (x y : ℕ) → bit_xor (bit_xor x y) y ≡ x
bit_xor_twice x y = twice_below (x + y + 1) x y (omega arith) (omega arith)

zero_below : (bound x y : ℕ) → x < bound → y < bound → bit_xor x y ≡ 0 → x ≡ y
zero_below zero x y h k e = absurd (omega arith)
zero_below (suc zero) x y h k e = omega arith
zero_below (suc (suc bound)) x y h k e =
    let (low, high) = parts x y in
    let digit = differ_zero (x % 2) (y % 2) (omega arith) in
    let rest = zero_below (suc bound) (x / 2) (y / 2) (omega arith) (omega arith) (omega arith) in
    omega arith

pub bit_xor_zero : (x y : ℕ) → bit_xor x y ≡ 0 → x ≡ y
bit_xor_zero x y e = zero_below (x + y + 1) x y (omega arith) (omega arith) e

pub bit_xor_self : (x : ℕ) → bit_xor x x ≡ 0
bit_xor_self x = ap (λ z. bit_xor z x) (sym (bit_xor-bitwise 0 x)) ∙ bit_xor_twice 0 x

pub bit_xor-lt : (width x y : ℕ) → x < 2 ^ width → y < 2 ^ width → bit_xor x y < 2 ^ width
bit_xor-lt zero x y h k =
    let left : x ≡ 0 = omega arith in
    let right : y ≡ 0 = omega arith in rw (left, right) (omega arith)
bit_xor-lt (suc width) x y h k =
    let (low, high) = parts x y in
    let digit = differ-lt (x % 2) (y % 2) (omega arith) (omega arith) in
    let rest =
      bit_xor-lt width (x / 2) (y / 2) (omega (arith, pow-suc 2 width))
        (omega (arith, pow-suc 2 width)) in
    omega (arith, pow-suc 2 width)

-- A disjunction is zero where both sides are.
or_below : (bound x y : ℕ) → x < bound → y < bound → bit_or x y ≡ 0 → (x ≡ 0) × (y ≡ 0)
or_below zero x y h k e = absurd (omega arith)
or_below (suc zero) x y h k e = omega arith
or_below (suc (suc bound)) x y h k e =
    let step = bit_or_step x y in
    let (rx, ry) = or_below (suc bound) (x / 2) (y / 2) (omega arith) (omega arith) (omega arith) in
    omega arith

pub bit_or_zero : (x y : ℕ) → bit_or x y ≡ 0 → (x ≡ 0) × (y ≡ 0)
bit_or_zero x y e = or_below (x + y + 1) x y (omega arith) (omega arith) e

pub bit_or-lt : (width x y : ℕ) → x < 2 ^ width → y < 2 ^ width → bit_or x y < 2 ^ width
bit_or-lt zero x y h k =
    let left : x ≡ 0 = omega arith in
    let right : y ≡ 0 = omega arith in rw (left, right) (omega arith)
bit_or-lt (suc width) x y h k =
    let step = bit_or_step x y in
    let rest =
      bit_or-lt width (x / 2) (y / 2) (omega (arith, pow-suc 2 width))
        (omega (arith, pow-suc 2 width)) in
    omega (arith, pow-suc 2 width)

differ_comm : (d e : ℕ) → differ d e ≡ differ e d
differ_comm zero zero = refl
differ_comm zero (suc e) = refl
differ_comm (suc d) zero = refl
differ_comm (suc d) (suc e) = differ_comm d e

comm_below : (bound x y : ℕ) → x < bound → y < bound → bit_xor x y ≡ bit_xor y x
comm_below zero x y h k = absurd (omega arith)
comm_below (suc zero) x y h k =
    let left : x ≡ 0 = omega arith in let right : y ≡ 0 = omega arith in rw (left, right) refl
comm_below (suc (suc bound)) x y h k =
    let rest = comm_below (suc bound) (x / 2) (y / 2) (omega arith) (omega arith) in
    bit_xor_step x y ∙ (λ i. differ_comm (x % 2) (y % 2) i + 2 * rest i) ∙ sym (bit_xor_step y x)

pub bit_xor_comm : (x y : ℕ) → bit_xor x y ≡ bit_xor y x
bit_xor_comm x y = comm_below (x + y + 1) x y (omega arith) (omega arith)

pub bit_xor_cancel : (x y z : ℕ) → bit_xor x y ≡ bit_xor x z → y ≡ z
bit_xor_cancel x y z e =
    sym (bit_xor_twice y x)
    ∙ ap (λ t. bit_xor t x) (bit_xor_comm y x ∙ e ∙ bit_xor_comm x z)
    ∙ bit_xor_twice z x
