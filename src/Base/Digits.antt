-- ===== src/Base/Digits.antt =====
-- The binary digits of a number, and what the shifts, masks and `|` of C do to each.
use Prim.Native.Nat.{ℕ, zero, suc, ◌+◌, ◌-◌, ◌*◌, ◌/◌, ◌%◌, ◌^◌, ◌≤◌, ◌<◌, max, bit_and, bit_or}
use mathlib.Core.Path.{◌≡◌, refl, sym, ap, ◌∙◌}
use native.Mathlib.Nat.{pow-suc, one-le-pow}
use native.Mathlib.Omega.{arith}
use opssl.Base.Bits.{bit_or_step, bit_and_bit}

unfoldable pub digit : ℕ → ℕ → ℕ
digit x zero = x % 2
digit x (suc j) = digit (x / 2) j

pub digit-lt : (x j : ℕ) → digit x j < 2
unfolding digit
digit-lt x zero = omega arith
digit-lt x (suc j) = digit-lt (x / 2) j

pub digit-zero : (j : ℕ) → digit 0 j ≡ 0
unfolding digit
digit-zero zero = refl
digit-zero (suc j) = digit-zero j

pub digit-bit_or : (x y j : ℕ) → digit (bit_or x y) j ≡ max (digit x j) (digit y j)
unfolding digit
digit-bit_or x y zero = omega (arith, bit_or_step x y)
digit-bit_or x y (suc j) =
    ap (λ n. digit n j) {x = bit_or x y / 2} {y = bit_or (x / 2) (y / 2)}
      (omega (arith, bit_or_step x y))
    ∙ digit-bit_or (x / 2) (y / 2) j

-- A number `q * 2 ^ n + r` with `r` below `2 ^ n` has the digits of `r`, then those of `q`.
double : (q n : ℕ) → q * 2 ^ suc n ≡ 2 * (q * 2 ^ n)
double q n = omega (arith, ap (λ (t : ℕ). q * t) (pow-suc 2 n))

pub digit_low : (n q r j : ℕ) → r < 2 ^ n → j < n → digit (q * 2 ^ n + r) j ≡ digit r j
unfolding digit
digit_low zero q r j h k = absurd (omega arith)
digit_low (suc n) q r zero h k = omega (arith, double q n)
digit_low (suc n) q r (suc j) h k =
    ap (λ x. digit x j) {x = (q * 2 ^ suc n + r) / 2} {y = q * 2 ^ n + r / 2}
      (omega (arith, double q n))
    ∙ digit_low n q (r / 2) j (omega (arith, pow-suc 2 n)) (omega arith)

pub digit_high : (n q r j : ℕ) → r < 2 ^ n → digit (q * 2 ^ n + r) (n + j) ≡ digit q j
unfolding digit
digit_high zero q r j h = (λ k. digit (value k) (index k))
  where
    value : q * 2 ^ 0 + r ≡ q
    value = omega arith

    index : 0 + j ≡ j
    index = omega arith
digit_high (suc n) q r j h =
    ap (digit (q * 2 ^ suc n + r)) {x = suc n + j} {y = suc (n + j)} (omega arith)
    ∙ ap (λ x. digit x (n + j)) {x = (q * 2 ^ suc n + r) / 2} {y = q * 2 ^ n + r / 2}
        (omega (arith, double q n))
    ∙ digit_high n q (r / 2) j (omega (arith, pow-suc 2 n))

split : (x p : ℕ) → 1 ≤ p → x ≡ x / p * p + x % p
split x p h = omega arith

pos : (n : ℕ) → 1 ≤ 2 ^ n
pos n = omega (arith, one-le-pow n 2)

-- x >> n
pub digit_shr : (n x j : ℕ) → digit (x / 2 ^ n) j ≡ digit x (n + j)
digit_shr n x j =
    sym (digit_high n (x / 2 ^ n) (x % 2 ^ n) j (omega (arith, pos n)))
    ∙ ap (λ y. digit y (n + j)) (sym (split x (2 ^ n) (pos n)))

-- The low bits stay under `% 2 ^ n`, and none is above them.
pub digit_mod_low : (n x j : ℕ) → j < n → digit (x % 2 ^ n) j ≡ digit x j
digit_mod_low n x j h =
    sym (digit_low n (x / 2 ^ n) (x % 2 ^ n) j (omega (arith, pos n)) h)
    ∙ ap (λ y. digit y j) (sym (split x (2 ^ n) (pos n)))

pub digit_mod_high : (n x j : ℕ) → n ≤ j → digit (x % 2 ^ n) j ≡ 0
digit_mod_high n x j h =
    (λ k. digit (whole k) (index k))
    ∙ digit_high n 0 (x % 2 ^ n) (j - n) (omega (arith, pos n))
    ∙ digit-zero (j - n)
  where
    whole : x % 2 ^ n ≡ 0 * 2 ^ n + x % 2 ^ n
    whole = omega arith

    index : j ≡ n + (j - n)
    index = omega arith

-- x << n
pub digit_shl_low : (n x j : ℕ) → j < n → digit (x * 2 ^ n) j ≡ 0
digit_shl_low n x j h =
    ap (λ y. digit y j) {y = x * 2 ^ n + 0} (omega arith)
    ∙ digit_low n x 0 j (pos n) h
    ∙ digit-zero j

pub digit_shl_high : (n x j : ℕ) → digit (x * 2 ^ n) (n + j) ≡ digit x j
digit_shl_high n x j =
    ap (λ y. digit y (n + j)) {y = x * 2 ^ n + 0} (omega arith) ∙ digit_high n x 0 j (pos n)

-- The test of one bit.
pub bit_test : (k x : ℕ) → bit_and x (2 ^ k) ≡ digit x k * 2 ^ k
bit_test k x = bit_and_bit k x ∙ ap (λ d. d * 2 ^ k) (quotient ∙ ap (digit x) (omega arith))
  where
    quotient : x / 2 ^ k % 2 ≡ digit x (k + 0)
    quotient = unfold digit in digit_shr k x 0
