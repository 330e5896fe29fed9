-- ===== src/Dtls/Replay/Mark.antt =====
-- Setting one bit of the window, as dtls_replay_check does when it accepts.
use opssl.Base.{
  ℕ, zero, suc, ◌+◌, ◌-◌, ◌*◌, ◌/◌, ◌%◌, ◌^◌, ◌≤◌, ◌<◌, ◌≡◌, refl, sym, ap, ◌∙◌, Bool, true, false,
  List, arith, bit_or, bit_and, max, set, ltb, ◌==◌, if◌then◌else◌, length-set, get_or-set_self,
  get_or-set_ne, Bool-cases, inl, inr, ltb→lt, ltb→le, ==_iff,
}
use native.Mathlib.Nat.{one-le-pow}
use opssl.Base.Digits.{
  digit, digit-lt, digit-zero, digit-bit_or, digit_shl_low, digit_shl_high, bit_test,
}
use opssl.Dtls.Replay.{word}
use opssl.Dtls.Replay.Shift.{bit, IsWords}

digit-one : (j : ℕ) → digit 1 j ≡ (if j == 0 then 1 else 0)
unfolding digit
digit-one zero = refl
digit-one (suc j) = digit-zero j ∙ (let later : (suc j == 0) ≡ false = ground arith in rw later)

digit-pow : (b j : ℕ) → digit (2 ^ b) j ≡ (if j == b then 1 else 0)
digit-pow b j = elim (Bool-cases (ltb j b)) [
  | inl below ↦
      let other : (j == b) ≡ false = ground arith in
      rw other (
        ap (λ x. digit x j) {x = 2 ^ b} {y = 1 * 2 ^ b} (omega arith)
        ∙ digit_shl_low b 1 j (ltb→lt _ _ below))
  | inr above ↦
      (λ k. digit (whole k) (index (ltb→le _ _ above) k))
      ∙ digit_shl_high b 1 (j - b)
      ∙ digit-one (j - b)
      ∙ ap (λ t. if t then 1 else 0) (same (ltb→le _ _ above))
]
  where
    whole : 2 ^ b ≡ 1 * 2 ^ b
    whole = omega arith

    index : b ≤ j → j ≡ b + (j - b)
    index h = omega arith

    same : b ≤ j → (j - b == 0) ≡ (j == b)
    same h = ground arith

-- `window[i] |= 1 << b`
abbrev pub mark : List ℕ → ℕ → ℕ → List ℕ
mark w i b = set w i (bit_or (word w i) (2 ^ b))

pub mark-bit :
    (w : List ℕ) (i b k : ℕ)
    → IsWords w
    → i < 4
    → b < 64
    → k < 256
    → bit (mark w i b) k ≡ (if k == 64 * i + b then 1 else bit w k)
mark-bit w i b k v hi hb hk = elim (Bool-cases (k / 64 == i)) [
  | inl row ↦
      let e : k / 64 ≡ i = (==_iff _ _).0 row in
      let column : (k == 64 * i + b) ≡ (k % 64 == b) = ground arith in
      rw (column, e, get_or-set_self w i (bit_or (word w i) (2 ^ b)) 0 (omega (arith, v.four)))
        (digit-bit_or (word w i) (2 ^ b) (k % 64)
          ∙ ap (max (digit (word w i) (k % 64))) (digit-pow b (k % 64))
          ∙ top (k % 64 == b) (digit (word w i) (k % 64)) (digit-lt (word w i) (k % 64)))
  | inr elsewhere ↦
      let e : (k == 64 * i + b) ≡ false = ground arith in
      rw (e, get_or-set_ne w i (k / 64) (bit_or (word w i) (2 ^ b)) 0 (ground arith))
]
  where
    top : (t : Bool) (d : ℕ) → d < 2 → max d (if t then 1 else 0) ≡ (if t then 1 else d)
    top true d h = omega arith
    top false d h = omega arith

pub mark-IsWords : (w : List ℕ) (i b : ℕ) → IsWords w → i < 4 → b < 64 → IsWords (mark w i b)
mark-IsWords w i b v hi hb = record {
  four = length-set w i (bit_or (word w i) (2 ^ b)) ∙ v.four;
  narrow = λ j m h. narrow_at j m h;
}
  where
    narrow_at : (j m : ℕ) → 64 ≤ m → digit (word (mark w i b) j) m ≡ 0
    narrow_at j m h = elim (Bool-cases (j == i)) [
      | inl here ↦
          let e : j ≡ i = (==_iff _ _).0 here in
          let other : (m == b) ≡ false = ground arith in
          let clear : digit (2 ^ b) m ≡ 0 = digit-pow b m ∙ ap (λ t. if t then 1 else 0) other in
          rw (e, get_or-set_self w i (bit_or (word w i) (2 ^ b)) 0 (omega (arith, v.four)))
            (digit-bit_or (word w i) (2 ^ b) m ∙ omega (arith, v.narrow i m h, clear))
      | inr there ↦
          rw (get_or-set_ne w i j (bit_or (word w i) (2 ^ b)) 0 (ground arith)) (v.narrow j m h)
    ]

scaled : (d p : ℕ) → 1 ≤ p → (d * p == 0) ≡ (d == 0)
scaled zero p h = ground arith
scaled (suc d) p h =
    let big : 1 ≤ suc d * p = grind arith in
    let left : (suc d * p == 0) ≡ false = ground arith in
    let right : (suc d == 0) ≡ false = ground arith in left ∙ sym right

-- `window[i] & (1 << b)` is zero exactly where the bit is clear.
pub mark-test :
    (w : List ℕ) (k : ℕ) → (bit_and (word w (k / 64)) (2 ^ (k % 64)) == 0) ≡ (bit w k == 0)
mark-test w k =
    rw (bit_test (k % 64) (word w (k / 64))) (scaled _ _ (omega (arith, one-le-pow (k % 64) 2)))
