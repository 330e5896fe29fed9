-- ===== src/Dtls/Replay/Shift.antt =====
-- What the in-place loops of dtls_replay_check do to each bit of the window.
use opssl.Base.{
  ℕ, ◌+◌, ◌-◌, ◌*◌, ◌/◌, ◌%◌, ◌^◌, ◌≤◌, ◌<◌, ◌≡◌, ap, ◌∙◌, Bool, true, false, List, arith, bit_or,
  length, ltb, leb, ◌==◌, if◌then◌else◌, Bool-cases, inl, inr, ltb→lt, ltb→le,
}
use opssl.Base.Digits.{
  digit, digit-lt, digit-zero, digit-bit_or, digit_shr, digit_mod_low, digit_mod_high,
  digit_shl_low, digit_shl_high,
}
use opssl.Bytes.{shl64}
use opssl.Dtls.Replay.{word, moved}

-- Bit `k` of the window.
abbrev pub bit : List ℕ → ℕ → ℕ
bit w k = digit (word w (k / 64)) (k % 64)

-- Four words of 64 bits.
pub record IsWords (w : List ℕ) : Type 0 where
  pub four : length w ≡ 4
  pub narrow : (i j : ℕ) → 64 ≤ j → digit (word w i) j ≡ 0

pub bit-lt : (w : List ℕ) (k : ℕ) → bit w k < 2
bit-lt w k = digit-lt _ _

-- The two halves of a shifted word.
or_low :
    (hi lo b j : ℕ)
    → 0 < b
    → b < 64
    → j < b
    → digit (bit_or (shl64 hi b) (lo / 2 ^ (64 - b))) j ≡ digit lo (64 - b + j)
or_low hi lo b j p h k =
    let left : digit (shl64 hi b) j ≡ 0 =
      digit_mod_low 64 (hi * 2 ^ b) j (omega arith) ∙ digit_shl_low b hi j k in
    digit-bit_or (shl64 hi b) (lo / 2 ^ (64 - b)) j ∙ omega (arith, left, digit_shr (64 - b) lo j)

or_high :
    (hi lo b j : ℕ)
    → 0 < b
    → b < 64
    → b ≤ j
    → j < 64
    → ((k : ℕ) → 64 ≤ k → digit lo k ≡ 0)
    → digit (bit_or (shl64 hi b) (lo / 2 ^ (64 - b))) j ≡ digit hi (j - b)
or_high hi lo b j p h k m narrow =
    let left : digit (shl64 hi b) j ≡ digit hi (j - b) =
      digit_mod_low 64 (hi * 2 ^ b) j m
      ∙ ap (digit (hi * 2 ^ b)) {x = j} {y = b + (j - b)} (omega arith)
      ∙ digit_shl_high b hi (j - b) in
    let right : digit (lo / 2 ^ (64 - b)) j ≡ 0 =
      digit_shr (64 - b) lo j ∙ narrow (64 - b + j) (omega arith) in
    digit-bit_or (shl64 hi b) (lo / 2 ^ (64 - b)) j ∙ omega (arith, left, right)

pub or_above :
    (hi lo b j : ℕ)
    → b < 64
    → 64 ≤ j
    → ((k : ℕ) → 64 ≤ k → digit lo k ≡ 0)
    → digit (bit_or (shl64 hi b) (lo / 2 ^ (64 - b))) j ≡ 0
or_above hi lo b j h m narrow =
    digit-bit_or (shl64 hi b) (lo / 2 ^ (64 - b)) j
    ∙ omega (
      arith,
      digit_mod_high 64 (hi * 2 ^ b) j m,
      digit_shr (64 - b) lo j,
      narrow (64 - b + j) (omega arith),
    )

-- A word that is read only if its index is in range.
unfoldable pub source : Bool → List ℕ → ℕ → ℕ
source t w i = if t then word w i else 0

pub source-narrow :
    (t : Bool) (w : List ℕ) (i k : ℕ) → IsWords w → 64 ≤ k → digit (source t w i) k ≡ 0
unfolding source
source-narrow true w i k v h = v.narrow i k h
source-narrow false w i k v h = digit-zero k

-- Bit `k` of the shifted window.
abbrev pub shifted : List ℕ → ℕ → ℕ → ℕ
shifted w s k = if leb s k then bit w (k - s) else 0

at_source :
    (t : Bool) (w : List ℕ) (s k i j : ℕ)
    → t ≡ leb s k
    → (s ≤ k → (i ≡ (k - s) / 64) × (j ≡ (k - s) % 64))
    → digit (source t w i) j ≡ shifted w s k
unfolding source
at_source t w s k i j e h = elim (Bool-cases (leb s k)) [
  | inl ahead ↦ let (row, column) = h (ground arith) in rw (e, ahead, row, column)
  | inr behind ↦ rw (e, behind) (digit-zero j)
]

pub moved-bit :
    (word_shift bit_shift : ℕ) (w : List ℕ) (i j : ℕ)
    → IsWords w
    → bit_shift < 64
    → j < 64
    → digit (moved word_shift bit_shift w i) j
      ≡ shifted w (64 * word_shift + bit_shift) (64 * i + j)
unfolding moved source
moved-bit ws bs w i j v h k = elim (Bool-cases (bs == 0)) [
  | inl none_left ↦ rw none_left (
      at_source (leb ws i) w (64 * ws + bs) (64 * i + j) (i - ws) j (ground arith)
        (λ p. omega (arith, zero_of none_left)))
  | inr some_left ↦ rw some_left (elim (Bool-cases (ltb j bs)) [
    | inl low ↦
        or_low _ _ bs j (pos_of some_left) h (ltb→lt _ _ low)
        ∙ at_source (leb (ws + 1) i) w (64 * ws + bs) (64 * i + j) (i - ws - 1) (64 - bs + j)
            (ground arith) (λ p. (omega (arith, ltb→lt _ _ low), omega (arith, ltb→lt _ _ low)))
    | inr high ↦
        or_high _ _ bs j (pos_of some_left) h (ltb→le _ _ high) k
          (λ m q. source-narrow (leb (ws + 1) i) w (i - ws - 1) m v q)
        ∙ at_source (leb ws i) w (64 * ws + bs) (64 * i + j) (i - ws) (j - bs) (ground arith)
            (λ p. (omega (arith, ltb→le _ _ high), omega (arith, ltb→le _ _ high)))
  ])
]
  where
    zero_of : (bs == 0) ≡ true → bs ≡ 0
    zero_of e = ground arith

    pos_of : (bs == 0) ≡ false → 0 < bs
    pos_of e = ground arith
