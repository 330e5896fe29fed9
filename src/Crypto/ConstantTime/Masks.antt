-- ===== src/Crypto/ConstantTime/Masks.antt =====
-- What the selections of src/crypto/constant_time.c select.
use opssl.Base.{
  ℕ, zero, suc, ◌+◌, ◌-◌, ◌*◌, ◌%◌, ◌^◌, ◌≤◌, ◌<◌, ◌≡◌, refl, ap, ◌∙◌, inl, inr, Bool-cases, List,
  [], ◌∷◌, length, take, drop, All, bit_and, bit_or, ltb, min, arith,
}
use opssl.Base.Bits.{bit_and_mask, bit_and-zero, bit_or-zero, bit_or_fields}
use opssl.Bytes.{IsByte, byte_at}
use opssl.Crypto.ConstantTime.{select_mask, select_loop, ct_select, sign_mask, ct_min}

next_byte :
    (n i : ℕ) (p : List ℕ)
    → i < length p
    → byte_at p i ∷ take n (drop (i + 1) p) ≡ take (suc n) (drop i p)
next_byte n i [] h = absurd (omega arith)
next_byte n zero (x ∷ p) h = refl
next_byte n (suc i) (x ∷ p) h =
    ap (λ k. byte_at p i ∷ take n (drop k (x ∷ p))) {x = suc i + 1} {y = suc (i + 1)} (omega arith)
    ∙ next_byte n i p (omega arith)

byte_at-IsByte : (i : ℕ) (p : List ℕ) → All IsByte p → IsByte (byte_at p i)
byte_at-IsByte i [] all = omega arith
byte_at-IsByte zero (x ∷ p) (here, all) = here
byte_at-IsByte (suc i) (x ∷ p) (here, all) = byte_at-IsByte i p all

keep_first : (x y : ℕ) → IsByte x → bit_or (bit_and x 255) (bit_and y 0) ≡ x
keep_first x y h =
    (λ i. bit_or (bit_and_mask 8 255 x refl i) (bit_and-zero y i))
    ∙ bit_or-zero (x % 2 ^ 8)
    ∙ omega arith

keep_second : (x y : ℕ) → IsByte y → bit_or (bit_and x 0) (bit_and y 255) ≡ y
keep_second x y h =
    let same : y % 2 ^ 8 ≡ y = omega arith in
    (λ i. bit_or (bit_and-zero x i) ((bit_and_mask 8 255 y refl ∙ same) i))
    ∙ bit_or_fields 8 0 y h
    ∙ omega arith

select_first :
    (n i : ℕ) (a b : List ℕ)
    → All IsByte a
    → i + n ≤ length a
    → select_loop n i a b 255 ≡ take n (drop i a)
unfolding select_loop
select_first zero i a b ha h = refl
select_first (suc n) i a b ha h =
    (λ k.
      keep_first (byte_at a i) (byte_at b i) (byte_at-IsByte i a ha) k
      ∷ select_first n (i + 1) a b ha (omega arith) k)
    ∙ next_byte n i a (omega arith)

select_second :
    (n i : ℕ) (a b : List ℕ)
    → All IsByte b
    → i + n ≤ length b
    → select_loop n i a b 0 ≡ take n (drop i b)
unfolding select_loop
select_second zero i a b hb h = refl
select_second (suc n) i a b hb h =
    (λ k.
      keep_second (byte_at a i) (byte_at b i) (byte_at-IsByte i b hb) k
      ∷ select_second n (i + 1) a b hb (omega arith) k)
    ∙ next_byte n i b (omega arith)

-- opssl_ct_select looks at the lowest bit of its selector only: it copies the bytes of the first
-- buffer where the selector is odd, and those of the second where it is even, zero or not.
pub ct_select_lem :
    (a b : List ℕ) (len k : ℕ)
    → All IsByte a
    → All IsByte b
    → len ≤ length a
    → len ≤ length b
    → (ct_select a b len (2 * k + 1) ≡ take len a) × (ct_select a b len (2 * k) ≡ take len b)
unfolding ct_select
ct_select_lem a b len k ha hb la lb =
    let odd : select_mask (2 * k + 1) ≡ 255 = omega (arith, bit_and_mask 1 1 (2 * k + 1) refl) in
    let even : select_mask (2 * k) ≡ 0 = omega (arith, bit_and_mask 1 1 (2 * k) refl) in
    (
      ap (select_loop len 0 a b) odd ∙ select_first len 0 a b ha (omega arith),
      ap (select_loop len 0 a b) even ∙ select_second len 0 a b hb (omega arith),
    )

-- For two words that are less than 2^63 apart, opssl_ct_min is the smaller one.
pub ct_min_lem :
    (a b : ℕ) → a < 2 ^ 64 → b < 2 ^ 64 → a < b + 2 ^ 63 → b < a + 2 ^ 63 → ct_min a b ≡ min a b
unfolding ct_min
ct_min_lem a b ha hb near near' =
    let diff = (a + 2 ^ 64 - b) % 2 ^ 64 in
    elim (Bool-cases (ltb diff (2 ^ 63))) [
      | inl e ↦
          let above : diff < 2 ^ 63 = ground arith in
          let masked : bit_and diff (sign_mask diff) ≡ 0 = rw e (bit_and-zero diff) in omega arith
      | inr e ↦
          let below : 2 ^ 63 ≤ diff = ground arith in
          let masked : bit_and diff (sign_mask diff) ≡ diff % 2 ^ 64 =
            rw e (bit_and_mask 64 (2 ^ 64 - 1) diff refl) in
          omega arith
    ]
