-- ===== src/Crypto/ConstantTime/Equality.antt =====
-- opssl_ct_eq compares, and opssl_ct_is_zero and opssl_ct_word_is_zero test for zero.
use opssl.Base.{
  ℕ, zero, suc, ◌+◌, ◌-◌, ◌/◌, ◌%◌, ◌^◌, ◌≤◌, ◌<◌, ◌≡◌, ◌↔◌, refl, sym, ap, ◌∙◌, List, [], ◌∷◌,
  bit_and, bit_or, bit_xor, length, take, All, get_or-take, arith, Bool-cases, inl, inr, ==_iff,
  ◌==◌,
}
use Prim.Native.Nat.{bit_and-bitwise}
use opssl.Base.Bits.{bit_and_step, bit_or-zero}
use opssl.Base.Xor.{bit_xor_self, bit_xor_zero, bit_xor-lt, bit_or-lt, bit_or_zero}
use opssl.Bytes.{IsByte, byte_at}
use opssl.Crypto.ConstantTime.{is_zero_byte, diff_loop, ct_eq}

-- The test of a byte for zero.
one_and : (x : ℕ) → bit_and 1 x ≡ x % 2
one_and x = omega (arith, bit_and_step 1 x, zero_and (x / 2))
  where
    zero_and : (y : ℕ) → bit_and 0 y ≡ 0
    zero_and y = bit_and-bitwise 0 y

is_zero_byte_lem : (d : ℕ) → d < 256 → (is_zero_byte d ≡ 1) ↔ (d ≡ 0)
is_zero_byte_lem d h = rw (one_and ((d + (2 ^ 32 - 1)) % 2 ^ 32 / 2 ^ 8)) (omega arith, omega arith)

byte_at-IsByte : (p : List ℕ) (i : ℕ) → All IsByte p → byte_at p i < 256
byte_at-IsByte [] i h = omega arith
byte_at-IsByte (b ∷ bs) zero (h, hs) = h
byte_at-IsByte (b ∷ bs) (suc i) (h, hs) = byte_at-IsByte bs i hs

-- The two buffers hold the same bytes, `n` of them from `i` on.
abbrev Agree : ℕ → ℕ → List ℕ → List ℕ → Type 0
Agree n i x y = (k : ℕ) → i ≤ k → k < i + n → byte_at x k ≡ byte_at y k

diff_loop-lt :
    (n i : ℕ) (x y : List ℕ) (d : ℕ)
    → All IsByte x
    → All IsByte y
    → d < 256
    → diff_loop n i x y d < 256
unfolding diff_loop
diff_loop-lt zero i x y d hx hy h = h
diff_loop-lt (suc n) i x y d hx hy h = diff_loop-lt n (i + 1) x y _ hx hy (
    bit_or-lt 8 d (bit_xor (byte_at x i) (byte_at y i)) h
      (bit_xor-lt 8 (byte_at x i) (byte_at y i) (byte_at-IsByte x i hx) (byte_at-IsByte y i hy)))

diff_loop-Agree :
    (n i : ℕ) (x y : List ℕ) (d : ℕ) → diff_loop n i x y d ≡ 0 → (d ≡ 0) × Agree n i x y
unfolding diff_loop
diff_loop-Agree zero i x y d e = (e, λ k lo hi. absurd (omega arith))
diff_loop-Agree (suc n) i x y d e =
    let (both, later) = diff_loop-Agree n (i + 1) x y _ e in
    let (start, here) = bit_or_zero d (bit_xor (byte_at x i) (byte_at y i)) both in
    (
      start,
      λ k lo hi. elim (Bool-cases (k == i)) [
        | inl same ↦
            let same' : k ≡ i = (==_iff k i).0 same in
            rw same' (bit_xor_zero (byte_at x i) (byte_at y i) here)
        | inr other ↦ let other' : i + 1 ≤ k = ground arith in later k other' (omega arith)
      ],
    )

Agree-diff_loop : (n i : ℕ) (x y : List ℕ) → Agree n i x y → diff_loop n i x y 0 ≡ 0
unfolding diff_loop
Agree-diff_loop zero i x y same = refl
Agree-diff_loop (suc n) i x y same =
    let here : byte_at x i ≡ byte_at y i = same i (omega arith) (omega arith) in
    let none : bit_or 0 (bit_xor (byte_at x i) (byte_at y i)) ≡ 0 =
      ap (λ v. bit_or 0 (bit_xor v (byte_at y i))) here
      ∙ ap (bit_or 0) (bit_xor_self (byte_at y i))
      ∙ bit_or-zero 0 in
    ap (diff_loop n (i + 1) x y) none
    ∙ Agree-diff_loop n (i + 1) x y (λ k lo hi. same k (omega arith) (omega arith))

take-Agree :
    (n : ℕ) (a b : List ℕ) → n ≤ length a → n ≤ length b → Agree n 0 a b → take n a ≡ take n b
take-Agree zero a b ha hb same = refl
take-Agree (suc n) [] b ha hb same = absurd (omega arith)
take-Agree (suc n) (x ∷ a) [] ha hb same = absurd (omega arith)
take-Agree (suc n) (x ∷ a) (y ∷ b) ha hb same = (λ i.
    same 0 (omega arith) (omega arith) i
    ∷ take-Agree n a b (omega arith) (omega arith)
        (λ k lo hi. same (suc k) (omega arith) (omega arith)) i)

-- For buffers with `len` bytes or more, opssl_ct_eq returns 1 exactly if the first `len` bytes of
-- the two are the same.
pub ct_eq_iff :
    (a b : List ℕ) (len : ℕ)
    → All IsByte a
    → All IsByte b
    → len ≤ length a
    → len ≤ length b
    → (ct_eq a b len ≡ 1) ↔ (take len a ≡ take len b)
unfolding ct_eq
ct_eq_iff a b len ha hb la lb =
    let test =
      is_zero_byte_lem (diff_loop len 0 a b 0) (diff_loop-lt len 0 a b 0 ha hb (omega arith)) in
    (
      λ h. take-Agree len a b la lb (diff_loop-Agree len 0 a b 0 (test.0 h)).1,
      λ same. test.1 (
          Agree-diff_loop len 0 a b (λ k lo hi.
            sym (get_or-take len k a 0 (omega arith))
            ∙ ap (λ l. byte_at l k) same
            ∙ get_or-take len k b 0 (omega arith))),
    )

pub ct_eq-lt : (a b : List ℕ) (len : ℕ) → ct_eq a b len < 2
unfolding ct_eq
ct_eq-lt a b len =
    rw (one_and ((diff_loop len 0 a b 0 + (2 ^ 32 - 1)) % 2 ^ 32 / 2 ^ 8)) (omega arith)
