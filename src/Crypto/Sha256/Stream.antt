-- ===== src/Crypto/Sha256/Stream.antt =====
-- However a message is cut into pieces, SHA-256 has the same state behind it.
use opssl.Base.{
  ℕ, suc, ◌+◌, ◌-◌, ◌*◌, ◌/◌, ◌%◌, ◌^◌, ◌≤◌, ◌<◌, ◌≡◌, refl, sym, ap, ◌∙◌, Bool-cases, inl, inr,
  List, [], ◌∷◌, ◌++◌, length, take, drop, length-drop, length-append, drop-drop, drop-append,
  take-append_long, drop-append_long, bit_and, ltb, arith,
}
use opssl.Base.Bits.{bit_and_mask}
use opssl.Crypto.Sha256.{
  Vars, Sha256Ctx, initial, sha256_transform, transform_blocks, absorb_rest, sha256_update,
}
use opssl.Crypto.Sha256.Blocks.{transform_blocks_on}

-- The context behind a message.
abbrev pub after : List ℕ → Sha256Ctx
after m = record {
  state = transform_blocks (length m / 64) initial m;
  count = length m % 2 ^ 64;
  buf = drop (length m / 64 * 64) m;
}

-- The context that a state and its unread bytes make.
abbrev context : ℕ → Vars → ℕ → List ℕ → Sha256Ctx
context k s count p = record {
  state = transform_blocks k s p;
  count = count;
  buf = drop (k * 64) p;
}

after-append :
    (m p : List ℕ)
    → after (m ++ p)
      ≡ context
          ((length m % 64 + length p) / 64)
          (after m).state
          ((length m + length p) % 2 ^ 64)
          ((after m).buf ++ p)
after-append m p =
    let q = length m / 64 in
    let k = (length m % 64 + length p) / 64 in
    let whole : length (m ++ p) / 64 ≡ q + k = omega (arith, length-append m p) in
    let count : length (m ++ p) % 2 ^ 64 ≡ (length m + length p) % 2 ^ 64 =
      omega (arith, length-append m p) in
    let low : q * 64 ≤ length m = omega arith in
    let both : (q + k) * 64 ≡ q * 64 + k * 64 = omega arith in
    let rest : drop ((q + k) * 64) (m ++ p) ≡ drop (k * 64) (drop (q * 64) m ++ p) =
      ap (λ n. drop n (m ++ p)) both
      ∙ sym (drop-drop (k * 64) (q * 64) (m ++ p))
      ∙ ap (drop (k * 64)) (drop-append (q * 64) m p low) in
    (λ i. record {
      state = transform_blocks (whole i) initial (m ++ p);
      count = count i;
      buf = drop (whole i * 64) (m ++ p);
    })
    ∙ (λ i. record {
      state = transform_blocks_on q k initial m p low i;
      count = (length m + length p) % 2 ^ 64;
      buf = rest i;
    })

none_left : (xs : List ℕ) → length xs ≡ 0 → xs ≡ []
none_left [] h = refl
none_left (x ∷ xs) h = absurd (omega arith)

no_blocks :
    (s : Vars) (count : ℕ) (p : List ℕ)
    → context 0 s count p ≡ record { state = s; count = count; buf = p }
unfolding transform_blocks
no_blocks s count p = refl

-- A first block that the buffer begins, and the rest.
first_block :
    (s : Vars) (count : ℕ) (b p : List ℕ)
    → length b < 64
    → 64 - length b ≤ length p
    → context ((length b + length p) / 64) s count (b ++ p)
      ≡ absorb_rest
          (sha256_transform s (b ++ take (64 - length b) p))
          count
          (drop (64 - length b) p)
unfolding transform_blocks absorb_rest
first_block s count b p small enough =
    let need = 64 - length b in
    let n = length (drop need p) / 64 in
    let rounds : (length b + length p) / 64 ≡ suc n = omega (arith, length-drop need p) in
    let head = take-append_long 64 b p (omega arith) in
    let tail = drop-append_long 64 b p (omega arith) in
    let left : suc n * 64 ≡ 64 + n * 64 = omega arith in
    ap (λ k. context k s count (b ++ p)) rounds ∙ (λ i. record {
      state = transform_blocks n (sha256_transform s (head i)) (tail i);
      count = count;
      buf =
          (ap (λ k. drop k (b ++ p)) left
              ∙ sym (drop-drop (n * 64) 64 (b ++ p))
              ∙ ap (drop (n * 64)) tail)
            i;
    })

-- opssl_sha256_update behind a message is as if its bytes had been part of it.
pub sha256_update-after : (m p : List ℕ) → sha256_update (after m) p ≡ after (m ++ p)
unfolding sha256_update absorb_rest
sha256_update-after m p =
    let r = length m % 64 in
    let b = (after m).buf in
    let s = (after m).state in
    let count = (length m + length p) % 2 ^ 64 in
    let buffered : bit_and (length m % 2 ^ 64) 63 ≡ r =
      omega (arith, bit_and_mask 6 63 (length m % 2 ^ 64) refl) in
    let size : length b ≡ r = omega (arith, length-drop (length m / 64 * 64) m) in
    let counted : (length m % 2 ^ 64 + length p) % 2 ^ 64 ≡ count = omega arith in
    elim (Bool-cases (ltb 0 r)) [
      | inr e ↦
          let empty : b ≡ [] = none_left b (ground arith) in
          let same : (r + length p) / 64 ≡ length p / 64 = ground arith in
          rw (buffered, e, counted)
            (sym (after-append m p ∙ (λ i. context (same i) s count (empty i ++ p))))
      | inl e ↦ elim (Bool-cases (ltb (length p) (64 - r))) [
        | inl short ↦
            let none : (r + length p) / 64 ≡ 0 = ground arith in
            rw (buffered, e, short, counted)
              (sym (
                after-append m p
                ∙ ap (λ k. context k s count (b ++ p)) none
                ∙ no_blocks s count (b ++ p)))
        | inr long ↦
            rw (buffered, e, long, counted)
              (sym (
                after-append m p
                ∙ ap (λ k. context ((k + length p) / 64) s count (b ++ p)) (sym size)
                ∙ first_block s count b p (omega arith) (ground arith)
                ∙ ap
                    (λ k.
                      absorb_rest (sha256_transform s (b ++ take (64 - k) p)) count
                        (drop (64 - k) p))
                    size))
      ]
    ]
