-- ===== src/Crypto/Sha256/Final.antt =====
-- opssl_sha256_final of src/crypto/sha256.c, as the digest of the blocks of the message with its padding.
use opssl.Base.{
  ℕ, zero, suc, ◌+◌, ◌-◌, ◌*◌, ◌/◌, ◌%◌, ◌^◌, ◌≤◌, ◌<◌, ◌≡◌, refl, sym, ap, ◌∙◌, Bool-cases, inl,
  inr, List, [], ◌∷◌, ◌++◌, length, take, drop, replicate, length-drop, length-append,
  length-replicate, append-nil, append_assoc, take_all, take-append_long, drop-append_long, bit_and,
  ltb, arith,
}
use opssl.Base.Bits.{bit_and_mask}
use opssl.Bytes.{put_be32, put_be64}
use opssl.Crypto.Sha256.{Vars, initial, sha256_transform, transform_blocks, sha256_final, digest_of}
use opssl.Crypto.Sha256.Blocks.{transform_blocks_on}
use opssl.Crypto.Sha256.Stream.{after}

-- The zeros behind the one that ends a message.
abbrev pub zeros_for : ℕ → ℕ
zeros_for len = (119 - len % 64) % 64

-- The message, a one bit, zeros, and the number of its bits, as the code writes it.
abbrev pub streamed_bytes : List ℕ → List ℕ
streamed_bytes m =
    m ++ (0x80 ∷ (replicate (zeros_for (length m)) 0 ++ put_be64 (length m * 8 % 2 ^ 64)))

abbrev pub block_count : ℕ → ℕ
block_count len = (len + 9 + zeros_for len) / 64

abbrev pub streamed_digest : List ℕ → List ℕ
streamed_digest m = digest_of (transform_blocks (block_count (length m)) initial (streamed_bytes m))

one_block : (s : Vars) (p : List ℕ) → length p ≡ 64 → transform_blocks 1 s p ≡ sha256_transform s p
unfolding transform_blocks
one_block s p size = ap (sha256_transform s) (take_all 64 p (omega arith))

two_blocks :
    (s : Vars) (p q : List ℕ)
    → length p ≡ 64
    → length q ≡ 64
    → transform_blocks 2 s (p ++ q) ≡ sha256_transform (sha256_transform s p) q
unfolding transform_blocks
two_blocks s p q size size' =
    let none_left : 64 - length p ≡ 0 = omega arith in
    let head : take 64 (p ++ q) ≡ p =
      take-append_long 64 p q (omega arith) ∙ ap (λ k. p ++ take k q) none_left ∙ append-nil p in
    let tail : drop 64 (p ++ q) ≡ q =
      drop-append_long 64 p q (omega arith) ∙ ap (λ k. drop k q) none_left in
    (λ i. sha256_transform (sha256_transform s (head i)) (take 64 (tail i)))
    ∙ ap (sha256_transform (sha256_transform s p)) (take_all 64 q (omega arith))

replicate-add : (n m : ℕ) → replicate {A = ℕ} (n + m) 0 ≡ replicate n 0 ++ replicate m 0
replicate-add zero m = ap (λ k. replicate k 0) {x = zero + m} {y = m} (omega arith)
replicate-add (suc n) m =
    ap (λ k. replicate k 0) {x = suc n + m} {y = suc (n + m)} (omega arith)
    ∙ ap (λ l. 0 ∷ l) (replicate-add n m)

length-put_be64 : (v : ℕ) → length (put_be64 v) ≡ 8
unfolding put_be64 put_be32
length-put_be64 v = refl

-- What is left of a message, the one bit, and what comes behind: the last block.
ends_in_one :
    (s : Vars) (b bits : List ℕ) (n : ℕ)
    → length bits ≡ 8
    → length b + n ≡ 55
    → transform_blocks 1 s (b ++ (0x80 ∷ (replicate n 0 ++ bits)))
      ≡ sha256_transform s ((b ++ (0x80 ∷ [])) ++ (replicate n 0 ++ bits))
ends_in_one s b bits n eight fits =
    let tail = replicate n 0 ++ bits in
    let block = (b ++ (0x80 ∷ [])) ++ tail in
    let size : length block ≡ 64 = omega (
      arith,
      length-append (b ++ (0x80 ∷ [])) tail,
      length-append b (0x80 ∷ []),
      length-append (replicate n 0) bits,
      length-replicate {A = ℕ} n 0,
    ) in
    ap (transform_blocks 1 s) (sym (append_assoc b (0x80 ∷ []) tail)) ∙ one_block s block size

-- Or the last two.
ends_in_two :
    (s : Vars) (b bits : List ℕ) (n : ℕ)
    → length bits ≡ 8
    → length b + n ≡ 63
    → transform_blocks 2 s (b ++ (0x80 ∷ (replicate (n + 56) 0 ++ bits)))
      ≡ sha256_transform
          (sha256_transform s ((b ++ (0x80 ∷ [])) ++ replicate n 0))
          (replicate 56 0 ++ bits)
ends_in_two s b bits n eight fits =
    let ended = b ++ (0x80 ∷ []) in
    let first = ended ++ replicate n 0 in
    let second = replicate 56 0 ++ bits in
    let size : length first ≡ 64 = omega (
      arith,
      length-append ended (replicate n 0),
      length-append b (0x80 ∷ []),
      length-replicate {A = ℕ} n 0,
    ) in
    let size' : length second ≡ 64 = omega (arith, length-append (replicate {A = ℕ} 56 0) bits) in
    let zeros : replicate (n + 56) 0 ++ bits ≡ replicate n 0 ++ second =
      ap (λ l. l ++ bits) (replicate-add n 56)
      ∙ append_assoc (replicate n 0) (replicate 56 0) bits in
    ap (λ l. transform_blocks 2 s (b ++ (0x80 ∷ l))) zeros
    ∙ ap (transform_blocks 2 s) (
        sym (append_assoc b (0x80 ∷ []) (replicate n 0 ++ second))
        ∙ sym (append_assoc ended (replicate n 0) second))
    ∙ two_blocks s first second size size'

pub sha256_final-after : (m : List ℕ) → sha256_final (after m) ≡ streamed_digest m
unfolding sha256_final
sha256_final-after m =
    let len = length m in
    let q = len / 64 in
    let r = len % 64 in
    let b = (after m).buf in
    let s = (after m).state in
    let bits = put_be64 (len * 8 % 2 ^ 64) in
    let tail = 0x80 ∷ (replicate (zeros_for len) 0 ++ bits) in
    let buffered : bit_and (len % 2 ^ 64) 63 ≡ r =
      omega (arith, bit_and_mask 6 63 (len % 2 ^ 64) refl) in
    let size : length b ≡ r = omega (arith, length-drop (q * 64) m) in
    let count : len % 2 ^ 64 * 8 % 2 ^ 64 ≡ len * 8 % 2 ^ 64 = omega arith in
    let eight = length-put_be64 (len * 8 % 2 ^ 64) in
    let low : q * 64 ≤ len = omega arith in
    elim (Bool-cases (ltb 56 (r + 1))) [
      | inl e ↦
          let late : 56 < r + 1 = ground arith in
          let n : 64 - (r + 1) ≡ 63 - r = omega arith in
          let zeros : zeros_for len ≡ 63 - r + 56 = omega arith in
          let blocks : block_count len ≡ q + 2 = omega arith in
          rw (buffered, count, e, n)
            (sym (
              ap (λ k. digest_of (transform_blocks k initial (streamed_bytes m))) blocks
              ∙ ap digest_of (
                  transform_blocks_on q 2 initial m tail low
                  ∙ ap (λ z. transform_blocks 2 s (b ++ (0x80 ∷ (replicate z 0 ++ bits)))) zeros
                  ∙ ends_in_two s b bits (63 - r) eight (omega arith))))
      | inr e ↦
          let early : r + 1 ≤ 56 = ground arith in
          let n : 56 - (r + 1) ≡ 55 - r = omega arith in
          let zeros : zeros_for len ≡ 55 - r = omega arith in
          let blocks : block_count len ≡ q + 1 = omega arith in
          rw (buffered, count, e, n)
            (sym (
              ap (λ k. digest_of (transform_blocks k initial (streamed_bytes m))) blocks
              ∙ ap digest_of (
                  transform_blocks_on q 1 initial m tail low
                  ∙ ap (λ z. transform_blocks 1 s (b ++ (0x80 ∷ (replicate z 0 ++ bits)))) zeros
                  ∙ ends_in_one s b bits (55 - r) eight (omega arith))))
    ]
