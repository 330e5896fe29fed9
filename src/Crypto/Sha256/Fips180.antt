-- ===== src/Crypto/Sha256/Fips180.antt =====
-- SHA-256 as FIPS 180-4 defines it, over a padded message, and that src/crypto/sha256.c computes it,
-- however the message is cut into pieces.
use opssl.Base.{
  concat, ℕ, ◌*◌, ◌/◌, ◌%◌, ◌^◌, ◌≡◌, refl, sym, ap, ◌∙◌, List, [], ◌∷◌, ◌++◌, length, replicate,
  append-nil, append_assoc, arith,
}
use opssl.Bytes.{put_be32, put_be64}
use opssl.Crypto.Sha256.{
  Sha256Ctx, initial, sha256_init, transform_blocks, sha256_update, sha256_final, sha256,
}
use opssl.Crypto.Sha256.Constants.{start_words}
use opssl.Crypto.Sha256.Compression.{
  from_words, from_words-initial, fips_blocks, transform_blocks_lem, fips_digest, digest_of_lem,
}
use opssl.Crypto.Sha256.Stream.{after, sha256_update-after}
use opssl.Crypto.Sha256.Final.{
  zeros_for, block_count, streamed_bytes, streamed_digest, sha256_final-after,
}

-- The number of bits as eight bytes, the highest first.
abbrev pub bit_count : ℕ → List ℕ
bit_count n =
    (n / 2 ^ 56 % 256)
    ∷ (n / 2 ^ 48 % 256)
    ∷ (n / 2 ^ 40 % 256)
    ∷ (n / 2 ^ 32 % 256)
    ∷ (n / 2 ^ 24 % 256)
    ∷ (n / 2 ^ 16 % 256)
    ∷ (n / 2 ^ 8 % 256)
    ∷ (n % 256)
    ∷ []

bit_count-put_be64 : (n : ℕ) → put_be64 (n % 2 ^ 64) ≡ bit_count n
unfolding put_be64 put_be32
bit_count-put_be64 n =
    let m = n % 2 ^ 64 in
    let b0 : m / 2 ^ 32 % 2 ^ 32 / 2 ^ 24 % 256 ≡ n / 2 ^ 56 % 256 = omega arith in
    let b1 : m / 2 ^ 32 % 2 ^ 32 / 2 ^ 16 % 256 ≡ n / 2 ^ 48 % 256 = omega arith in
    let b2 : m / 2 ^ 32 % 2 ^ 32 / 2 ^ 8 % 256 ≡ n / 2 ^ 40 % 256 = omega arith in
    let b3 : m / 2 ^ 32 % 2 ^ 32 % 256 ≡ n / 2 ^ 32 % 256 = omega arith in
    let b4 : m % 2 ^ 32 / 2 ^ 24 % 256 ≡ n / 2 ^ 24 % 256 = omega arith in
    let b5 : m % 2 ^ 32 / 2 ^ 16 % 256 ≡ n / 2 ^ 16 % 256 = omega arith in
    let b6 : m % 2 ^ 32 / 2 ^ 8 % 256 ≡ n / 2 ^ 8 % 256 = omega arith in
    let b7 : m % 2 ^ 32 % 256 ≡ n % 256 = omega arith in
    λ i. b0 i ∷ b1 i ∷ b2 i ∷ b3 i ∷ b4 i ∷ b5 i ∷ b6 i ∷ b7 i ∷ []

-- Section 5.1.1: the padded message.
abbrev pub padded : List ℕ → List ℕ
padded m = m ++ (0x80 ∷ (replicate (zeros_for (length m)) 0 ++ bit_count (8 * length m)))

-- Section 6.2: the digest of the padded message, block by block.
abbrev pub fips_sha256 : List ℕ → List ℕ
fips_sha256 m =
    fips_digest (fips_blocks (block_count (length m)) (from_words start_words) (padded m))

streamed_digest-fips_sha256 : (m : List ℕ) → streamed_digest m ≡ fips_sha256 m
streamed_digest-fips_sha256 m =
    let len = length m in
    let n = block_count len in
    let bits : put_be64 (len * 8 % 2 ^ 64) ≡ bit_count (8 * len) =
      bit_count-put_be64 (len * 8) ∙ ap bit_count {x = len * 8} {y = 8 * len} (omega arith) in
    let same : streamed_bytes m ≡ padded m =
      ap (λ l. m ++ (0x80 ∷ (replicate (zeros_for len) 0 ++ l))) bits in
    digest_of_lem (transform_blocks n initial (streamed_bytes m))
    ∙ ap fips_digest (
        transform_blocks_lem n initial (streamed_bytes m) ∙ λ i.
        fips_blocks n (sym from_words-initial i) (same i))

-- A call of opssl_sha256_update for each piece.
abbrev pub sha256_updates : Sha256Ctx → List (List ℕ) → Sha256Ctx
sha256_updates ctx [] = ctx
sha256_updates ctx (bytes ∷ later) = sha256_updates (sha256_update ctx bytes) later

sha256_updates-after :
    (m : List ℕ) (pieces : List (List ℕ))
    → sha256_updates (after m) pieces ≡ after (m ++ concat pieces)
sha256_updates-after m [] = ap after (sym (append-nil m))
sha256_updates-after m (bytes ∷ later) =
    ap (λ ctx. sha256_updates ctx later) (sha256_update-after m bytes)
    ∙ sha256_updates-after (m ++ bytes) later
    ∙ ap after (append_assoc m bytes (concat later))

sha256_init-after : sha256_init ≡ after []
unfolding transform_blocks
sha256_init-after = refl

-- opssl_sha256_init, any calls of opssl_sha256_update and opssl_sha256_final compute SHA-256 of all
-- their pieces together as FIPS 180-4 defines it, and so does opssl_sha256 of a message. A message of
-- 2^64 bits or more, which the standard leaves out, is padded with the lowest 64 bits of that number.
pub sha256_final-sha256_updates :
    (pieces : List (List ℕ)) (message : List ℕ)
    → (sha256_final (sha256_updates sha256_init pieces) ≡ fips_sha256 (concat pieces))
      × (sha256 message ≡ fips_sha256 message)
unfolding sha256
sha256_final-sha256_updates pieces message =
    let every : (l : List (List ℕ))
        → sha256_final (sha256_updates sha256_init l) ≡ fips_sha256 (concat l) =
      λ l.
        ap (λ ctx. sha256_final (sha256_updates ctx l)) sha256_init-after
        ∙ ap sha256_final (sha256_updates-after [] l)
        ∙ sha256_final-after (concat l)
        ∙ streamed_digest-fips_sha256 (concat l) in
    (every pieces, every (message ∷ []) ∙ ap fips_sha256 (append-nil message))
