-- ===== src/Crypto/Sha256/Compression.antt =====
-- The compression of SHA-256 as FIPS 180-4 writes it, and that src/crypto/sha256.c computes it.
use opssl.Base.{
  ℕ, zero, suc, ◌+◌, ◌-◌, ◌*◌, ◌/◌, ◌%◌, ◌^◌, ◌≡◌, refl, sym, ap, ◌∙◌, List, [], ◌∷◌, ◌++◌, bit_and,
  bit_or, bit_xor, get_or, length, take, drop, drop-drop, append_assoc, length-append, arith,
}
use opssl.Bytes.{be32, put_be32}
use opssl.Crypto.Sha256.Constants.{round_constants, start_words, round_constants-k256}
use opssl.Crypto.Sha256.{
  k256, initial, Vars, ror32, block_words, extend_words, sha_round, sha_rounds, sha256_transform,
  digest_of, transform_blocks,
}

-- Section 4.1.2: the functions on words.
abbrev pub rotr : ℕ → ℕ → ℕ
rotr n x = bit_or (x / 2 ^ n) (x * 2 ^ (32 - n) % 2 ^ 32)

abbrev pub choose : ℕ → ℕ → ℕ → ℕ
choose x y z = bit_xor (bit_and x y) (bit_and (2 ^ 32 - 1 - x) z)

abbrev pub majority : ℕ → ℕ → ℕ → ℕ
majority x y z = bit_xor (bit_xor (bit_and x y) (bit_and x z)) (bit_and y z)

abbrev pub big_sigma0 : ℕ → ℕ
big_sigma0 x = bit_xor (bit_xor (rotr 2 x) (rotr 13 x)) (rotr 22 x)

abbrev pub big_sigma1 : ℕ → ℕ
big_sigma1 x = bit_xor (bit_xor (rotr 6 x) (rotr 11 x)) (rotr 25 x)

abbrev pub small_sigma0 : ℕ → ℕ
small_sigma0 x = bit_xor (bit_xor (rotr 7 x) (rotr 18 x)) (x / 2 ^ 3)

abbrev pub small_sigma1 : ℕ → ℕ
small_sigma1 x = bit_xor (bit_xor (rotr 17 x) (rotr 19 x)) (x / 2 ^ 10)

-- The words of a block, `n` of them from the `i`th on.
abbrev pub message_word : List ℕ → ℕ
message_word p =
    bit_or
      (bit_or (bit_or (get_or p 0 0 * 2 ^ 24 % 2 ^ 32) (get_or p 1 0 * 2 ^ 16 % 2 ^ 32))
        (get_or p 2 0 * 2 ^ 8 % 2 ^ 32))
      (get_or p 3 0)

unfoldable pub message_words : ℕ → ℕ → List ℕ → List ℕ
message_words zero i block = []
message_words (suc n) i block = message_word (drop (4 * i) block) ∷ message_words n (i + 1) block

block_words_lem :
    (n i : ℕ) (block : List ℕ) → block_words n (drop (4 * i) block) ≡ message_words n i block
unfolding block_words message_words be32
block_words_lem zero i block = refl
block_words_lem (suc n) i block =
    let later : drop 4 (drop (4 * i) block) ≡ drop (4 * (i + 1)) block =
      drop-drop 4 (4 * i) block
      ∙ ap (λ k. drop k block) {x = 4 * i + 4} {y = 4 * (i + 1)} (omega arith) in
    ap (λ l. message_word (drop (4 * i) block) ∷ l)
      (ap (block_words n) later ∙ block_words_lem n (i + 1) block)

-- The schedule: the words of the block, and each later one from the sixteen in front of it.
unfoldable pub schedule : ℕ → List ℕ → List ℕ
schedule zero window = window
schedule (suc n) [] = []
schedule (suc n) (w ∷ ws) =
    let later =
      (small_sigma1 (get_or ws 13 0) + get_or ws 8 0 + small_sigma0 (get_or ws 0 0) + w) % 2 ^ 32 in
    w ∷ schedule n (ws ++ (later ∷ []))

get_or-append :
    (front l : List ℕ) (i k : ℕ) → i ≡ length front + k → get_or (front ++ l) i 0 ≡ get_or l k 0
get_or-append [] l i k e = ap (λ j. get_or l j 0) {x = i} {y = k} (omega arith)
get_or-append (x ∷ front) l zero k e = absurd (omega arith)
get_or-append (x ∷ front) l (suc i) k e = get_or-append front l i k (omega arith)

extend_words_lem :
    (n i : ℕ) (front window : List ℕ)
    → length window ≡ 16
    → i ≡ length front + 16
    → extend_words n i (front ++ window) ≡ front ++ schedule n window
unfolding extend_words schedule ror32
extend_words_lem zero i front window size at = refl
extend_words_lem (suc n) i front [] size at = absurd (omega arith)
extend_words_lem (suc n) i front (w ∷ ws) size at =
    let l = w ∷ ws in
    let word : ℕ =
      (small_sigma1 (get_or ws 13 0) + get_or ws 8 0 + small_sigma0 (get_or ws 0 0) + w) % 2 ^ 32 in
    let moved : (front ++ l) ++ (word ∷ []) ≡ (front ++ (w ∷ [])) ++ (ws ++ (word ∷ [])) =
      append_assoc front l (word ∷ []) ∙ sym (append_assoc front (w ∷ []) (ws ++ (word ∷ []))) in
    let next =
      extend_words_lem n (i + 1) (front ++ (w ∷ [])) (ws ++ (word ∷ []))
        (omega (arith, length-append ws (word ∷ [])))
        (omega (arith, length-append front (w ∷ []))) in
    rw
      (
        get_or-append front l (i - 2) 14 (omega arith),
        get_or-append front l (i - 7) 9 (omega arith),
        get_or-append front l (i - 15) 1 (omega arith),
        get_or-append front l (i - 16) 0 (omega arith),
      )
      (ap (extend_words n (i + 1)) moved
        ∙ next
        ∙ append_assoc front (w ∷ []) (schedule n (ws ++ (word ∷ []))))

-- Section 6.2.2: the eight working variables, and a round.
pub data Registers : Type 0 where
  registers : ℕ → ℕ → ℕ → ℕ → ℕ → ℕ → ℕ → ℕ → Registers

-- Section 5.3.3: the first hash value.
abbrev pub from_words : List ℕ → Registers
from_words ws =
    registers (get_or ws 0 0) (get_or ws 1 0) (get_or ws 2 0) (get_or ws 3 0) (get_or ws 4 0)
      (get_or ws 5 0) (get_or ws 6 0) (get_or ws 7 0)

abbrev pub registers_of : Vars → Registers
registers_of v = registers v.a v.b v.c v.d v.e v.f v.g v.h

unfoldable pub fips_round : ℕ → ℕ → Registers → Registers
fips_round k w (registers a b c d e f g h) =
    let t1 = (h + big_sigma1 e + choose e f g + k + w) % 2 ^ 32 in
    let t2 = (big_sigma0 a + majority a b c) % 2 ^ 32 in
    registers ((t1 + t2) % 2 ^ 32) a b c ((d + t1) % 2 ^ 32) e f g

unfoldable pub fips_rounds : List ℕ → List ℕ → Registers → Registers
fips_rounds [] ws r = r
fips_rounds (k ∷ ks) [] r = r
fips_rounds (k ∷ ks) (w ∷ ws) r = fips_rounds ks ws (fips_round k w r)

pub from_words-initial : from_words start_words ≡ registers_of initial
from_words-initial = refl

sha_round_lem :
    (k w : ℕ) (v : Vars) → registers_of (sha_round k w v) ≡ fips_round k w (registers_of v)
unfolding sha_round fips_round ror32
sha_round_lem k w v = refl

sha_rounds_lem :
    (ks ws : List ℕ) (v : Vars)
    → registers_of (sha_rounds ks ws v) ≡ fips_rounds ks ws (registers_of v)
unfolding sha_rounds fips_rounds
sha_rounds_lem [] ws v = refl
sha_rounds_lem (k ∷ ks) [] v = refl
sha_rounds_lem (k ∷ ks) (w ∷ ws) v =
    sha_rounds_lem ks ws (sha_round k w v) ∙ ap (fips_rounds ks ws) (sha_round_lem k w v)

abbrev pub plus : Registers → Registers → Registers
plus (registers a b c d e f g h) (registers a' b' c' d' e' f' g' h') =
    registers ((a + a') % 2 ^ 32) ((b + b') % 2 ^ 32) ((c + c') % 2 ^ 32) ((d + d') % 2 ^ 32)
      ((e + e') % 2 ^ 32) ((f + f') % 2 ^ 32) ((g + g') % 2 ^ 32) ((h + h') % 2 ^ 32)

-- The next hash value.
unfoldable pub compress : Registers → List ℕ → Registers
compress r block = plus r (fips_rounds round_constants (schedule 48 (message_words 16 0 block)) r)

length-message_words : (n i : ℕ) (block : List ℕ) → length (message_words n i block) ≡ n
unfolding message_words
length-message_words zero i block = refl
length-message_words (suc n) i block = ap suc (length-message_words n (i + 1) block)

pub sha256_transform_lem :
    (s : Vars) (block : List ℕ)
    → registers_of (sha256_transform s block) ≡ compress (registers_of s) block
unfolding sha256_transform compress
sha256_transform_lem s block =
    let w = message_words 16 0 block in
    let words : block_words 16 block ≡ w = block_words_lem 16 0 block in
    let longer : extend_words 48 16 (block_words 16 block) ≡ schedule 48 w =
      ap (extend_words 48 16) words
      ∙ extend_words_lem 48 16 [] w (length-message_words 16 0 block) refl in
    ap (plus (registers_of s)) (
      sha_rounds_lem k256 (extend_words 48 16 (block_words 16 block)) s ∙ λ i.
      fips_rounds (sym round_constants-k256 i) (longer i) (registers_of s))

-- The digest: four bytes of each word, the highest first.
abbrev word_bytes : ℕ → List ℕ
word_bytes w = (w / 2 ^ 24 % 256) ∷ (w / 2 ^ 16 % 256) ∷ (w / 2 ^ 8 % 256) ∷ (w % 256) ∷ []

unfoldable pub fips_digest : Registers → List ℕ
fips_digest (registers a b c d e f g h) =
    word_bytes a
    ++ word_bytes b
    ++ word_bytes c
    ++ word_bytes d
    ++ word_bytes e
    ++ word_bytes f
    ++ word_bytes g
    ++ word_bytes h

pub digest_of_lem : (s : Vars) → digest_of s ≡ fips_digest (registers_of s)
unfolding digest_of fips_digest put_be32
digest_of_lem s = refl

-- The hash value behind `n` blocks.
unfoldable pub fips_blocks : ℕ → Registers → List ℕ → Registers
fips_blocks zero r p = r
fips_blocks (suc n) r p = fips_blocks n (compress r (take 64 p)) (drop 64 p)

pub transform_blocks_lem :
    (n : ℕ) (s : Vars) (p : List ℕ)
    → registers_of (transform_blocks n s p) ≡ fips_blocks n (registers_of s) p
unfolding transform_blocks fips_blocks
transform_blocks_lem zero s p = refl
transform_blocks_lem (suc n) s p =
    transform_blocks_lem n (sha256_transform s (take 64 p)) (drop 64 p)
    ∙ ap (λ r. fips_blocks n r (drop 64 p)) (sha256_transform_lem s (take 64 p))

pub length-fips_digest : (r : Registers) → length (fips_digest r) ≡ 32
unfolding fips_digest
length-fips_digest (registers a b c d e f g h) = refl
