-- ===== src/Crypto/ChaCha20/Rfc8439.antt =====
-- ChaCha20 as RFC 8439 writes it, on a matrix of sixteen words, and that src/crypto/chacha20.c
-- computes it.
use opssl.Base.{
  ℕ, zero, suc, ◌+◌, ◌-◌, ◌*◌, ◌/◌, ◌%◌, ◌^◌, ◌<◌, ◌≤◌, ◌≡◌, refl, sym, arith, ap, ◌∙◌, List, [],
  ◌∷◌, ◌++◌, bit_or, bit_xor, length, drop, get_or,
}
use opssl.Crypto.ChaCha20.Stream.{
  chacha20-key_stream, key_stream, length-key_stream, length-initial_state,
}
use opssl.Crypto.LittleEndian.{load32_le, store32_le}
use opssl.Crypto.ChaCha20.{
  rotl32, half_step, quarter_round, double_round, double_rounds, add_words, chacha20_block,
  store_words, xor_bytes, initial_state, next_state, chacha20,
}

-- Section 2.1: the four steps on the words a, b, c and d.
abbrev pub rotated : ℕ → ℕ → ℕ
rotated x n = bit_or (x * 2 ^ n % 2 ^ 32) (x / 2 ^ (32 - n))

unfoldable pub quarter : ℕ → ℕ → ℕ → ℕ → ℕ × ℕ × ℕ × ℕ
quarter a b c d =
    let a1 = (a + b) % 2 ^ 32 in
    let d1 = rotated (bit_xor d a1) 16 in
    let c1 = (c + d1) % 2 ^ 32 in
    let b1 = rotated (bit_xor b c1) 12 in
    let a2 = (a1 + b1) % 2 ^ 32 in
    let d2 = rotated (bit_xor d1 a2) 8 in
    let c2 = (c1 + d2) % 2 ^ 32 in let b2 = rotated (bit_xor b1 c2) 7 in (a2, b2, c2, d2)

-- Section 2.3: the matrix, row by row.
pub data Matrix : Type 0 where
  matrix : ℕ → ℕ → ℕ → ℕ → ℕ → ℕ → ℕ → ℕ → ℕ → ℕ → ℕ → ℕ → ℕ → ℕ → ℕ → ℕ → Matrix

abbrev pub words : Matrix → List ℕ
words (matrix x0 x1 x2 x3 x4 x5 x6 x7 x8 x9 x10 x11 x12 x13 x14 x15) =
    x0 ∷ x1 ∷ x2 ∷ x3 ∷ x4 ∷ x5 ∷ x6 ∷ x7 ∷ x8 ∷ x9 ∷ x10 ∷ x11 ∷ x12 ∷ x13 ∷ x14 ∷ x15 ∷ []

-- The rounds on the columns.
unfoldable pub column_rounds : Matrix → Matrix
column_rounds (matrix x0 x1 x2 x3 x4 x5 x6 x7 x8 x9 x10 x11 x12 x13 x14 x15) =
    let (y0, y4, y8, y12) = quarter x0 x4 x8 x12 in
    let (y1, y5, y9, y13) = quarter x1 x5 x9 x13 in
    let (y2, y6, y10, y14) = quarter x2 x6 x10 x14 in
    let (y3, y7, y11, y15) = quarter x3 x7 x11 x15 in
    matrix y0 y1 y2 y3 y4 y5 y6 y7 y8 y9 y10 y11 y12 y13 y14 y15

-- The rounds on the diagonals.
unfoldable pub diagonal_rounds : Matrix → Matrix
diagonal_rounds (matrix x0 x1 x2 x3 x4 x5 x6 x7 x8 x9 x10 x11 x12 x13 x14 x15) =
    let (y0, y5, y10, y15) = quarter x0 x5 x10 x15 in
    let (y1, y6, y11, y12) = quarter x1 x6 x11 x12 in
    let (y2, y7, y8, y13) = quarter x2 x7 x8 x13 in
    let (y3, y4, y9, y14) = quarter x3 x4 x9 x14 in
    matrix y0 y1 y2 y3 y4 y5 y6 y7 y8 y9 y10 y11 y12 y13 y14 y15

column_round :
    (m : Matrix)
    → quarter_round 3 7 11 15
        (quarter_round 2 6 10 14 (quarter_round 1 5 9 13 (quarter_round 0 4 8 12 (words m))))
      ≡ words (column_rounds m)
unfolding quarter_round half_step rotl32 column_rounds quarter
column_round (matrix x0 x1 x2 x3 x4 x5 x6 x7 x8 x9 x10 x11 x12 x13 x14 x15) = refl

diagonal_round :
    (m : Matrix)
    → quarter_round 3 4 9 14
        (quarter_round 2 7 8 13 (quarter_round 1 6 11 12 (quarter_round 0 5 10 15 (words m))))
      ≡ words (diagonal_rounds m)
unfolding quarter_round half_step rotl32 diagonal_rounds quarter
diagonal_round (matrix x0 x1 x2 x3 x4 x5 x6 x7 x8 x9 x10 x11 x12 x13 x14 x15) = refl

unfoldable pub rfc_rounds : ℕ → Matrix → Matrix
rfc_rounds zero m = m
rfc_rounds (suc n) m = rfc_rounds n (diagonal_rounds (column_rounds m))

rfc_rounds_lem : (n : ℕ) (m : Matrix) → double_rounds n (words m) ≡ words (rfc_rounds n m)
unfolding double_rounds double_round rfc_rounds
rfc_rounds_lem zero m = refl
rfc_rounds_lem (suc n) m =
    let next =
      ap
        (λ x.
          quarter_round 3 4 9 14
            (quarter_round 2 7 8 13 (quarter_round 1 6 11 12 (quarter_round 0 5 10 15 x))))
        (column_round m)
      ∙ diagonal_round (column_rounds m) in
    ap (double_rounds n) next ∙ rfc_rounds_lem n (diagonal_rounds (column_rounds m))

-- The sums of the words, each as four bytes, the lowest first.
unfoldable pub sums : List ℕ → List ℕ → List ℕ
sums [] ys = []
sums (x ∷ xs) [] = []
sums (x ∷ xs) (y ∷ ys) =
    let w = (x + y) % 2 ^ 32 in
    (w % 256) ∷ (w / 2 ^ 8 % 256) ∷ (w / 2 ^ 16 % 256) ∷ (w / 2 ^ 24 % 256) ∷ sums xs ys

sums_lem : (xs ys : List ℕ) → store_words (add_words xs ys) ≡ sums xs ys
unfolding sums add_words store_words store32_le
sums_lem [] ys = refl
sums_lem (x ∷ xs) [] = refl
sums_lem (x ∷ xs) (y ∷ ys) =
    let w = (x + y) % 2 ^ 32 in
    ap (λ l. (w % 256) ∷ (w / 2 ^ 8 % 256) ∷ (w / 2 ^ 16 % 256) ∷ (w / 2 ^ 24 % 256) ∷ l)
      (sums_lem xs ys)

-- Twenty rounds, and the sum with the matrix at the start.
abbrev pub rfc_block : Matrix → List ℕ
rfc_block m = sums (words (rfc_rounds 10 m)) (words m)

-- Four bytes, the lowest first.
abbrev pub rfc_word : List ℕ → ℕ → ℕ
rfc_word bytes i =
    let p = drop (4 * i) bytes in
    bit_or
      (bit_or (bit_or (get_or p 0 0) (get_or p 1 0 * 2 ^ 8 % 2 ^ 32))
        (get_or p 2 0 * 2 ^ 16 % 2 ^ 32))
      (get_or p 3 0 * 2 ^ 24 % 2 ^ 32)

-- "expand 32-byte k", the key, the counter of the block and the nonce.
unfoldable pub rfc_matrix : List ℕ → List ℕ → ℕ → Matrix
rfc_matrix key nonce counter =
    matrix 1634760805 857760878 2036477234 1797285236 (rfc_word key 0) (rfc_word key 1)
      (rfc_word key 2) (rfc_word key 3) (rfc_word key 4) (rfc_word key 5) (rfc_word key 6)
      (rfc_word key 7) counter (rfc_word nonce 0) (rfc_word nonce 1) (rfc_word nonce 2)

-- `n` blocks, whose counters go up by one from `counter` on, in 32 bits.
unfoldable pub rfc_stream : ℕ → List ℕ → List ℕ → ℕ → List ℕ
rfc_stream zero key nonce counter = []
rfc_stream (suc n) key nonce counter =
    rfc_block (rfc_matrix key nonce counter) ++ rfc_stream n key nonce ((counter + 1) % 2 ^ 32)

initial_state_lem :
    (key nonce : List ℕ) (counter : ℕ)
    → initial_state key nonce counter ≡ words (rfc_matrix key nonce counter)
unfolding initial_state rfc_matrix load32_le
initial_state_lem key nonce counter = refl

block_lem :
    (key nonce : List ℕ) (counter : ℕ)
    → store_words (chacha20_block (initial_state key nonce counter))
      ≡ rfc_block (rfc_matrix key nonce counter)
unfolding chacha20_block
block_lem key nonce counter =
    let m = rfc_matrix key nonce counter in
    ap (λ s. store_words (chacha20_block s)) (initial_state_lem key nonce counter)
    ∙ sums_lem (double_rounds 10 (words m)) (words m)
    ∙ ap (λ s. sums s (words m)) (rfc_rounds_lem 10 m)

next_state_lem :
    (key nonce : List ℕ) (counter : ℕ)
    → next_state (initial_state key nonce counter)
      ≡ initial_state key nonce ((counter + 1) % 2 ^ 32)
unfolding next_state initial_state
next_state_lem key nonce counter = refl

key_stream_lem :
    (n : ℕ) (key nonce : List ℕ) (counter : ℕ)
    → key_stream n (initial_state key nonce counter) ≡ rfc_stream n key nonce counter
unfolding key_stream rfc_stream
key_stream_lem zero key nonce counter = refl
key_stream_lem (suc n) key nonce counter =
    let later =
      ap (key_stream n) (next_state_lem key nonce counter)
      ∙ key_stream_lem n key nonce ((counter + 1) % 2 ^ 32) in
    λ i. block_lem key nonce counter i ++ later i

get_or-xor_bytes :
    (xs ks : List ℕ) (i : ℕ)
    → length xs ≤ length ks
    → i < length xs
    → get_or (xor_bytes xs ks) i 0 ≡ bit_xor (get_or xs i 0) (get_or ks i 0)
unfolding xor_bytes
get_or-xor_bytes [] ks i h l = absurd (omega arith)
get_or-xor_bytes (x ∷ xs) [] i h l = absurd (omega arith)
get_or-xor_bytes (x ∷ xs) (k ∷ ks) zero h l = refl
get_or-xor_bytes (x ∷ xs) (k ∷ ks) (suc i) h l =
    get_or-xor_bytes xs ks i (omega arith) (omega arith)

-- The output of opssl_chacha20 has the length of its input, and each of its bytes is the exclusive or
-- of that byte of the input with the key stream of RFC 8439: the blocks of the key and the nonce
-- whose counters go up by one from `counter` on, in 32 bits, each of 64 bytes.
pub chacha20_lem :
    (input key nonce : List ℕ) (counter i : ℕ)
    → i < length input
    → let stream = rfc_stream (length input) key nonce counter in
      (length (chacha20 input key nonce counter) ≡ length input)
      × (length stream ≡ 64 * length input)
      × (get_or (chacha20 input key nonce counter) i 0
          ≡ bit_xor (get_or input i 0) (get_or stream i 0))
chacha20_lem input key nonce counter i inside =
    let n = length input in
    let (same, size) = chacha20-key_stream input key nonce counter in
    let streams = key_stream_lem n key nonce counter in
    let blocks : length (rfc_stream n key nonce counter) ≡ 64 * n =
      ap length (sym streams)
      ∙ length-key_stream n (initial_state key nonce counter)
          (length-initial_state key nonce counter) in
    (
      size,
      blocks,
      ap (λ l. get_or l i 0) (same ∙ ap (xor_bytes input) streams)
          ∙ get_or-xor_bytes input (rfc_stream n key nonce counter) i (omega arith) inside,
    )
