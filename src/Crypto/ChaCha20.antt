-- ===== src/Crypto/ChaCha20.antt =====
-- src/crypto/chacha20.c: ChaCha20, as compiled without AVX2. A state is its sixteen words.
pub mod Stream
pub mod Rfc8439
use opssl.Base.{
  ℕ, zero, suc, ◌+◌, ◌-◌, ◌*◌, ◌/◌, ◌%◌, ◌^◌, List, [], ◌∷◌, ◌++◌, bit_or, bit_xor, get_or, set,
  take, drop, length,
}
use opssl.Bytes.{shl32}
use opssl.Crypto.LittleEndian.{load32_le, store32_le}

abbrev pub word : List ℕ → ℕ → ℕ
word s i = get_or s i 0

abbrev pub add32 : ℕ → ℕ → ℕ
add32 a b = (a + b) % 2 ^ 32

-- ROTL32
unfoldable pub rotl32 : ℕ → ℕ → ℕ
rotl32 x n = bit_or (shl32 x n) (x / 2 ^ (32 - n))

-- `a += b; d ^= a; d = ROTL32(d, n);`
unfoldable pub half_step : ℕ → ℕ → ℕ → ℕ → List ℕ → List ℕ
half_step a b d n x =
    let x1 = set x a (add32 (word x a) (word x b)) in
    let x2 = set x1 d (bit_xor (word x1 d) (word x1 a)) in set x2 d (rotl32 (word x2 d) n)

-- QR, on the words with these indices
unfoldable pub quarter_round : ℕ → ℕ → ℕ → ℕ → List ℕ → List ℕ
quarter_round a b c d x =
    half_step c d b 7 (half_step a b d 8 (half_step c d b 12 (half_step a b d 16 x)))

-- The body of the loop of chacha20_block: four column rounds, then four diagonal ones.
unfoldable pub double_round : List ℕ → List ℕ
double_round x =
    let y =
      quarter_round 3 7 11 15
        (quarter_round 2 6 10 14 (quarter_round 1 5 9 13 (quarter_round 0 4 8 12 x))) in
    quarter_round 3 4 9 14
      (quarter_round 2 7 8 13 (quarter_round 1 6 11 12 (quarter_round 0 5 10 15 y)))

unfoldable pub double_rounds : ℕ → List ℕ → List ℕ
double_rounds zero x = x
double_rounds (suc n) x = double_rounds n (double_round x)

unfoldable pub add_words : List ℕ → List ℕ → List ℕ
add_words [] ys = []
add_words (x ∷ xs) [] = []
add_words (x ∷ xs) (y ∷ ys) = add32 x y ∷ add_words xs ys

-- chacha20_block
unfoldable pub chacha20_block : List ℕ → List ℕ
chacha20_block input = add_words (double_rounds 10 input) input

-- The loop that stores the words of a block.
unfoldable pub store_words : List ℕ → List ℕ
store_words [] = []
store_words (w ∷ ws) = store32_le w ++ store_words ws

-- `out[i] = in[i] ^ keystream[i]`, for the bytes of `input`
unfoldable pub xor_bytes : List ℕ → List ℕ → List ℕ
xor_bytes [] keystream = []
xor_bytes (x ∷ xs) [] = []
xor_bytes (x ∷ xs) (k ∷ ks) = bit_xor x k ∷ xor_bytes xs ks

-- The state at the start.
unfoldable pub initial_state : List ℕ → List ℕ → ℕ → List ℕ
initial_state key nonce counter =
    0x61707865
    ∷ 0x3320646e
    ∷ 0x79622d32
    ∷ 0x6b206574
    ∷ load32_le key
    ∷ load32_le (drop 4 key)
    ∷ load32_le (drop 8 key)
    ∷ load32_le (drop 12 key)
    ∷ load32_le (drop 16 key)
    ∷ load32_le (drop 20 key)
    ∷ load32_le (drop 24 key)
    ∷ load32_le (drop 28 key)
    ∷ counter
    ∷ load32_le nonce
    ∷ load32_le (drop 4 nonce)
    ∷ load32_le (drop 8 nonce)
    ∷ []

-- `state[12]++`
unfoldable pub next_state : List ℕ → List ℕ
next_state s = set s 12 (add32 (word s 12) 1)

-- The loop over the input, a block of 64 bytes at a time, with `fuel` rounds.
unfoldable pub chacha20_loop : ℕ → List ℕ → List ℕ → List ℕ
chacha20_loop zero state input = []
chacha20_loop (suc fuel) state [] = []
chacha20_loop (suc fuel) state (x ∷ xs) =
    xor_bytes (take 64 (x ∷ xs)) (store_words (chacha20_block state))
    ++ chacha20_loop fuel (next_state state) (drop 64 (x ∷ xs))

-- opssl_chacha20: each round takes a byte or more, so that a round for each byte is enough.
unfoldable pub chacha20 : List ℕ → List ℕ → List ℕ → ℕ → List ℕ
chacha20 input key nonce counter =
    chacha20_loop (length input) (initial_state key nonce counter) input
