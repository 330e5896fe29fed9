-- ===== src/Bytes.antt =====
-- Byte buffers: the big-endian loads and stores of include/opssl/platform.h, and stores into a buffer.
-- A pointer is the list of the bytes that follow it; a byte read past the end is 0 here, and the
-- callers' theorems show that no such read happens.
pub mod Values
pub mod Store
use opssl.Base.{
  ℕ, suc, ◌+◌, ◌*◌, ◌/◌, ◌%◌, ◌^◌, ◌<◌, List, [], ◌∷◌, ◌++◌, bit_or, get_or, set, drop, All,
}

abbrev pub IsByte : ℕ → Type 0
IsByte b = b < 256

-- A shift of a `uint32_t` or a `uint64_t` to the left drops what leaves the word.
abbrev pub shl32 : ℕ → ℕ → ℕ
shl32 x k = x * 2 ^ k % 2 ^ 32

abbrev pub shl64 : ℕ → ℕ → ℕ
shl64 x k = x * 2 ^ k % 2 ^ 64

abbrev pub byte_at : List ℕ → ℕ → ℕ
byte_at p i = get_or p i 0

-- opssl_be16
unfoldable pub be16 : List ℕ → ℕ
be16 p = bit_or (byte_at p 0 * 2 ^ 8) (byte_at p 1) % 2 ^ 16

-- The three bytes that opssl_cbs_get_u24 puts together.
unfoldable pub be24 : List ℕ → ℕ
be24 p = bit_or (bit_or (shl32 (byte_at p 0) 16) (shl32 (byte_at p 1) 8)) (byte_at p 2)

-- opssl_be32
unfoldable pub be32 : List ℕ → ℕ
be32 p =
    bit_or
      (bit_or (bit_or (shl32 (byte_at p 0) 24) (shl32 (byte_at p 1) 16)) (shl32 (byte_at p 2) 8))
      (byte_at p 3)

-- opssl_be64
unfoldable pub be64 : List ℕ → ℕ
be64 p = bit_or (shl64 (be32 p) 32) (be32 (drop 4 p))

-- The bytes that opssl_put_be16, opssl_put_be32 and opssl_put_be64 store, and the three that
-- opssl_cbb_add_u24 stores.
unfoldable pub put_be16 : ℕ → List ℕ
put_be16 v = (v / 2 ^ 8 % 256) ∷ (v % 256) ∷ []

unfoldable pub put_be24 : ℕ → List ℕ
put_be24 v = (v / 2 ^ 16 % 256) ∷ (v / 2 ^ 8 % 256) ∷ (v % 256) ∷ []

unfoldable pub put_be32 : ℕ → List ℕ
put_be32 v = (v / 2 ^ 24 % 256) ∷ (v / 2 ^ 16 % 256) ∷ (v / 2 ^ 8 % 256) ∷ (v % 256) ∷ []

unfoldable pub put_be64 : ℕ → List ℕ
put_be64 v = put_be32 (v / 2 ^ 32 % 2 ^ 32) ++ put_be32 (v % 2 ^ 32)

-- `memcpy(buf + pos, bytes, n)`, a byte at a time.
unfoldable pub store : List ℕ → ℕ → List ℕ → List ℕ
store buf pos [] = buf
store buf pos (b ∷ bs) = store (set buf pos b) (pos + 1) bs
