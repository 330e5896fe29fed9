-- ===== src/Crypto/LittleEndian.antt =====
-- load32_le and store32_le, which src/crypto/chacha20.c and src/crypto/poly1305.c both define, and
-- store64_le of src/crypto/chacha20_poly1305.c.
use opssl.Base.{ℕ, ◌/◌, ◌%◌, ◌^◌, List, [], ◌∷◌, bit_or}
use opssl.Bytes.{byte_at, shl32}

unfoldable pub load32_le : List ℕ → ℕ
load32_le p =
    bit_or (bit_or (bit_or (byte_at p 0) (shl32 (byte_at p 1) 8)) (shl32 (byte_at p 2) 16))
      (shl32 (byte_at p 3) 24)

unfoldable pub store32_le : ℕ → List ℕ
store32_le v = (v % 256) ∷ (v / 2 ^ 8 % 256) ∷ (v / 2 ^ 16 % 256) ∷ (v / 2 ^ 24 % 256) ∷ []

unfoldable pub store64_le : ℕ → List ℕ
store64_le v =
    (v % 256)
    ∷ (v / 2 ^ 8 % 256)
    ∷ (v / 2 ^ 16 % 256)
    ∷ (v / 2 ^ 24 % 256)
    ∷ (v / 2 ^ 32 % 256)
    ∷ (v / 2 ^ 40 % 256)
    ∷ (v / 2 ^ 48 % 256)
    ∷ (v / 2 ^ 56 % 256)
    ∷ []
