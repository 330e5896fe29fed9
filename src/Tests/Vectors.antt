-- ===== src/Tests/Vectors.antt =====
-- The test vectors of RFC 8439 for ChaCha20 and Poly1305, and one of FIPS 180-4 for SHA-256.
use opssl.Base.{ℕ, ◌≡◌, refl, List, [], ◌∷◌, replicate}
use opssl.Crypto.LittleEndian.{load32_le, store32_le}
use opssl.Crypto.ChaCha20.{
  rotl32, half_step, quarter_round, double_round, double_rounds, add_words, chacha20_block,
  store_words, xor_bytes, initial_state, next_state, chacha20_loop, chacha20,
}
use opssl.Bytes.{be32, put_be32, put_be64}
use opssl.Crypto.Sha256.{
  sha256, sha256_update, sha256_final, absorb_rest, transform_blocks, sha256_transform, digest_of,
  sha_rounds, sha_round, extend_words, block_words, ror32,
}
use opssl.Crypto.Poly1305.{
  poly1305_init, add_block, products, carry_products, poly1305_blocks, update_rest, poly1305_update,
  last_block, carry_limbs, less_prime, reduced, tag_of, poly1305_final, poly1305,
}

abbrev block_key : List ℕ
block_key =
    0 ∷ 1 ∷ 2 ∷ 3 ∷ 4 ∷ 5 ∷ 6 ∷ 7 ∷ 8 ∷ 9 ∷ 10 ∷ 11 ∷ 12 ∷ 13 ∷ 14 ∷ 15 ∷ 16 ∷ 17 ∷ 18 ∷ 19 ∷ 20
    ∷ 21 ∷ 22 ∷ 23 ∷ 24 ∷ 25 ∷ 26 ∷ 27 ∷ 28 ∷ 29 ∷ 30 ∷ 31 ∷ []

abbrev block_nonce : List ℕ
block_nonce = 0 ∷ 0 ∷ 0 ∷ 9 ∷ 0 ∷ 0 ∷ 0 ∷ 74 ∷ 0 ∷ 0 ∷ 0 ∷ 0 ∷ []

chacha20_block_vector :
    chacha20 (replicate 64 0) block_key block_nonce 1
    ≡ 16 ∷ 241 ∷ 231 ∷ 228 ∷ 209 ∷ 59 ∷ 89 ∷ 21 ∷ 80 ∷ 15 ∷ 221 ∷ 31 ∷ 163 ∷ 32 ∷ 113 ∷ 196 ∷ 199
      ∷ 209 ∷ 244 ∷ 199 ∷ 51 ∷ 192 ∷ 104 ∷ 3 ∷ 4 ∷ 34 ∷ 170 ∷ 154 ∷ 195 ∷ 212 ∷ 108 ∷ 78 ∷ 210 ∷ 130
      ∷ 100 ∷ 70 ∷ 7 ∷ 159 ∷ 170 ∷ 9 ∷ 20 ∷ 194 ∷ 215 ∷ 5 ∷ 217 ∷ 139 ∷ 2 ∷ 162 ∷ 181 ∷ 18 ∷ 156
      ∷ 209 ∷ 222 ∷ 22 ∷ 78 ∷ 185 ∷ 203 ∷ 208 ∷ 131 ∷ 232 ∷ 162 ∷ 80 ∷ 60 ∷ 78 ∷ []
unfolding load32_le store32_le rotl32 half_step quarter_round double_round double_rounds add_words
    chacha20_block store_words xor_bytes initial_state next_state chacha20_loop chacha20
chacha20_block_vector = refl

abbrev tag_key : List ℕ
tag_key =
    133 ∷ 214 ∷ 190 ∷ 120 ∷ 87 ∷ 85 ∷ 109 ∷ 51 ∷ 127 ∷ 68 ∷ 82 ∷ 254 ∷ 66 ∷ 213 ∷ 6 ∷ 168 ∷ 1 ∷ 3
    ∷ 128 ∷ 138 ∷ 251 ∷ 13 ∷ 178 ∷ 253 ∷ 74 ∷ 191 ∷ 246 ∷ 175 ∷ 65 ∷ 73 ∷ 245 ∷ 27 ∷ []

abbrev tag_message : List ℕ
tag_message =
    67 ∷ 114 ∷ 121 ∷ 112 ∷ 116 ∷ 111 ∷ 103 ∷ 114 ∷ 97 ∷ 112 ∷ 104 ∷ 105 ∷ 99 ∷ 32 ∷ 70 ∷ 111 ∷ 114
    ∷ 117 ∷ 109 ∷ 32 ∷ 82 ∷ 101 ∷ 115 ∷ 101 ∷ 97 ∷ 114 ∷ 99 ∷ 104 ∷ 32 ∷ 71 ∷ 114 ∷ 111 ∷ 117 ∷ 112
    ∷ []

poly1305_vector :
    poly1305 tag_message tag_key
    ≡ 168 ∷ 6 ∷ 29 ∷ 193 ∷ 48 ∷ 81 ∷ 54 ∷ 198 ∷ 194 ∷ 43 ∷ 139 ∷ 175 ∷ 12 ∷ 1 ∷ 39 ∷ 169 ∷ []
unfolding load32_le store32_le poly1305_init add_block products carry_products poly1305_blocks
    update_rest poly1305_update last_block carry_limbs less_prime reduced tag_of poly1305_final
    poly1305
poly1305_vector = refl

-- The digest of `abc` in FIPS 180-4.
sha256_vector :
    sha256 (97 ∷ 98 ∷ 99 ∷ [])
    ≡ 186 ∷ 120 ∷ 22 ∷ 191 ∷ 143 ∷ 1 ∷ 207 ∷ 234 ∷ 65 ∷ 65 ∷ 64 ∷ 222 ∷ 93 ∷ 174 ∷ 34 ∷ 35 ∷ 176 ∷ 3
      ∷ 97 ∷ 163 ∷ 150 ∷ 23 ∷ 122 ∷ 156 ∷ 180 ∷ 16 ∷ 255 ∷ 97 ∷ 242 ∷ 0 ∷ 21 ∷ 173 ∷ []
unfolding sha256 sha256_update sha256_final absorb_rest transform_blocks sha256_transform digest_of
    sha_rounds sha_round extend_words block_words ror32 be32 put_be32 put_be64
sha256_vector = refl
