-- ===== src/Crypto/ChaCha20Poly1305.antt =====
-- src/crypto/chacha20_poly1305.c: the AEAD.
pub mod Open
use opssl.Base.{
  ℕ, ◌+◌, ◌-◌, ◌^◌, ◌%◌, Bool, Option, none, some, List, ◌++◌, length, take, drop, replicate, ltb,
  ◌==◌, if◌then◌else◌, bit_and,
}
use opssl.Crypto.LittleEndian.{store64_le}
use opssl.Crypto.ConstantTime.{ct_eq}
use opssl.Crypto.ChaCha20.{chacha20}
use opssl.Crypto.Poly1305.{poly1305_init, poly1305_update, poly1305_final}

-- pad16
unfoldable pub pad16 : ℕ → ℕ
pad16 len = let rem = bit_and len 0xf in if ltb 0 rem then 16 - rem else 0

-- compute_tag
unfoldable pub compute_tag : List ℕ → List ℕ → List ℕ → List ℕ
compute_tag poly_key aad ct =
    let lengths = store64_le (length aad) ++ store64_le (length ct) in
    let st0 = poly1305_init poly_key in
    let st1 = poly1305_update st0 aad in
    let st2 = poly1305_update st1 (replicate (pad16 (length aad)) 0) in
    let st3 = poly1305_update st2 ct in
    let st4 = poly1305_update st3 (replicate (pad16 (length ct)) 0) in
    poly1305_final (poly1305_update st4 lengths)

-- The one-time key of Poly1305.
abbrev pub poly_key : List ℕ → List ℕ → List ℕ
poly_key key nonce = chacha20 (replicate 32 0) key nonce 0

-- opssl_chacha20_poly1305_seal: the bytes of `out`; `none` is the return value 0.
unfoldable pub seal : ℕ → List ℕ → List ℕ → List ℕ → List ℕ → Option (List ℕ)
seal max_out key nonce plaintext aad =
    let ct = chacha20 plaintext key nonce 1 in
    if ltb (2 ^ 64 - 1 - 16) (length plaintext)
    then none
    else if ltb max_out (length plaintext + 16)
    then none
    else some (ct ++ compute_tag (poly_key key nonce) aad ct)

-- opssl_chacha20_poly1305_open
unfoldable pub open_ : ℕ → List ℕ → List ℕ → List ℕ → List ℕ → Option (List ℕ)
open_ max_out key nonce ciphertext aad =
    let pt_len = length ciphertext - 16 in
    let ct = take pt_len ciphertext in
    let expected_tag = compute_tag (poly_key key nonce) aad ct in
    if ltb (length ciphertext) 16
    then none
    else if ltb max_out pt_len
    then none
    else if ct_eq expected_tag (drop pt_len ciphertext) 16 == 0
    then none
    else some (chacha20 ct key nonce 1)
