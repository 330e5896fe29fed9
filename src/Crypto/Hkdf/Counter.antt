-- ===== src/Crypto/Hkdf/Counter.antt =====
-- The counter of opssl_hkdf_expand has eight bits.
use opssl.Base.{
  ℕ, zero, suc, ◌+◌, ◌-◌, ◌*◌, ◌/◌, ◌%◌, ◌^◌, ◌≤◌, ◌<◌, min, ◌≡◌, refl, ap, true, List, [], take,
  leb, arith,
}
use opssl.Crypto.Hmac.{
  HmacAlgo, hmac_sha1, hmac_sha256, hmac_sha384, hmac_sha512, HashCalls, digest_size,
}
use opssl.Crypto.Hkdf.{running, behind, next_t, expand_loop, hkdf_expand}

-- With 255 rounds to do, the test of the counter never fails.
runs_on :
    (h : HashCalls) (algo : HmacAlgo) (prk info t : List ℕ) (fuel i left : ℕ)
    → i < 256
    → expand_loop h algo prk info 255 fuel i t left ≡ running
unfolding expand_loop
runs_on h algo prk info t zero i left small = refl
runs_on h algo prk info t (suc fuel) i left small =
    let within : leb i 255 ≡ true = ground arith in
    let t' = next_t h algo prk info t i in
    let copy = min left (digest_size algo) in
    let later = runs_on h algo prk info t' fuel ((i + 1) % 2 ^ 8) (left - copy) (omega arith) in
    rw within (ap (behind (take copy t')) later)

all_rounds :
    (algo : HmacAlgo) (okm_len : ℕ)
    → 254 * digest_size algo < okm_len
    → okm_len ≤ 255 * digest_size algo
    → (okm_len + digest_size algo - 1) % 2 ^ 64 / digest_size algo ≡ 255
all_rounds hmac_sha1 okm_len low high = omega arith
all_rounds hmac_sha256 okm_len low high = omega arith
all_rounds hmac_sha384 okm_len low high = omega arith
all_rounds hmac_sha512 okm_len low high = omega arith

-- For more than 254 digests and up to 255, which RFC 5869 allows, opssl_hkdf_expand never ends:
-- however many rounds it is given, it is still in its loop, as its counter of eight bits goes back to
-- zero before it is above 255.
pub hkdf_expand_runs_on :
    (h : HashCalls) (algo : HmacAlgo) (prk info : List ℕ) (okm_len fuel : ℕ)
    → 254 * digest_size algo < okm_len
    → okm_len ≤ 255 * digest_size algo
    → hkdf_expand h algo prk info okm_len fuel ≡ running
unfolding hkdf_expand
hkdf_expand_runs_on h algo prk info okm_len fuel low high =
    rw (all_rounds algo okm_len low high) (runs_on h algo prk info [] fuel 1 okm_len (omega arith))
