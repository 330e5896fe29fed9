-- ===== src/Tests/Derivation.antt =====
-- HMAC and HKDF over SHA-256.
use opssl.Base.{ℕ, ◌+◌, ◌≡◌, refl, List, [], ◌∷◌, ◌++◌, length, take, replicate, arith}
use opssl.Bytes.{be32, put_be32, put_be64}
use opssl.Crypto.Sha256.{
  sha256_init, sha256, sha256_update, sha256_final, absorb_rest, transform_blocks, sha256_transform,
  digest_of, sha_rounds, sha_round, extend_words, block_words, ror32,
}
use opssl.Crypto.Sha256.Fips180.{sha256_updates, fips_sha256, sha256_final-sha256_updates}
use opssl.Crypto.Hmac.{
  hmac_sha256, HashCalls, key_block, hmac_init, hmac_update, hmac_updates, hmac_final, hmac,
}
use opssl.Crypto.Hmac.Rfc2104.{rfc_hmac, hmac_final-hmac_updates}
use opssl.Crypto.Hmac.OverSha256.{hash_calls, hash_calls-IsHash}
use opssl.Crypto.Hkdf.{hkdf_extract, next_t, expand_loop, hkdf_expand, expanded, running}
use opssl.Crypto.Hkdf.Rfc5869.{rfc_stream, rounds_for, hkdf_expand_lem}
use opssl.Crypto.Hkdf.Counter.{hkdf_expand_runs_on}

-- SHA-256, beside functions that keep their input.
abbrev no_others : HashCalls
no_others = record {
  State = λ algo. List ℕ;
  start = λ algo. [];
  absorb = λ algo s bytes. s ++ bytes;
  finish = λ algo s. s;
  digest = λ algo message. message;
}

abbrev hashes : HashCalls
hashes = hash_calls no_others

-- The first test case of RFC 5869.
abbrev ikm : List ℕ
ikm = replicate 22 11

abbrev salt : List ℕ
salt = 0 ∷ 1 ∷ 2 ∷ 3 ∷ 4 ∷ 5 ∷ 6 ∷ 7 ∷ 8 ∷ 9 ∷ 10 ∷ 11 ∷ 12 ∷ []

abbrev info : List ℕ
info = 240 ∷ 241 ∷ 242 ∷ 243 ∷ 244 ∷ 245 ∷ 246 ∷ 247 ∷ 248 ∷ 249 ∷ []

abbrev okm : List ℕ
okm =
    60 ∷ 178 ∷ 95 ∷ 37 ∷ 250 ∷ 172 ∷ 213 ∷ 122 ∷ 144 ∷ 67 ∷ 79 ∷ 100 ∷ 208 ∷ 54 ∷ 47 ∷ 42 ∷ 45 ∷ 45
    ∷ 10 ∷ 144 ∷ 207 ∷ 26 ∷ 90 ∷ 76 ∷ 93 ∷ 176 ∷ 45 ∷ 86 ∷ 236 ∷ 196 ∷ 197 ∷ 191 ∷ 52 ∷ 0 ∷ 114 ∷ 8
    ∷ 213 ∷ 184 ∷ 135 ∷ 24 ∷ 88 ∷ 101 ∷ []

hkdf_vector :
    hkdf_expand hashes hmac_sha256 (hkdf_extract hashes hmac_sha256 salt ikm) info 42 256
    ≡ expanded okm
unfolding hkdf_expand hkdf_extract expand_loop next_t hmac hmac_init hmac_update hmac_updates
    hmac_final key_block sha256 sha256_update sha256_final absorb_rest transform_blocks
    sha256_transform digest_of sha_rounds sha_round extend_words block_words ror32 be32 put_be32
    put_be64
hkdf_vector = refl

abbrev in_pieces : List (List ℕ)
in_pieces = (1 ∷ 2 ∷ []) ∷ [] ∷ (3 ∷ []) ∷ []

sha256_final-sha256_updates_example :
    (sha256_final (sha256_updates sha256_init in_pieces) ≡ fips_sha256 (1 ∷ 2 ∷ 3 ∷ []))
    × (sha256 salt ≡ fips_sha256 salt)
sha256_final-sha256_updates_example = sha256_final-sha256_updates in_pieces salt

hmac_final-hmac_updates_example :
    hmac_final hashes hmac_sha256
      (hmac_updates hashes hmac_sha256 (hmac_init hashes hmac_sha256 salt) in_pieces)
    ≡ rfc_hmac hashes hmac_sha256 salt (1 ∷ 2 ∷ 3 ∷ [])
hmac_final-hmac_updates_example =
    hmac_final-hmac_updates hashes hmac_sha256 salt in_pieces (hash_calls-IsHash no_others)

hkdf_expand_lem_example :
    (hkdf_expand hashes hmac_sha256 salt info 42 (256 + 0)
      ≡ expanded
          (take 42 (rfc_stream hashes hmac_sha256 salt info (rounds_for hmac_sha256 42) 1 [])))
    × (length (take 42 (rfc_stream hashes hmac_sha256 salt info (rounds_for hmac_sha256 42) 1 []))
        ≡ 42)
hkdf_expand_lem_example =
    hkdf_expand_lem hashes hmac_sha256 salt info 42 0 (hash_calls-IsHash no_others) (omega arith)

hkdf_expand_runs_on_example : hkdf_expand hashes hmac_sha256 salt info 8160 1000 ≡ running
hkdf_expand_runs_on_example =
    hkdf_expand_runs_on hashes hmac_sha256 salt info 8160 1000 (omega arith) (omega arith)
