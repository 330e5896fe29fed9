-- ===== src/Crypto/Hmac/OverSha256.antt =====
-- SHA-256 meets the contract of a hash function that HMAC takes.
use opssl.Base.{ℕ, ◌≡◌, refl, sym, ap, ◌∙◌, List, [], ◌∷◌, concat, length}
use opssl.Crypto.Sha256.{Sha256Ctx, sha256_init, sha256_update, sha256_final, sha256}
use opssl.Crypto.Sha256.Constants.{start_words}
use opssl.Crypto.Sha256.Compression.{from_words, fips_blocks, length-fips_digest}
use opssl.Crypto.Sha256.Fips180.{sha256_updates, padded, fips_sha256, sha256_final-sha256_updates}
use opssl.Crypto.Sha256.Final.{block_count}
use opssl.Crypto.Hmac.{HmacAlgo, hmac_sha256, hmac_sha384, hmac_sha512, hmac_sha1, HashCalls}
use opssl.Crypto.Hmac.Rfc2104.{IsHash, absorbed}

-- The calls of the four hash functions, SHA-256 among them; the other ones are a parameter.
module _ (others : HashCalls) where
  abbrev StateOf : HmacAlgo → Type 0
  StateOf hmac_sha256 = Sha256Ctx
  StateOf hmac_sha384 = others.State hmac_sha384
  StateOf hmac_sha512 = others.State hmac_sha512
  StateOf hmac_sha1 = others.State hmac_sha1

  abbrev start_of : (algo : HmacAlgo) → StateOf algo
  start_of hmac_sha256 = sha256_init
  start_of hmac_sha384 = others.start hmac_sha384
  start_of hmac_sha512 = others.start hmac_sha512
  start_of hmac_sha1 = others.start hmac_sha1

  abbrev absorb_of : (algo : HmacAlgo) → StateOf algo → List ℕ → StateOf algo
  absorb_of hmac_sha256 = sha256_update
  absorb_of hmac_sha384 = others.absorb hmac_sha384
  absorb_of hmac_sha512 = others.absorb hmac_sha512
  absorb_of hmac_sha1 = others.absorb hmac_sha1

  abbrev finish_of : (algo : HmacAlgo) → StateOf algo → List ℕ
  finish_of hmac_sha256 = sha256_final
  finish_of hmac_sha384 = others.finish hmac_sha384
  finish_of hmac_sha512 = others.finish hmac_sha512
  finish_of hmac_sha1 = others.finish hmac_sha1

  abbrev digest_by : HmacAlgo → List ℕ → List ℕ
  digest_by hmac_sha256 = sha256
  digest_by hmac_sha384 = others.digest hmac_sha384
  digest_by hmac_sha512 = others.digest hmac_sha512
  digest_by hmac_sha1 = others.digest hmac_sha1

  abbrev pub hash_calls : HashCalls
  hash_calls = record {
    State = StateOf;
    start = start_of;
    absorb = absorb_of;
    finish = finish_of;
    digest = digest_by;
  }

  absorbed-sha256 :
      (ctx : Sha256Ctx) (pieces : List (List ℕ))
      → absorbed hash_calls hmac_sha256 ctx pieces ≡ sha256_updates ctx pieces
  absorbed-sha256 ctx [] = refl
  absorbed-sha256 ctx (bytes ∷ later) = absorbed-sha256 (sha256_update ctx bytes) later

length-fips_sha256 : (m : List ℕ) → length (fips_sha256 m) ≡ 32
length-fips_sha256 m =
    length-fips_digest (fips_blocks (block_count (length m)) (from_words start_words) (padded m))

pub hash_calls-IsHash : (others : HashCalls) → IsHash (hash_calls others) hmac_sha256
hash_calls-IsHash others = record {
  streams = λ pieces.
      ap sha256_final (absorbed-sha256 others sha256_init pieces)
      ∙ (sha256_final-sha256_updates pieces (concat pieces)).0
      ∙ sym (sha256_final-sha256_updates pieces (concat pieces)).1;
  size =
      λ message. ap length (sha256_final-sha256_updates [] message).1 ∙ length-fips_sha256 message;
}
