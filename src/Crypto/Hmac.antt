-- ===== src/Crypto/Hmac.antt =====
-- src/crypto/hmac.c: HMAC over the hash functions, whose calls are a parameter here.
pub mod Rfc2104
pub mod OverSha256
use opssl.Base.{
  ℕ, ◌-◌, ◌+◌, List, [], ◌∷◌, ◌++◌, map, length, take, replicate, bit_xor, ltb, if◌then◌else◌,
}

-- opssl_hmac_algo_t
pub data HmacAlgo : Type 0 where
  hmac_sha256 hmac_sha384 hmac_sha512 hmac_sha1 : HmacAlgo

-- The calls of the hash of an algorithm: the streaming ones on its context, and the one that takes
-- a whole message.
pub record HashCalls : Type 1 where
  pub State : HmacAlgo → Type 0
  pub start : (algo : HmacAlgo) → State algo
  pub absorb : (algo : HmacAlgo) → State algo → List ℕ → State algo
  pub finish : (algo : HmacAlgo) → State algo → List ℕ
  pub digest : HmacAlgo → List ℕ → List ℕ

-- get_block_size
abbrev pub block_size : HmacAlgo → ℕ
block_size hmac_sha1 = 64
block_size hmac_sha256 = 64
block_size hmac_sha384 = 128
block_size hmac_sha512 = 128

-- get_digest_size
abbrev pub digest_size : HmacAlgo → ℕ
digest_size hmac_sha1 = 20
digest_size hmac_sha256 = 32
digest_size hmac_sha384 = 48
digest_size hmac_sha512 = 64

-- The bytes of a pad: those of the key block, each with this mask.
abbrev pub pad_with : ℕ → List ℕ → List ℕ
pad_with mask = map (λ b. bit_xor b mask)

module _ (h : HashCalls) where
  -- opssl_hmac_ctx_t, whose sizes follow from the algorithm
  pub record HmacCtx (algo : HmacAlgo) : Type 0 where
    pub inner : h.State algo
    pub key_pad : List ℕ

  -- The first bytes of `key_block`, as many as a block has: the key or its hash, and zeros.
  unfoldable pub key_block : HmacAlgo → List ℕ → List ℕ
  key_block algo key =
      let short = if ltb (block_size algo) (length key) then h.digest algo key else key in
      take (block_size algo) (short ++ replicate 128 0)

  -- opssl_hmac_init
  unfoldable pub hmac_init : (algo : HmacAlgo) → List ℕ → HmacCtx algo
  hmac_init algo key = record {
    inner = h.absorb algo (h.start algo) (pad_with 0x36 (key_block algo key));
    key_pad = pad_with 0x5c (key_block algo key);
  }

  -- opssl_hmac_update
  unfoldable pub hmac_update : (algo : HmacAlgo) → HmacCtx algo → List ℕ → HmacCtx algo
  hmac_update algo ctx bytes = record {
    inner = h.absorb algo ctx.inner bytes;
    key_pad = ctx.key_pad;
  }

  -- opssl_hmac_final: the digest of the outer hash.
  unfoldable pub hmac_final : (algo : HmacAlgo) → HmacCtx algo → List ℕ
  hmac_final algo ctx =
      let inner_hash = h.finish algo ctx.inner in
      let outer = h.absorb algo (h.start algo) ctx.key_pad in
      h.finish algo (h.absorb algo outer inner_hash)

  -- A call of opssl_hmac_update for each of these.
  unfoldable pub hmac_updates : (algo : HmacAlgo) → HmacCtx algo → List (List ℕ) → HmacCtx algo
  hmac_updates algo ctx [] = ctx
  hmac_updates algo ctx (bytes ∷ later) = hmac_updates algo (hmac_update algo ctx bytes) later

  -- opssl_hmac
  unfoldable pub hmac : HmacAlgo → List ℕ → List ℕ → List ℕ
  hmac algo key message = hmac_final algo (hmac_update algo (hmac_init algo key) message)
