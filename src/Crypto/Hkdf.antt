-- ===== src/Crypto/Hkdf.antt =====
-- src/crypto/hkdf.c: HKDF over HMAC.
pub mod Rfc5869
pub mod Counter
pub mod Label
use opssl.Base.{
  ℕ, zero, suc, ◌+◌, ◌-◌, ◌*◌, ◌/◌, ◌%◌, ◌^◌, min, List, [], ◌∷◌, ◌++◌, length, take, replicate,
  ltb, leb, ◌==◌, if◌then◌else◌,
}
use opssl.Crypto.Hmac.{HmacAlgo, HashCalls, digest_size, hmac_init, hmac_updates, hmac_final, hmac}

-- What opssl_hkdf_expand does: it refuses (the return value 0), it is still in its loop, or it has
-- written these bytes to `okm`.
pub data Expansion : Type 0 where
  refused : Expansion
  running : Expansion
  expanded : List ℕ → Expansion

-- Behind what is written before.
abbrev pub behind : List ℕ → Expansion → Expansion
behind front refused = refused
behind front running = running
behind front (expanded bytes) = expanded (front ++ bytes)

-- The pieces that opssl_hmac_update gets, where they have bytes.
abbrev pub piece : List ℕ → List (List ℕ)
piece [] = []
piece (b ∷ bytes) = (b ∷ bytes) ∷ []

module _ (h : HashCalls) where
  -- opssl_hkdf_extract: the pseudorandom key. No salt is the empty one.
  unfoldable pub hkdf_extract : HmacAlgo → List ℕ → List ℕ → List ℕ
  hkdf_extract algo [] ikm = hmac h algo (replicate (digest_size algo) 0) ikm
  hkdf_extract algo (b ∷ salt) ikm = hmac h algo (b ∷ salt) ikm

  -- The HMAC of a round of the loop.
  unfoldable pub next_t : HmacAlgo → List ℕ → List ℕ → List ℕ → ℕ → List ℕ
  next_t algo prk info t i =
      hmac_final h algo
        (hmac_updates h algo (hmac_init h algo prk) (piece t ++ (piece info ++ ((i ∷ []) ∷ []))))

  -- The loop, whose counter has eight bits, with `fuel` rounds; `left` is okm_len - offset.
  unfoldable pub expand_loop : HmacAlgo → List ℕ → List ℕ → ℕ → ℕ → ℕ → List ℕ → ℕ → Expansion
  expand_loop algo prk info n zero i t left = running
  expand_loop algo prk info n (suc fuel) i t left =
      let t' = next_t algo prk info t i in
      let copy = min left (digest_size algo) in
      let rest = expand_loop algo prk info n fuel ((i + 1) % 2 ^ 8) t' (left - copy) in
      if leb i n then behind (take copy t') rest else expanded []

  -- opssl_hkdf_expand, with `fuel` rounds of its loop.
  unfoldable pub hkdf_expand : HmacAlgo → List ℕ → List ℕ → ℕ → ℕ → Expansion
  hkdf_expand algo prk info okm_len fuel =
      let n = (okm_len + digest_size algo - 1) % 2 ^ 64 / digest_size algo in
      if ltb 255 n then refused else expand_loop algo prk info (n % 2 ^ 8) fuel 1 [] okm_len
