-- ===== src/Crypto/Aead.antt =====
-- The AEAD context of src/crypto/aes_gcm.c: opssl_aead_seal and opssl_aead_open choose the algorithm
-- by the context. AES-GCM, AES-CCM and Camellia-GCM are parameters here.
use opssl.Base.{
  ◌+◌, ◌-◌, ◌^◌, ◌≤◌, ◌<◌, some, ℕ, ◌≡◌, true, List, Option, none, length, ◌==◌, if◌then◌else◌,
  arith,
}
use opssl.Conn.{AeadCtx}
use opssl.Ciphersuite.Table.{
  Aead, aes_128_gcm, aes_256_gcm, chacha20_poly1305, aes_128_ccm, aes_256_ccm, aes_128_ccm_8,
  aes_256_ccm_8, camellia_128_gcm, camellia_256_gcm,
}
use opssl.Crypto.ChaCha20Poly1305
use opssl.Crypto.ChaCha20Poly1305.Open
use opssl.Record.{AeadCalls}
use opssl.Record.Law.{IsAead}

-- The calls of the other algorithms: the room, the key and its length, the nonce, the input, and the
-- additional data; CCM has the length of the tag first.
pub record Ciphers : Type 0 where
  pub aes_ccm_seal : ℕ → ℕ → List ℕ → ℕ → List ℕ → List ℕ → List ℕ → Option (List ℕ)
  pub aes_ccm_open : ℕ → ℕ → List ℕ → ℕ → List ℕ → List ℕ → List ℕ → Option (List ℕ)
  pub camellia_gcm_seal : ℕ → List ℕ → ℕ → List ℕ → List ℕ → List ℕ → Option (List ℕ)
  pub camellia_gcm_open : ℕ → List ℕ → ℕ → List ℕ → List ℕ → List ℕ → Option (List ℕ)
  pub aes_gcm_seal : ℕ → List ℕ → ℕ → List ℕ → List ℕ → List ℕ → Option (List ℕ)
  pub aes_gcm_open : ℕ → List ℕ → ℕ → List ℕ → List ℕ → List ℕ → Option (List ℕ)

module _ (c : Ciphers) where
  abbrev pub sealing : Aead → AeadCtx → ℕ → List ℕ → List ℕ → List ℕ → Option (List ℕ)
  sealing aes_128_gcm ctx max_out nonce text aad =
      c.aes_gcm_seal max_out ctx.key ctx.key_len nonce text aad
  sealing aes_256_gcm ctx max_out nonce text aad =
      c.aes_gcm_seal max_out ctx.key ctx.key_len nonce text aad
  sealing chacha20_poly1305 ctx max_out nonce text aad =
      ChaCha20Poly1305.seal max_out ctx.key nonce text aad
  sealing aes_128_ccm ctx max_out nonce text aad =
      c.aes_ccm_seal 16 max_out ctx.key ctx.key_len nonce text aad
  sealing aes_256_ccm ctx max_out nonce text aad =
      c.aes_ccm_seal 16 max_out ctx.key ctx.key_len nonce text aad
  sealing aes_128_ccm_8 ctx max_out nonce text aad =
      c.aes_ccm_seal 8 max_out ctx.key ctx.key_len nonce text aad
  sealing aes_256_ccm_8 ctx max_out nonce text aad =
      c.aes_ccm_seal 8 max_out ctx.key ctx.key_len nonce text aad
  sealing camellia_128_gcm ctx max_out nonce text aad =
      c.camellia_gcm_seal max_out ctx.key ctx.key_len nonce text aad
  sealing camellia_256_gcm ctx max_out nonce text aad =
      c.camellia_gcm_seal max_out ctx.key ctx.key_len nonce text aad

  -- opssl_aead_seal
  unfoldable pub aead_seal : AeadCtx → ℕ → List ℕ → List ℕ → List ℕ → Option (List ℕ)
  aead_seal ctx max_out nonce text aad =
      if length nonce == 12 then sealing ctx.algo ctx max_out nonce text aad else none

  abbrev pub opening : Aead → AeadCtx → ℕ → List ℕ → List ℕ → List ℕ → Option (List ℕ)
  opening aes_128_gcm ctx max_out nonce text aad =
      c.aes_gcm_open max_out ctx.key ctx.key_len nonce text aad
  opening aes_256_gcm ctx max_out nonce text aad =
      c.aes_gcm_open max_out ctx.key ctx.key_len nonce text aad
  opening chacha20_poly1305 ctx max_out nonce text aad =
      ChaCha20Poly1305.open_ max_out ctx.key nonce text aad
  opening aes_128_ccm ctx max_out nonce text aad =
      c.aes_ccm_open 16 max_out ctx.key ctx.key_len nonce text aad
  opening aes_256_ccm ctx max_out nonce text aad =
      c.aes_ccm_open 16 max_out ctx.key ctx.key_len nonce text aad
  opening aes_128_ccm_8 ctx max_out nonce text aad =
      c.aes_ccm_open 8 max_out ctx.key ctx.key_len nonce text aad
  opening aes_256_ccm_8 ctx max_out nonce text aad =
      c.aes_ccm_open 8 max_out ctx.key ctx.key_len nonce text aad
  opening camellia_128_gcm ctx max_out nonce text aad =
      c.camellia_gcm_open max_out ctx.key ctx.key_len nonce text aad
  opening camellia_256_gcm ctx max_out nonce text aad =
      c.camellia_gcm_open max_out ctx.key ctx.key_len nonce text aad

  -- opssl_aead_open
  unfoldable pub aead_open : AeadCtx → ℕ → List ℕ → List ℕ → List ℕ → Option (List ℕ)
  aead_open ctx max_out nonce text aad =
      if length nonce == 12 then opening ctx.algo ctx max_out nonce text aad else none

  -- What the record layer calls.
  abbrev pub calls : AeadCalls
  calls = record { seal = aead_seal; open_ = aead_open }

-- With a context of ChaCha20-Poly1305, a nonce of twelve bytes and room, opssl_aead_seal makes of a
-- text what is sixteen bytes longer, and opssl_aead_open, with the same context, nonce and additional
-- data, gives the text back, whatever the other algorithms are.
pub aead_open-aead_seal :
    (c : Ciphers) (ctx : AeadCtx) (max_out room : ℕ) (nonce text aad : List ℕ)
    → ctx.algo ≡ chacha20_poly1305
    → length nonce ≡ 12
    → length text < 2 ^ 64 - 16
    → length text + 16 ≤ max_out
    → length text ≤ room
    → (sealed : List ℕ) × (aead_seal c ctx max_out nonce text aad ≡ some sealed)
      × (length sealed ≡ length text + 16)
      × (aead_open c ctx room nonce sealed aad ≡ some text)
unfolding aead_seal aead_open
aead_open-aead_seal c ctx max_out room nonce text aad algo twelve small fits enough =
    let (sealed, seals, size, opens) =
      Open.open-seal max_out room ctx.key nonce text aad small fits enough in
    let good : (length nonce == 12) ≡ true = ground arith in
    (sealed, rw (good, algo) seals, size, rw (good, algo) opens)

pub calls-IsAead :
    (c : Ciphers) (ctx : AeadCtx) → ctx.algo ≡ chacha20_poly1305 → IsAead (calls c) ctx
calls-IsAead c ctx algo = record {
  open-seal = λ max_out room nonce text aad twelve small fits enough.
      aead_open-aead_seal c ctx max_out room nonce text aad algo twelve (omega arith) fits enough;
}
