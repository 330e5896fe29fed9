-- ===== src/Tls13/Secrets.antt =====
-- The secrets of a handshake in src/tls/tls13.c, derived in two steps: behind ServerHello, and behind
-- the server's Finished; and the exporter of src/tls/handshake.c on them.
pub mod Schedule
pub mod Transcript
use opssl.Base.{
  ℕ, ◌==◌, ◌&&◌, not, ◌||◌, Bool, true, false, Option, none, some, List, [], ◌∷◌, replicate, length,
  ltb, if◌then◌else◌,
}
use opssl.Crypto.Hmac.{HmacAlgo, hmac_sha1, hmac_sha256, hmac_sha384, hmac_sha512, HashCalls}
use opssl.Crypto.Hkdf.{Expansion, expanded, refused, running}
use opssl.Crypto.Hkdf.Label.{hkdf_expand_label}
use opssl.KeySchedule.Label
use opssl.KeySchedule.{and_with, extract, derive_secret}

module _ (h : HashCalls) where
  -- The fields of `tls13_hs_t` that the secrets depend on, and the secrets; each buffer as the bytes that
  -- are in use.
  pub record Handshake : Type 0 where
    pub hash_algo : HmacAlgo
    pub hash_len : ℕ
    pub has_psk : Bool
    pub psk : List ℕ
    pub shared_secret : List ℕ
    pub transcript_sha256 : h.State hmac_sha256
    pub transcript_sha384 : h.State hmac_sha384
    pub early_secret : List ℕ
    pub handshake_secret : List ℕ
    pub master_secret : List ℕ
    pub client_hs_traffic : List ℕ
    pub server_hs_traffic : List ℕ
    pub client_ap_traffic : List ℕ
    pub server_ap_traffic : List ℕ
    pub exporter_master_secret : List ℕ

  -- tls13_set_hash_for_cipher
  unfoldable pub set_hash_for_cipher : Handshake → ℕ → Handshake
  set_hash_for_cipher hs cipher =
      if (cipher == 0x1302) || ((cipher == 0xC0B0) || ((cipher == 0xC0B1) || (cipher == 0xC0B3)))
      then record hs { hash_algo = hmac_sha384; hash_len = 48 }
      else record hs { hash_algo = hmac_sha256; hash_len = 32 }

  -- tls13_update_transcript
  unfoldable pub update_transcript : Handshake → List ℕ → Handshake
  update_transcript hs bytes = record hs {
    transcript_sha256 = h.absorb hmac_sha256 hs.transcript_sha256 bytes;
    transcript_sha384 = h.absorb hmac_sha384 hs.transcript_sha384 bytes;
  }

  -- tls13_get_transcript_hash, whose contexts are copies
  abbrev pub transcript_of : HmacAlgo → Handshake → Option (List ℕ)
  transcript_of hmac_sha256 hs = some (h.finish hmac_sha256 hs.transcript_sha256)
  transcript_of hmac_sha384 hs = some (h.finish hmac_sha384 hs.transcript_sha384)
  transcript_of hmac_sha512 hs = none
  transcript_of hmac_sha1 hs = none

  abbrev pub get_transcript_hash : Handshake → Option (List ℕ)
  get_transcript_hash hs = transcript_of hs.hash_algo hs

  -- The next call, or the return value -1 with what is written so far.
  abbrev pub after : Handshake → Expansion → (List ℕ → Handshake × Bool) → Handshake × Bool
  after hs refused f = (hs, false)
  after hs running f = (hs, false)
  after hs (expanded bytes) f = f bytes

  abbrev pub with_transcript :
      Handshake → Option (List ℕ) → (List ℕ → Handshake × Bool) → Handshake × Bool
  with_transcript hs none f = (hs, false)
  with_transcript hs (some transcript_hash) f = f transcript_hash

  abbrev pub psk_or_zeros : Handshake → List ℕ
  psk_or_zeros hs = if hs.has_psk && ltb 0 (length hs.psk) then hs.psk else replicate hs.hash_len 0

  -- opssl_tls13_extract_secret and opssl_tls13_derive_secret_compat are the calls of the key schedule with
  -- their arguments in another order. `beyond` and `fuel` are the key schedule's.
  module _ (beyond : List ℕ) (fuel : ℕ) where
    abbrev pub extract_secret : Handshake → List ℕ → List ℕ → Expansion
    extract_secret hs salt ikm = extract h beyond fuel hs.hash_algo (some salt) (some ikm)

    abbrev pub derive_secret_compat : Handshake → List ℕ → List ℕ → Option (List ℕ) → Expansion
    derive_secret_compat hs secret name context =
        derive_secret h beyond fuel hs.hash_algo secret name context hs.hash_len

    -- tls13_derive_handshake_secrets
    unfoldable pub derive_handshake_secrets : Handshake → Handshake × Bool
    derive_handshake_secrets hs = with_transcript hs (get_transcript_hash hs) λ transcript_hash.
        after hs (extract_secret hs (replicate hs.hash_len 0) (psk_or_zeros hs)) λ early.
          let hs1 = record hs { early_secret = early } in
          after hs1 (derive_secret_compat hs1 early Label.derived none) λ derived.
            after hs1 (extract_secret hs1 derived hs1.shared_secret) λ secret.
              let hs2 = record hs1 { handshake_secret = secret } in
              after hs2 (derive_secret_compat hs2 secret Label.c_hs_traffic (some transcript_hash))
                λ client.
                  let hs3 = record hs2 { client_hs_traffic = client } in
                  after hs3
                    (derive_secret_compat hs3 secret Label.s_hs_traffic (some transcript_hash))
                    λ server. (record hs3 { server_hs_traffic = server }, true)

    -- tls13_derive_application_secrets
    unfoldable pub derive_application_secrets : Handshake → Handshake × Bool
    derive_application_secrets hs =
        after hs (derive_secret_compat hs hs.handshake_secret Label.derived none) λ derived.
          after hs (extract_secret hs derived (replicate hs.hash_len 0)) λ master.
            let hs1 = record hs { master_secret = master } in
            with_transcript hs1 (get_transcript_hash hs1) λ transcript_hash.
              after hs1 (derive_secret_compat hs1 master Label.c_ap_traffic (some transcript_hash))
                λ client.
                  let hs2 = record hs1 { client_ap_traffic = client } in
                  after hs2
                    (derive_secret_compat hs2 master Label.s_ap_traffic (some transcript_hash))
                    λ server.
                      let hs3 = record hs2 { server_ap_traffic = server } in
                      after hs3
                        (derive_secret_compat hs3 master Label.exp_master (some transcript_hash))
                        λ exporter. (record hs3 { exporter_master_secret = exporter }, true)

    abbrev pub context_hash : HmacAlgo → List ℕ → List ℕ
    context_hash hmac_sha384 context = h.digest hmac_sha384 context
    context_hash _ context = h.digest hmac_sha256 context

    -- The branch of opssl_conn_export_keying_material for TLS 1.3: the exporter master secret is there or
    -- not. Both digests have at least `secret_len` bytes, the size of the hash of the handshake.
    unfoldable pub export_tls13 : HmacAlgo → Option (List ℕ) → List ℕ → List ℕ → ℕ → Expansion
    export_tls13 hash none name context out_len = refused
    export_tls13 hash (some secret) name context out_len =
        if length secret == 0
        then refused
        else and_with (derive_secret h beyond fuel hash secret name none (length secret))
            (λ derived.
              hkdf_expand_label h hash derived Label.exporter (context_hash hash context) out_len
                fuel)

    -- opssl_conn_export_keying_material: `complete` and `is_tls13` are fields of the connection, and
    -- `tls12` is what opssl_tls12_export_keying_material returns and writes.
    unfoldable pub export_keying_material :
        Bool → Bool → HmacAlgo → Option (List ℕ) → List ℕ → List ℕ → ℕ → Expansion → Expansion
    export_keying_material false is_tls13 hash secret name context out_len tls12 = refused
    export_keying_material true true hash secret name context out_len tls12 =
        export_tls13 hash secret name context out_len
    export_keying_material true false hash secret name context out_len tls12 = tls12
