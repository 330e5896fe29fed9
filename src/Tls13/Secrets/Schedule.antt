-- ===== src/Tls13/Secrets/Schedule.antt =====
-- The secrets of a handshake in src/tls/tls13.c, beside the key schedule of RFC 8446.
use opssl.Base.{
  ℕ, suc, ◌+◌, ◌*◌, ◌≤◌, Bool, ◌&&◌, ◌∷◌, ltb, if◌then◌else◌, ◌≡◌, ◌==◌, true, false, refl, ap, ◌∙◌,
  Option, none, some, List, [], length, replicate, arith,
}
use opssl.Crypto.Hmac.{
  HmacAlgo, hmac_sha256, hmac_sha384, hmac_sha512, hmac_sha1, HashCalls, digest_size,
}
use opssl.Crypto.Hkdf.{Expansion, expanded, refused}
use opssl.Crypto.Hkdf.Label.{hkdf_expand_label, hkdf_expand_label_lem, rfc_expand_label}
use opssl.KeySchedule.Label
use opssl.KeySchedule.{extract, derive_secret}
use opssl.KeySchedule.Rfc8446.{
  Tls13Hash, with_sha256, with_sha384, IsScheduleHash, Hashes, rfc_derive_secret, rfc_early_secret,
  rfc_handshake_secret, rfc_master_secret, zeros, derive_secret_lem, hash_room,
}
use opssl.KeySchedule.Computed.{extract_lem, length-zeros, length-rfc_derive_secret}
use opssl.Tls13.Secrets.{
  Handshake, get_transcript_hash, transcript_of, psk_or_zeros, derive_handshake_secrets,
  derive_application_secrets, export_keying_material, export_tls13, context_hash,
}

derived_size :
    (h : HashCalls) (algo : HmacAlgo) (secret : List ℕ)
    → Tls13Hash algo
    → IsScheduleHash h algo
    → 1 ≤ length (rfc_derive_secret h algo secret Label.derived [])
derived_size h algo secret t law =
    let room = hash_room t in
    omega (arith, room.0, length-rfc_derive_secret h algo secret Label.derived [] t (law.streams))

derive_sized :
    (h : HashCalls) (beyond : List ℕ) (algo : HmacAlgo) (len : ℕ) (secret name : List ℕ)
    (transcript : Option (List ℕ)) (messages : List ℕ) (spare : ℕ)
    → Tls13Hash algo
    → IsScheduleHash h algo
    → len ≡ digest_size algo
    → length name ≤ 249
    → Hashes h algo transcript messages
    → derive_secret h beyond (256 + spare) algo secret name transcript len
      ≡ expanded (rfc_derive_secret h algo secret name messages)
derive_sized h beyond algo len secret name transcript messages spare t law sized few same =
    ap (derive_secret h beyond (256 + spare) algo secret name transcript) sized
    ∙ derive_secret_lem h beyond algo secret name transcript messages spare t law few same

-- The input of the early secret: a PSK that is agreed on, else as many zeros as the hash has bytes.
abbrev pub early_input : HmacAlgo → Bool → List ℕ → List ℕ
early_input algo true (x ∷ psk) = x ∷ psk
early_input algo true [] = zeros algo
early_input algo false psk = zeros algo

agreed_psk :
    (algo : HmacAlgo) (len : ℕ) (has_psk : Bool) (psk : List ℕ)
    → replicate len 0 ≡ zeros algo
    → (if has_psk && ltb 0 (length psk) then psk else replicate len 0)
      ≡ early_input algo has_psk psk
agreed_psk algo len true (x ∷ psk) e =
    let there : ltb 0 (suc (length psk)) ≡ true = ground arith in rw there refl
agreed_psk algo len true [] e = e
agreed_psk algo len false psk e = e

-- Behind ServerHello: tls13_derive_handshake_secrets succeeds, and sets the early secret, the
-- handshake secret and the two traffic secrets to those of RFC 8446 for the PSK, the shared secret and
-- the messages of the transcript; every other field stays. Without a PSK, or with an empty one, zeros
-- of the size of the hash stand in its place. The hash is SHA-256 or
-- SHA-384 as the cipher suite says, and meets the contract of the key schedule.
pub derive_handshake_secrets_lem :
    (h : HashCalls) (beyond : List ℕ) (hs : Handshake h) (messages : List ℕ) (spare : ℕ)
    → Tls13Hash hs.hash_algo
    → IsScheduleHash h hs.hash_algo
    → hs.hash_len ≡ digest_size hs.hash_algo
    → get_transcript_hash h hs ≡ some (h.digest hs.hash_algo messages)
    → let algo = hs.hash_algo in
      let psk = early_input algo hs.has_psk hs.psk in
      let secret = rfc_handshake_secret h algo psk hs.shared_secret in
      derive_handshake_secrets h beyond (256 + spare) hs ≡ (
        record hs {
          early_secret = rfc_early_secret h algo psk;
          handshake_secret = secret;
          client_hs_traffic = rfc_derive_secret h algo secret Label.c_hs_traffic messages;
          server_hs_traffic = rfc_derive_secret h algo secret Label.s_hs_traffic messages;
        },
        true,
      )
unfolding derive_handshake_secrets
derive_handshake_secrets_lem h beyond hs messages spare t law sized transcript =
    let algo = hs.hash_algo in
    let psk = early_input algo hs.has_psk hs.psk in
    let early = rfc_early_secret h algo psk in
    let secret = rfc_handshake_secret h algo psk hs.shared_secret in
    let digest = h.digest algo messages in
    let fuel = 256 + spare in
    let d = rfc_derive_secret h algo early Label.derived [] in
    let salt : replicate hs.hash_len 0 ≡ zeros algo = ap (λ n. replicate n 0) sized in
    let input = agreed_psk algo hs.hash_len hs.has_psk hs.psk salt in
    let e1 : extract h beyond fuel algo (some (replicate hs.hash_len 0)) (some (psk_or_zeros h hs))
        ≡ expanded early =
      (λ i. extract h beyond fuel algo (some (salt i)) (some (input i)))
      ∙ extract_lem h beyond fuel algo (some (zeros algo)) (some psk) t (law.streams)
          (length-zeros t) in
    let d1 =
      derive_sized h beyond algo hs.hash_len early Label.derived none [] spare t law sized
        (omega arith) refl in
    let e2 =
      extract_lem h beyond fuel algo (some d) (some hs.shared_secret) t (law.streams)
        (derived_size h algo early t law) in
    let d2 =
      derive_sized h beyond algo hs.hash_len secret Label.c_hs_traffic (some digest) messages spare
        t law sized (omega arith) refl in
    let d3 =
      derive_sized h beyond algo hs.hash_len secret Label.s_hs_traffic (some digest) messages spare
        t law sized (omega arith) refl in
    rw (transcript, e1, d1, e2, d2, d3) refl

transcript_master :
    (h : HashCalls) (algo : HmacAlgo) (hs : Handshake h) (master : List ℕ)
    → transcript_of h algo (record hs { master_secret = master }) ≡ transcript_of h algo hs
transcript_master h hmac_sha256 hs master = refl
transcript_master h hmac_sha384 hs master = refl
transcript_master h hmac_sha512 hs master = refl
transcript_master h hmac_sha1 hs master = refl

-- Behind the server's Finished, from the handshake secret of RFC 8446:
-- tls13_derive_application_secrets succeeds, and sets the master secret, the two traffic secrets and
-- the exporter's to those of RFC 8446 for the messages of the transcript; every other field stays. The
-- hash is SHA-256 or SHA-384 as the cipher suite says, and meets the contract of the key schedule.
pub derive_application_secrets_lem :
    (h : HashCalls) (beyond : List ℕ) (hs : Handshake h) (psk ecdhe messages : List ℕ) (spare : ℕ)
    → Tls13Hash hs.hash_algo
    → IsScheduleHash h hs.hash_algo
    → hs.hash_len ≡ digest_size hs.hash_algo
    → get_transcript_hash h hs ≡ some (h.digest hs.hash_algo messages)
    → hs.handshake_secret ≡ rfc_handshake_secret h hs.hash_algo psk ecdhe
    → let algo = hs.hash_algo in
      let master = rfc_master_secret h algo psk ecdhe in
      derive_application_secrets h beyond (256 + spare) hs ≡ (
        record hs {
          master_secret = master;
          client_ap_traffic = rfc_derive_secret h algo master Label.c_ap_traffic messages;
          server_ap_traffic = rfc_derive_secret h algo master Label.s_ap_traffic messages;
          exporter_master_secret = rfc_derive_secret h algo master Label.exp_master messages;
        },
        true,
      )
unfolding derive_application_secrets
derive_application_secrets_lem h beyond hs psk ecdhe messages spare t law sized transcript start =
    let algo = hs.hash_algo in
    let middle = rfc_handshake_secret h algo psk ecdhe in
    let master = rfc_master_secret h algo psk ecdhe in
    let digest = h.digest algo messages in
    let fuel = 256 + spare in
    let d = rfc_derive_secret h algo middle Label.derived [] in
    let d0 : derive_secret h beyond fuel algo hs.handshake_secret Label.derived none hs.hash_len
        ≡ expanded d =
      ap (λ s. derive_secret h beyond fuel algo s Label.derived none hs.hash_len) start
      ∙ derive_sized h beyond algo hs.hash_len middle Label.derived none [] spare t law sized
          (omega arith) refl in
    let salt : replicate hs.hash_len 0 ≡ zeros algo = ap (λ n. replicate n 0) sized in
    let e1 : extract h beyond fuel algo (some d) (some (replicate hs.hash_len 0))
        ≡ expanded master =
      ap (λ z. extract h beyond fuel algo (some d) (some z)) salt
      ∙ extract_lem h beyond fuel algo (some d) (some (zeros algo)) t (law.streams)
          (derived_size h algo middle t law) in
    let d1 =
      derive_sized h beyond algo hs.hash_len master Label.c_ap_traffic (some digest) messages spare
        t law sized (omega arith) refl in
    let d2 =
      derive_sized h beyond algo hs.hash_len master Label.s_ap_traffic (some digest) messages spare
        t law sized (omega arith) refl in
    let d3 =
      derive_sized h beyond algo hs.hash_len master Label.exp_master (some digest) messages spare t
        law sized (omega arith) refl in
    let known : transcript_of h algo (record hs { master_secret = master }) ≡ some digest =
      transcript_master h algo hs master ∙ transcript in
    rw (d0, e1, known, d1, d2, d3) refl

context_hash_lem :
    (h : HashCalls) (beyond : List ℕ) (fuel : ℕ) {hash : HmacAlgo} (context : List ℕ)
    → Tls13Hash hash
    → context_hash h beyond fuel hash context ≡ h.digest hash context
context_hash_lem h beyond fuel context with_sha256 = refl
context_hash_lem h beyond fuel context with_sha384 = refl

-- On a TLS 1.3 connection whose handshake is complete, opssl_conn_export_keying_material computes the
-- exporter of RFC 8446, section 7.5, from the exporter master secret: for a label of up to 249 bytes,
-- any context, and up to 254 digests of key material. Without an exporter master secret it refuses.
-- On a connection that is not TLS 1.3 it returns what the exporter of TLS 1.2 does; and before the
-- handshake is complete it refuses, whatever the version.
pub export_keying_material_lem :
    (h : HashCalls) (beyond : List ℕ) (hash : HmacAlgo) (secret name context : List ℕ)
    (out_len spare : ℕ) (tls12 : Expansion) (is_tls13 : Bool)
    → Tls13Hash hash
    → IsScheduleHash h hash
    → length secret ≡ digest_size hash
    → length name ≤ 249
    → out_len ≤ 254 * digest_size hash
    → (export_keying_material h beyond
          (256 + spare)
          true
          true
          hash
          (some secret)
          name
          context
          out_len
          tls12
        ≡ expanded (
            rfc_expand_label h hash
              (rfc_derive_secret h hash secret name [])
              Label.exporter
              (h.digest hash context)
              out_len))
      × (export_keying_material h beyond
            (256 + spare)
            true
            true
            hash
            none
            name
            context
            out_len
            tls12
          ≡ refused)
      × (export_keying_material h beyond
            (256 + spare)
            true
            false
            hash
            (some secret)
            name
            context
            out_len
            tls12
          ≡ tls12)
      × (export_keying_material h beyond
            (256 + spare)
            false
            is_tls13
            hash
            (some secret)
            name
            context
            out_len
            tls12
          ≡ refused)
unfolding export_keying_material export_tls13
export_keying_material_lem h beyond hash secret name context out_len spare tls12 is_tls13 t law
      sized few fits =
    let fuel = 256 + spare in
    let (low, high) = hash_room t in
    let d = rfc_derive_secret h hash secret name [] in
    let positive : (length secret == 0) ≡ false = ground (arith, sized) in
    let first =
      derive_sized h beyond hash (length secret) secret name none [] spare t law sized few refl in
    let last : hkdf_expand_label h hash d Label.exporter (h.digest hash context) out_len fuel
        ≡ expanded (rfc_expand_label h hash d Label.exporter (h.digest hash context) out_len) =
      hkdf_expand_label_lem h hash d Label.exporter (h.digest hash context) out_len spare
        (law.streams) (omega (arith, law.streams.size context)) (omega arith)
        (omega (arith, law.streams.size context)) fits in
    (rw (positive, first, context_hash_lem h beyond fuel context t, last) refl, refl, refl, refl)
