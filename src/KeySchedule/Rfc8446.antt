-- ===== src/KeySchedule/Rfc8446.antt =====
-- The key schedule of RFC 8446, section 7.1, beside the calls of src/tls/keysched.c.
use opssl.Base.{
  ℕ, ◌+◌, ◌≤◌, ◌≡◌, ◌==◌, true, false, refl, sym, ap, ◌∙◌, Option, none, some, List, [], length,
  replicate, arith,
}
use opssl.Crypto.Hmac.{HmacAlgo, hmac_sha256, hmac_sha384, HashCalls, digest_size}
use opssl.Crypto.Hmac.Rfc2104.{IsHash, rfc_hmac}
use opssl.Crypto.Hkdf.{expanded}
use opssl.Crypto.Hkdf.Label.{hkdf_expand_label, hkdf_expand_label_lem, rfc_expand_label}
use opssl.KeySchedule.Label
use opssl.KeySchedule.{hmac_hash_len, empty_hash, context_of, derive_secret}

-- The hash functions of TLS 1.3.
pub data Tls13Hash : HmacAlgo → Type 0 where
  with_sha256 : Tls13Hash hmac_sha256
  with_sha384 : Tls13Hash hmac_sha384

-- What the key schedule needs of a hash function: it streams, and the constant is its digest of
-- nothing.
pub record IsScheduleHash (h : HashCalls) (hash : HmacAlgo) : Type 0 where
  pub streams : IsHash h hash
  pub empty : empty_hash [] hash ≡ h.digest hash []

-- HKDF-Extract(Salt, IKM) and Derive-Secret(Secret, Label, Messages).
abbrev pub rfc_extract : HashCalls → HmacAlgo → List ℕ → List ℕ → List ℕ
rfc_extract h hash salt ikm = rfc_hmac h hash salt ikm

abbrev pub rfc_derive_secret : HashCalls → HmacAlgo → List ℕ → List ℕ → List ℕ → List ℕ
rfc_derive_secret h hash secret name messages =
    rfc_expand_label h hash secret name (h.digest hash messages) (digest_size hash)

abbrev pub zeros : HmacAlgo → List ℕ
zeros hash = replicate (digest_size hash) 0

-- The secrets of the schedule, by the PSK and the (EC)DHE secret; without a PSK it is zeros.
abbrev pub rfc_early_secret : HashCalls → HmacAlgo → List ℕ → List ℕ
rfc_early_secret h hash psk = rfc_extract h hash (zeros hash) psk

abbrev pub rfc_handshake_secret : HashCalls → HmacAlgo → List ℕ → List ℕ → List ℕ
rfc_handshake_secret h hash psk ecdhe =
    rfc_extract h hash (rfc_derive_secret h hash (rfc_early_secret h hash psk) Label.derived [])
      ecdhe

abbrev pub rfc_master_secret : HashCalls → HmacAlgo → List ℕ → List ℕ → List ℕ
rfc_master_secret h hash psk ecdhe =
    rfc_extract h hash
      (rfc_derive_secret h hash (rfc_handshake_secret h hash psk ecdhe) Label.derived [])
      (zeros hash)

pub hash_len : {hash : HmacAlgo} → Tls13Hash hash → hmac_hash_len hash ≡ digest_size hash
hash_len with_sha256 = refl
hash_len with_sha384 = refl

pub hash_room :
    {hash : HmacAlgo} → Tls13Hash hash → (32 ≤ digest_size hash) × (digest_size hash ≤ 48)
hash_room with_sha256 = (omega arith, omega arith)
hash_room with_sha384 = (omega arith, omega arith)

pub empty_hash_beyond :
    {hash : HmacAlgo} (beyond : List ℕ)
    → Tls13Hash hash
    → empty_hash beyond hash ≡ empty_hash [] hash
empty_hash_beyond beyond with_sha256 = refl
empty_hash_beyond beyond with_sha384 = refl

-- The transcript hash that a call stands for, as the digest of some messages.
abbrev pub Hashes : HashCalls → HmacAlgo → Option (List ℕ) → List ℕ → Type 0
Hashes h hash none messages = messages ≡ []
Hashes h hash (some bytes) messages = bytes ≡ h.digest hash messages

context_lem :
    (h : HashCalls) (beyond : List ℕ) (hash : HmacAlgo) (transcript : Option (List ℕ))
    (messages : List ℕ)
    → Tls13Hash hash
    → IsScheduleHash h hash
    → Hashes h hash transcript messages
    → context_of beyond hash transcript ≡ h.digest hash messages
context_lem h beyond hash none messages t law same =
    empty_hash_beyond beyond t ∙ law.empty ∙ ap (h.digest hash) (sym same)
context_lem h beyond hash (some bytes) messages t law same = same

pub expand_label-hash :
    (h : HashCalls) (hash : HmacAlgo) (secret name context : List ℕ) (spare : ℕ)
    → Tls13Hash hash
    → IsHash h hash
    → length name ≤ 249
    → length context ≤ 48
    → hkdf_expand_label h hash secret name context (digest_size hash) (256 + spare)
      ≡ expanded (rfc_expand_label h hash secret name context (digest_size hash))
expand_label-hash h hash secret name context spare t law few short =
    hkdf_expand_label_lem h hash secret name context (digest_size hash) spare law (omega arith) few
      (omega arith) (omega arith)

-- opssl_tls13_derive_secret is Derive-Secret: for a transcript hash of some messages, and for none,
-- which stands for no messages.
pub derive_secret_lem :
    (h : HashCalls) (beyond : List ℕ) (hash : HmacAlgo) (secret name : List ℕ)
    (transcript : Option (List ℕ)) (messages : List ℕ) (spare : ℕ)
    → Tls13Hash hash
    → IsScheduleHash h hash
    → length name ≤ 249
    → Hashes h hash transcript messages
    → derive_secret h beyond (256 + spare) hash secret name transcript (digest_size hash)
      ≡ expanded (rfc_derive_secret h hash secret name messages)
unfolding derive_secret
derive_secret_lem h beyond hash secret name transcript messages spare t law few same =
    let context = context_lem h beyond hash transcript messages t law same in
    let (low, high) = hash_room t in
    let positive : (hmac_hash_len hash == 0) ≡ false = ground (arith, hash_len t) in
    let right : (digest_size hash == hmac_hash_len hash) ≡ true = ground (arith, hash_len t) in
    let size : length (h.digest hash messages) ≡ digest_size hash = law.streams.size messages in
    rw (positive, right, context)
      (expand_label-hash h hash secret name (h.digest hash messages) spare t (law.streams) few
        (omega arith))
