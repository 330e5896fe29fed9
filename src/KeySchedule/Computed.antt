-- ===== src/KeySchedule/Computed.antt =====
-- The secrets that src/tls/keysched.c computes, one from the other.
use opssl.Base.{
  ℕ, ◌+◌, ◌≤◌, ◌≡◌, ◌==◌, true, false, refl, ap, ◌∙◌, Option, none, some, List, [], ◌∷◌, length,
  replicate, arith,
}
use opssl.Crypto.Hmac.{HmacAlgo, HashCalls, digest_size}
use opssl.Crypto.Hmac.Rfc2104.{IsHash, rfc_hmac, hmac-rfc_hmac, length-rfc_hmac}
use opssl.Crypto.Hkdf.{Expansion, expanded, hkdf_extract}
use opssl.Crypto.Hkdf.Rfc5869.{hkdf_extract_lem, hkdf_expand_lem}
use opssl.Crypto.Hkdf.Label.{rfc_expand_label, rfc_label}
use opssl.KeySchedule.Label
use opssl.KeySchedule.{
  hmac_hash_len, or_zeros, and_with, derive_secret, extract, early_secret, handshake_secret,
  master_secret, update_traffic_secret, finished_key, verify_data,
}
use opssl.KeySchedule.Rfc8446.{
  with_sha256, with_sha384, Tls13Hash, IsScheduleHash, rfc_extract, rfc_derive_secret, zeros,
  rfc_early_secret, rfc_handshake_secret, rfc_master_secret, hash_len, hash_room, expand_label-hash,
  derive_secret_lem,
}

-- A salt of the digest's size.
pub hkdf_extract-salt :
    (h : HashCalls) (hash : HmacAlgo) (salt ikm : List ℕ)
    → IsHash h hash
    → 1 ≤ length salt
    → hkdf_extract h hash salt ikm ≡ rfc_extract h hash salt ikm
hkdf_extract-salt h hash [] ikm law size = absurd (omega arith)
hkdf_extract-salt h hash (b ∷ salt) ikm law size = (hkdf_extract_lem h hash b salt ikm law).0

-- What a pointer that may be NULL stands for.
abbrev pub given : HmacAlgo → Option (List ℕ) → List ℕ
given hash (some bytes) = bytes
given hash none = zeros hash

zeros_lem : {hash : HmacAlgo} → Tls13Hash hash → replicate (hmac_hash_len hash) 0 ≡ zeros hash
zeros_lem t = ap (λ n. replicate n 0) (hash_len t)

or_zeros_lem :
    {hash : HmacAlgo} (bytes : Option (List ℕ))
    → Tls13Hash hash
    → or_zeros hash bytes ≡ given hash bytes
or_zeros_lem none t = zeros_lem t
or_zeros_lem (some bytes) t = refl

pub extract_lem :
    (h : HashCalls) (beyond : List ℕ) (fuel : ℕ) (hash : HmacAlgo) (salt ikm : Option (List ℕ))
    → Tls13Hash hash
    → IsHash h hash
    → 1 ≤ length (given hash salt)
    → extract h beyond fuel hash salt ikm
      ≡ expanded (rfc_extract h hash (given hash salt) (given hash ikm))
unfolding extract
extract_lem h beyond fuel hash salt ikm t law size =
    let (low, high) = hash_room t in
    let positive : (hmac_hash_len hash == 0) ≡ false = ground (arith, hash_len t) in
    rw (positive, or_zeros_lem salt t, or_zeros_lem ikm t)
      (ap expanded (hkdf_extract-salt h hash (given hash salt) (given hash ikm) law size))

pub length-zeros : {hash : HmacAlgo} → Tls13Hash hash → 1 ≤ length (zeros hash)
length-zeros with_sha256 = omega arith
length-zeros with_sha384 = omega arith

-- Derive-Secret has as many bytes as the digest.
pub length-rfc_derive_secret :
    (h : HashCalls) (hash : HmacAlgo) (secret name messages : List ℕ)
    → Tls13Hash hash
    → IsHash h hash
    → length (rfc_derive_secret h hash secret name messages) ≡ digest_size hash
length-rfc_derive_secret h hash secret name messages t law =
    (hkdf_expand_lem h hash secret (rfc_label name (h.digest hash messages) (digest_size hash))
      (digest_size hash) 0 law (omega arith)).1

-- The step from one secret to the next.
salted :
    (h : HashCalls) (beyond : List ℕ) (hash : HmacAlgo) (secret : List ℕ) (ikm : Option (List ℕ))
    (spare : ℕ)
    → Tls13Hash hash
    → IsScheduleHash h hash
    → and_with
        (derive_secret h beyond (256 + spare) hash secret Label.derived none (hmac_hash_len hash))
        (λ derived. extract h beyond (256 + spare) hash (some derived) ikm)
      ≡ expanded
          (rfc_extract h hash (rfc_derive_secret h hash secret Label.derived []) (given hash ikm))
salted h beyond hash secret ikm spare t law =
    let next : List ℕ → Expansion =
      λ derived. extract h beyond (256 + spare) hash (some derived) ikm in
    let d = rfc_derive_secret h hash secret Label.derived [] in
    let (low, high) = hash_room t in
    let long = length-rfc_derive_secret h hash secret Label.derived [] t (law.streams) in
    let first : derive_secret h beyond (256 + spare) hash secret Label.derived none
          (hmac_hash_len hash)
        ≡ expanded d =
      ap (derive_secret h beyond (256 + spare) hash secret Label.derived none) (hash_len t)
      ∙ derive_secret_lem h beyond hash secret Label.derived none [] spare t law (omega arith)
          refl in
    ap (λ e. and_with e next) first
    ∙ extract_lem h beyond (256 + spare) hash (some d) ikm t (law.streams) (omega arith)

-- The functions compute the three secrets of the schedule, one from the other: the early secret from
-- the PSK or from zeros, the handshake secret from that and the shared secret, and the master
-- secret from that. The hash function streams, its digest of nothing is the constant of the file,
-- and it is SHA-256 or SHA-384.
pub master_secret-handshake_secret-early_secret :
    (h : HashCalls) (beyond : List ℕ) (hash : HmacAlgo) (psk shared : Option (List ℕ)) (spare : ℕ)
    → Tls13Hash hash
    → IsScheduleHash h hash
    → let ecdhe = given hash shared in
      let early = rfc_early_secret h hash (given hash psk) in
      let middle = rfc_handshake_secret h hash (given hash psk) ecdhe in
      (early_secret h beyond (256 + spare) hash psk ≡ expanded early)
      × (handshake_secret h beyond (256 + spare) hash early shared ≡ expanded middle)
      × (master_secret h beyond (256 + spare) hash middle
          ≡ expanded (rfc_master_secret h hash (given hash psk) ecdhe))
unfolding early_secret handshake_secret master_secret
master_secret-handshake_secret-early_secret h beyond hash psk shared spare t law =
    let (low, high) = hash_room t in
    let early = rfc_early_secret h hash (given hash psk) in
    let middle = rfc_handshake_secret h hash (given hash psk) (given hash shared) in
    let positive : (hmac_hash_len hash == 0) ≡ false = ground (arith, hash_len t) in
    let early_size : (length early == hmac_hash_len hash) ≡ true =
      ground
        (arith, hash_len t, length-rfc_hmac h hash (zeros hash) (given hash psk) (law.streams)) in
    let d1 = rfc_derive_secret h hash early Label.derived [] in
    let middle_size : (length middle == hmac_hash_len hash) ≡ true =
      ground (arith, hash_len t, length-rfc_hmac h hash d1 (given hash shared) (law.streams)) in
    (
      rw positive
          (extract_lem h beyond (256 + spare) hash none psk t (law.streams) (length-zeros t)),
      rw (positive, early_size) (salted h beyond hash early shared spare t law),
      rw (positive, middle_size) (salted h beyond hash middle none spare t law),
    )

-- The Finished message and the key update: from a base key of the digest's size,
-- opssl_tls13_finished_key and opssl_tls13_verify_data compute the verify_data of RFC 8446, section
-- 4.4.4, and opssl_tls13_update_traffic_secret the next traffic secret of section 7.2; both results have
-- the size of the digest. The hash function streams, and is SHA-256 or SHA-384.
pub verify_data-finished_key :
    (h : HashCalls) (beyond : List ℕ) (hash : HmacAlgo) (base messages : List ℕ) (spare : ℕ)
    → Tls13Hash hash
    → IsHash h hash
    → length base ≡ digest_size hash
    → let transcript = h.digest hash messages in
      let key = rfc_expand_label h hash base Label.finished [] (digest_size hash) in
      (and_with
          (finished_key h beyond (256 + spare) hash base)
          (λ k. verify_data h beyond (256 + spare) hash k transcript)
        ≡ expanded (rfc_hmac h hash key transcript))
      × (update_traffic_secret h beyond (256 + spare) hash base
          ≡ expanded (rfc_expand_label h hash base Label.traffic_upd [] (digest_size hash)))
      × (length (rfc_expand_label h hash base Label.traffic_upd [] (digest_size hash))
          ≡ digest_size hash)
unfolding finished_key verify_data update_traffic_secret
verify_data-finished_key h beyond hash base messages spare t law sized =
    let transcript = h.digest hash messages in
    let size = digest_size hash in
    let key = rfc_expand_label h hash base Label.finished [] size in
    let (low, high) = hash_room t in
    let same = hash_len t in
    let positive : (size == 0) ≡ false = ground arith in
    let key_size : length key ≡ size =
      (hkdf_expand_lem h hash base (rfc_label Label.finished [] size) size 0 law (omega arith)).1 in
    let right : (length base == size) ≡ true = ground (arith, sized) in
    let right_key : (length key == size) ≡ true = ground (arith, key_size) in
    let right_hash : (length transcript == size) ≡ true = ground (arith, law.size messages) in
    let first =
      expand_label-hash h hash base Label.finished [] spare t law (omega arith) (omega arith) in
    let next =
      expand_label-hash h hash base Label.traffic_upd [] spare t law (omega arith) (omega arith) in
    (
      rw (same, positive, right, first, right_key, right_hash)
          (ap expanded (hmac-rfc_hmac h hash key transcript law)),
      rw (same, positive, right) next,
      (hkdf_expand_lem h hash base (rfc_label Label.traffic_upd [] size) size 0 law
          (omega arith)).1,
    )
