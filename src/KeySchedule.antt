-- ===== src/KeySchedule.antt =====
-- src/tls/keysched.c: the secrets of TLS 1.3. A function returns what it writes to its out buffer, or
-- refuses (the return value 0); it is `running` where the loop of HKDF-Expand has more rounds than
-- `fuel`. A pointer that may be NULL is an Option; the others are not NULL.
pub mod Label
pub mod Rfc8446
pub mod Computed
use opssl.Base.{
  ℕ, ◌==◌, ◌||◌, not, Option, none, some, List, [], ◌∷◌, ◌++◌, take, replicate, length,
  if◌then◌else◌,
}
use opssl.Crypto.Hmac.{HmacAlgo, hmac_sha1, hmac_sha256, hmac_sha384, hmac_sha512, HashCalls, hmac}
use opssl.Crypto.Hkdf.{Expansion, expanded, refused, running, hkdf_extract}
use opssl.KeySchedule.Label
use opssl.Crypto.Hkdf.Label.{hkdf_expand_label}

abbrev pub empty_hash_sha256 : List ℕ
empty_hash_sha256 =
    227 ∷ 176 ∷ 196 ∷ 66 ∷ 152 ∷ 252 ∷ 28 ∷ 20 ∷ 154 ∷ 251 ∷ 244 ∷ 200 ∷ 153 ∷ 111 ∷ 185 ∷ 36 ∷ 39
    ∷ 174 ∷ 65 ∷ 228 ∷ 100 ∷ 155 ∷ 147 ∷ 76 ∷ 164 ∷ 149 ∷ 153 ∷ 27 ∷ 120 ∷ 82 ∷ 184 ∷ 85 ∷ []

abbrev pub empty_hash_sha384 : List ℕ
empty_hash_sha384 =
    56 ∷ 176 ∷ 96 ∷ 167 ∷ 81 ∷ 172 ∷ 150 ∷ 56 ∷ 76 ∷ 217 ∷ 50 ∷ 126 ∷ 177 ∷ 177 ∷ 227 ∷ 106 ∷ 33
    ∷ 253 ∷ 183 ∷ 17 ∷ 20 ∷ 190 ∷ 7 ∷ 67 ∷ 76 ∷ 12 ∷ 199 ∷ 191 ∷ 99 ∷ 246 ∷ 225 ∷ 218 ∷ 39 ∷ 78
    ∷ 222 ∷ 191 ∷ 231 ∷ 111 ∷ 101 ∷ 251 ∷ 213 ∷ 26 ∷ 210 ∷ 241 ∷ 72 ∷ 152 ∷ 185 ∷ 91 ∷ []

abbrev pub hmac_hash_len : HmacAlgo → ℕ
hmac_hash_len hmac_sha1 = 0
hmac_hash_len hmac_sha256 = 32
hmac_hash_len hmac_sha384 = 48
hmac_hash_len hmac_sha512 = 64

-- The next call, behind one that has to return 1.
abbrev pub and_with : Expansion → (List ℕ → Expansion) → Expansion
and_with refused f = refused
and_with running f = running
and_with (expanded bytes) f = f bytes

-- What opssl_tls13_derive_traffic_keys leaves in `key` and in `iv`: nothing, a key that is zero again,
-- or both.
pub data TrafficKeys : Type 0 where
  no_keys : TrafficKeys
  cleared : List ℕ → TrafficKeys
  waiting : TrafficKeys
  keys : List ℕ → List ℕ → TrafficKeys

abbrev pub with_iv : ℕ → List ℕ → Expansion → TrafficKeys
with_iv key_len key refused = cleared (replicate key_len 0)
with_iv key_len key running = waiting
with_iv key_len key (expanded iv) = keys key iv

abbrev pub with_key : ℕ → Expansion → Expansion → TrafficKeys
with_key key_len refused iv = no_keys
with_key key_len running iv = waiting
with_key key_len (expanded key) iv = with_iv key_len key iv

-- The hash of no messages. For SHA-512 it is read from the 32 bytes of empty_hash_sha256 and from what
-- lies behind them.
abbrev pub empty_hash : List ℕ → HmacAlgo → List ℕ
empty_hash beyond hmac_sha384 = take 48 empty_hash_sha384
empty_hash beyond hmac_sha256 = take 32 (empty_hash_sha256 ++ beyond)
empty_hash beyond hmac_sha512 = take 64 (empty_hash_sha256 ++ beyond)
empty_hash beyond hmac_sha1 = take 0 (empty_hash_sha256 ++ beyond)

abbrev pub context_of : List ℕ → HmacAlgo → Option (List ℕ) → List ℕ
context_of beyond hash (some transcript_hash) = transcript_hash
context_of beyond hash none = empty_hash beyond hash

abbrev pub or_zeros : HmacAlgo → Option (List ℕ) → List ℕ
or_zeros hash (some bytes) = bytes
or_zeros hash none = replicate (hmac_hash_len hash) 0

-- `beyond` is what lies behind empty_hash_sha256.
module _ (h : HashCalls) (beyond : List ℕ) (fuel : ℕ) where
  -- opssl_tls13_derive_secret
  unfoldable pub derive_secret : HmacAlgo → List ℕ → List ℕ → Option (List ℕ) → ℕ → Expansion
  derive_secret hash secret name transcript_hash out_len =
      let expected_hash_len = hmac_hash_len hash in
      if (expected_hash_len == 0) || not (out_len == expected_hash_len)
      then refused
      else hkdf_expand_label h hash secret name (context_of beyond hash transcript_hash) out_len
          fuel

  -- opssl_tls13_extract
  unfoldable pub extract : HmacAlgo → Option (List ℕ) → Option (List ℕ) → Expansion
  extract hash salt ikm =
      if hmac_hash_len hash == 0
      then refused
      else expanded (hkdf_extract h hash (or_zeros hash salt) (or_zeros hash ikm))

  -- opssl_tls13_derive_traffic_keys
  unfoldable pub derive_traffic_keys : HmacAlgo → List ℕ → ℕ → ℕ → TrafficKeys
  derive_traffic_keys hash secret key_len iv_len =
      with_key key_len (hkdf_expand_label h hash secret Label.key [] key_len fuel)
        (hkdf_expand_label h hash secret Label.iv [] iv_len fuel)

  -- opssl_tls13_early_secret
  unfoldable pub early_secret : HmacAlgo → Option (List ℕ) → Expansion
  early_secret hash psk = if hmac_hash_len hash == 0 then refused else extract hash none psk

  -- opssl_tls13_handshake_secret
  unfoldable pub handshake_secret : HmacAlgo → List ℕ → Option (List ℕ) → Expansion
  handshake_secret hash early shared_secret =
      let hash_len = hmac_hash_len hash in
      if (hash_len == 0) || not (length early == hash_len)
      then refused
      else and_with (derive_secret hash early Label.derived none hash_len)
          (λ derived. extract hash (some derived) shared_secret)

  -- opssl_tls13_master_secret
  unfoldable pub master_secret : HmacAlgo → List ℕ → Expansion
  master_secret hash handshake =
      let hash_len = hmac_hash_len hash in
      if (hash_len == 0) || not (length handshake == hash_len)
      then refused
      else and_with (derive_secret hash handshake Label.derived none hash_len)
          (λ derived. extract hash (some derived) none)

  -- opssl_tls13_update_traffic_secret
  unfoldable pub update_traffic_secret : HmacAlgo → List ℕ → Expansion
  update_traffic_secret hash current =
      let hash_len = hmac_hash_len hash in
      if (hash_len == 0) || not (length current == hash_len)
      then refused
      else hkdf_expand_label h hash current Label.traffic_upd [] hash_len fuel

  -- opssl_tls13_finished_key
  unfoldable pub finished_key : HmacAlgo → List ℕ → Expansion
  finished_key hash base_key =
      let hash_len = hmac_hash_len hash in
      if (hash_len == 0) || not (length base_key == hash_len)
      then refused
      else hkdf_expand_label h hash base_key Label.finished [] hash_len fuel

  -- opssl_tls13_verify_data
  unfoldable pub verify_data : HmacAlgo → List ℕ → List ℕ → Expansion
  verify_data hash key transcript_hash =
      let expected_hash_len = hmac_hash_len hash in
      if (expected_hash_len == 0)
        || (not (length key == expected_hash_len)
            || not (length transcript_hash == expected_hash_len))
      then refused
      else expanded (hmac h hash key transcript_hash)
