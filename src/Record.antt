-- ===== src/Record.antt =====
-- src/tls/record.c: the protection of records. A buffer is its bytes, all `buf_cap` of them. The two
-- operations of the AEAD, opssl_aead_seal and opssl_aead_open, are a parameter here, which the
-- theorems take with its laws.
pub mod Nonce
pub mod Buffer
pub mod Law
pub mod Encrypt
pub mod Decrypt
pub mod Channel
pub mod Exchange
use opssl.Base.{
  ℕ, zero, suc, ◌+◌, ◌-◌, ◌*◌, ◌/◌, ◌%◌, ◌^◌, Bool, true, false, Option, none, some, List, [], ◌∷◌,
  ◌++◌, length, take, drop, set, ltb, ◌==◌, ◌||◌, if◌then◌else◌,
}
use opssl.Bytes.{byte_at, be16, put_be16, put_be64, store}
use opssl.Crypto.ChaCha20.{xor_bytes}
use opssl.Conn.{AeadCtx}

-- record_cipher_state_t
pub record RecordState : Type 0 where
  pub cipher : Option AeadCtx
  pub iv : List ℕ
  pub seq : ℕ
  pub is_tls13 : Bool

-- The operations of the AEAD on a context: the room for the output, the nonce, the input, and the
-- additional data; `none` is a failure.
pub record AeadCalls : Type 0 where
  pub seal : AeadCtx → ℕ → List ℕ → List ℕ → List ℕ → Option (List ℕ)
  pub open_ : AeadCtx → ℕ → List ℕ → List ℕ → List ℕ → Option (List ℕ)

-- What a call returns: a length, with the content type for a decryption; or the failure, with the
-- TLS reason that it records, if it does.
pub data Outcome : Type 0 where
  encrypted : ℕ → Outcome
  decrypted : ℕ → ℕ → Outcome
  failed : Option ℕ → Outcome

-- OPSSL_TLS_ERR_UNEXPECTED_MSG, OPSSL_TLS_ERR_BAD_RECORD_MAC, OPSSL_TLS_ERR_RECORD_OVERFLOW
abbrev pub unexpected_msg : ℕ
unexpected_msg = 1

abbrev pub bad_record_mac : ℕ
bad_record_mac = 2

abbrev pub record_overflow : ℕ
record_overflow = 3

abbrev pub application_data : ℕ
application_data = 23

abbrev pub wire_version : ℕ
wire_version = 0x0303

abbrev pub next : RecordState → RecordState
next st = record st { seq = st.seq + 1 }

-- record_make_nonce
unfoldable pub make_nonce : RecordState → List ℕ
make_nonce st =
    if st.is_tls13
    then take 4 st.iv ++ xor_bytes (take 8 (drop 4 st.iv)) (put_be64 st.seq)
    else take 4 st.iv ++ put_be64 st.seq

-- record_make_aad
unfoldable pub make_aad : RecordState → ℕ → ℕ → ℕ → List ℕ
make_aad st content_type version len =
    (if st.is_tls13 then [] else put_be64 st.seq)
    ++ (content_type ∷ (put_be16 version ++ put_be16 len))

-- The five bytes of a record's header.
abbrev pub header : ℕ → ℕ → List ℕ
header content_type len = content_type ∷ (put_be16 wire_version ++ put_be16 len)

-- The number of bytes that are left of `n` when the zeros at the end are taken off.
unfoldable pub strip_zeros : ℕ → List ℕ → ℕ
strip_zeros zero p = zero
strip_zeros (suc n) p = let less = strip_zeros n p in if byte_at p n == 0 then less else suc n

module _ (aead : AeadCalls) where
  -- The end of an encryption: what was sealed is stored, and the sequence number goes up.
  abbrev pub sealed :
      RecordState → List ℕ → ℕ → ℕ → Option (List ℕ) → RecordState × (List ℕ × Outcome)
  sealed st buf pos total none = (st, (buf, failed none))
  sealed st buf pos total (some out) = (next st, (store buf pos out, encrypted total))

  -- opssl_record_encrypt in TLS 1.3: the plaintext, and the content type behind it.
  unfoldable pub encrypt_tls13 :
      AeadCtx → RecordState → List ℕ → ℕ → ℕ → RecordState × (List ℕ × Outcome)
  encrypt_tls13 ctx st buf content_type plain_len =
      let cipher_len = plain_len + 1 + 16 in
      let buf1 = store buf 0 (header application_data (cipher_len % 2 ^ 16)) in
      let buf2 = set buf1 (5 + plain_len) content_type in
      let aad = make_aad st application_data wire_version (cipher_len % 2 ^ 16) in
      if ltb (length buf) (5 + cipher_len)
      then (st, (buf, failed none))
      else sealed st buf2 5 (5 + cipher_len)
          (aead.seal ctx cipher_len (make_nonce st) (take (plain_len + 1) (drop 5 buf2)) aad)

  -- In TLS 1.2: the sequence number as the explicit nonce, and the plaintext behind it.
  unfoldable pub encrypt_tls12 :
      AeadCtx → RecordState → List ℕ → ℕ → ℕ → RecordState × (List ℕ × Outcome)
  encrypt_tls12 ctx st buf content_type plain_len =
      let payload_len = 8 + plain_len + 16 in
      let buf1 = store buf 0 (header content_type (payload_len % 2 ^ 16)) in
      let buf2 = store buf1 5 (put_be64 st.seq) in
      let aad = make_aad st content_type wire_version (plain_len % 2 ^ 16) in
      if ltb (length buf) (5 + payload_len)
      then (st, (buf, failed none))
      else sealed st buf2 13 (5 + payload_len)
          (aead.seal ctx (plain_len + 16) (make_nonce st) (take plain_len (drop 13 buf2)) aad)

  abbrev pub encrypt_with :
      Option AeadCtx → RecordState → List ℕ → ℕ → ℕ → RecordState × (List ℕ × Outcome)
  encrypt_with none st buf content_type plain_len = (st, (buf, failed none))
  encrypt_with (some ctx) st buf content_type plain_len =
      if st.seq == 2 ^ 64 - 1
      then (st, (buf, failed (some record_overflow)))
      else if st.is_tls13
      then encrypt_tls13 ctx st buf content_type plain_len
      else encrypt_tls12 ctx st buf content_type plain_len

  -- opssl_record_encrypt: the state and the buffer that it leaves, and what it returns. Where the AEAD
  -- fails, what it did to the buffer is left out.
  unfoldable pub record_encrypt : RecordState → List ℕ → ℕ → ℕ → RecordState × (List ℕ × Outcome)
  record_encrypt st = encrypt_with st.cipher st

  -- The end of a decryption in TLS 1.3: the content type is the last byte that is not zero.
  abbrev pub opened_tls13 :
      RecordState → List ℕ → Option (List ℕ) → RecordState × (List ℕ × Outcome)
  opened_tls13 st buf none = (st, (buf, failed (some bad_record_mac)))
  opened_tls13 st buf (some plain) =
      let out_len = strip_zeros (length plain) plain in
      let buf' = store buf 5 plain in
      if out_len == 0
      then (next st, (buf', failed (some unexpected_msg)))
      else (next st, (buf', decrypted (out_len - 1) (byte_at plain (out_len - 1))))

  abbrev pub opened_tls12 :
      RecordState → List ℕ → ℕ → Option (List ℕ) → RecordState × (List ℕ × Outcome)
  opened_tls12 st buf ct_wire none = (st, (buf, failed (some bad_record_mac)))
  opened_tls12 st buf ct_wire (some plain) =
      (next st, (store buf 5 plain, decrypted (length plain) ct_wire))

  unfoldable pub decrypt_tls13 :
      AeadCtx → RecordState → List ℕ → ℕ → ℕ → ℕ → RecordState × (List ℕ × Outcome)
  decrypt_tls13 ctx st buf ct_wire ver_wire payload_len =
      let aad = make_aad st ct_wire ver_wire payload_len in
      if ltb payload_len 16
      then (st, (buf, failed none))
      else opened_tls13 st buf
          (aead.open_ ctx payload_len (make_nonce st) (take payload_len (drop 5 buf)) aad)

  -- The nonce has the explicit part that the record carries.
  unfoldable pub decrypt_tls12 :
      AeadCtx → RecordState → List ℕ → ℕ → ℕ → ℕ → RecordState × (List ℕ × Outcome)
  decrypt_tls12 ctx st buf ct_wire ver_wire payload_len =
      let plain_len = payload_len - 8 - 16 in
      let nonce = take 4 st.iv ++ take 8 (drop 5 buf) in
      let aad = make_aad st ct_wire ver_wire (plain_len % 2 ^ 16) in
      if ltb payload_len 24
      then (st, (buf, failed none))
      else opened_tls12 st buf ct_wire
          (aead.open_ ctx plain_len nonce (take (payload_len - 8) (drop 13 buf)) aad)

  abbrev pub decrypt_with :
      Option AeadCtx → RecordState → List ℕ → ℕ → RecordState × (List ℕ × Outcome)
  decrypt_with none st buf record_len = (st, (buf, failed none))
  decrypt_with (some ctx) st buf record_len =
      let payload_len = be16 (drop 3 buf) in
      let ver_wire = be16 (drop 1 buf) in
      if ltb record_len 5
      then (st, (buf, failed none))
      else if st.seq == 2 ^ 64 - 1
      then (st, (buf, failed (some record_overflow)))
      else if ltb record_len (5 + payload_len)
      then (st, (buf, failed none))
      else if st.is_tls13
      then decrypt_tls13 ctx st buf (byte_at buf 0) ver_wire payload_len
      else decrypt_tls12 ctx st buf (byte_at buf 0) ver_wire payload_len

  -- opssl_record_decrypt
  unfoldable pub record_decrypt : RecordState → List ℕ → ℕ → RecordState × (List ℕ × Outcome)
  record_decrypt st = decrypt_with st.cipher st
