-- ===== src/Record/Channel.antt =====
-- A writer and a reader with the same keys: what one encrypts the other decrypts, record by record.
use opssl.Base.{
  ℕ, ◌+◌, ◌-◌, ◌^◌, ◌≤◌, ◌<◌, ◌≡◌, refl, sym, ap, ◌∙◌, Bool, true, false, Bool-cases, inl, inr,
  some, List, ◌++◌, length, take, drop, length-take, length-drop, append_assoc, le→ltb, ◌==◌,
  if◌then◌else◌, arith,
}
use opssl.Bytes.{put_be64}
use opssl.Conn.{AeadCtx}
use opssl.Record.{
  RecordState, AeadCalls, encrypted, decrypted, next, header, application_data, wire_version,
  encrypt_tls13, encrypt_tls12, record_encrypt, decrypt_tls13, decrypt_tls12, record_decrypt,
}
use opssl.Record.Law.{IsAead}
use opssl.Record.Encrypt.{encrypt_tls13_lem, encrypt_tls12_lem}
use opssl.Record.Decrypt.{decrypt_tls13_lem, decrypt_tls12_lem, header_fields}

if_true : {A : Type 0} (b : Bool) (x y : A) → b ≡ true → (if b then x else y) ≡ x
if_true b x y e = rw e refl

if_false : {A : Type 0} (b : Bool) (x y : A) → b ≡ false → (if b then x else y) ≡ y
if_false b x y e = rw e refl

-- Where the caller puts the text of a record.
abbrev pub text_at : RecordState → ℕ
text_at st = if st.is_tls13 then 5 else 13

-- The state has this context, an IV, and sequence numbers left.
pub record IsReady (ctx : AeadCtx) (st : RecordState) : Type 0 where
  pub keyed : st.cipher ≡ some ctx
  pub iv_size : length st.iv ≡ 12
  pub left : st.seq < 2 ^ 64 - 1

not_spent : (seq : ℕ) → seq < 2 ^ 64 - 1 → (seq == 2 ^ 64 - 1) ≡ false
not_spent seq h = ground arith

encrypt_starts :
    (aead : AeadCalls) (ctx : AeadCtx) (st : RecordState) (buf : List ℕ) (content_type n : ℕ)
    → IsReady ctx st
    → record_encrypt aead st buf content_type n ≡ (
        if st.is_tls13
        then encrypt_tls13 aead ctx st buf content_type n
        else encrypt_tls12 aead ctx st buf content_type n)
unfolding record_encrypt
encrypt_starts aead ctx st buf content_type n ready =
    rw (ready.keyed, not_spent st.seq ready.left) refl

decrypt_starts :
    (aead : AeadCalls) (ctx : AeadCtx) (st : RecordState) (content_type len record_len : ℕ)
    (rest : List ℕ)
    → IsReady ctx st
    → len < 2 ^ 16
    → 5 + len ≤ record_len
    → let wire = header content_type len ++ rest in
      record_decrypt aead st wire record_len ≡ (
        if st.is_tls13
        then decrypt_tls13 aead ctx st wire content_type wire_version len
        else decrypt_tls12 aead ctx st wire content_type wire_version len)
unfolding record_decrypt
decrypt_starts aead ctx st content_type len record_len rest ready small enough =
    let (version, payload_len) = header_fields content_type len rest small in
    rw
      (
        ready.keyed,
        version,
        payload_len,
        not_spent st.seq ready.left,
        le→ltb record_len 5 (omega arith),
        le→ltb record_len (5 + len) enough,
      )
      refl

-- What opssl_record_encrypt writes, opssl_record_decrypt in the same state takes back, in TLS 1.3 and
-- in TLS 1.2, whatever stands behind the record: both succeed and count one more record, and the
-- text, which stood at byte 5 or 13 of the buffer, and the content type are the ones that were
-- encrypted. The AEAD has its contract, the sequence numbers are not spent, the content type is not
-- zero, and the text has room in a record and in the buffer.
pub record_decrypt-encrypt :
    (aead : AeadCalls) (ctx : AeadCtx) (st : RecordState) (buf rest : List ℕ)
    (content_type n extra : ℕ)
    → IsAead aead ctx
    → IsReady ctx st
    → 0 < content_type
    → n + 24 < 2 ^ 16
    → n + 29 ≤ length buf
    → (total : ℕ) × (buf' : List ℕ) × (opened : List ℕ) × (record_encrypt aead st buf content_type n
        ≡ (next st, (buf', encrypted total)))
      × (record_decrypt aead st (take total buf' ++ rest) (total + extra)
          ≡ (next st, (opened, decrypted n content_type)))
      × (take n (drop 5 opened) ≡ take n (drop (text_at st) buf))
record_decrypt-encrypt aead ctx st buf rest content_type n extra law ready type small fits =
    elim (Bool-cases st.is_tls13) [
      | inl new ↦
          let (out, buf', wrote, bytes, size, opens) =
            encrypt_tls13_lem aead ctx st buf content_type n law ready.iv_size (omega arith)
              (omega arith) in
          let (opened, took, text) =
            decrypt_tls13_lem aead ctx st out rest (take n (drop 5 buf)) content_type n size
              (omega (arith, length-take n (drop 5 buf), length-drop 5 buf)) type opens in
          (
            n + 22,
            buf',
            opened,
            encrypt_starts aead ctx st buf content_type n ready ∙ if_true _ _ _ new ∙ wrote,
            ap (λ w. record_decrypt aead st w (n + 22 + extra))
                  (ap (λ l. l ++ rest) bytes
                    ∙ append_assoc (header application_data (n + 17)) out rest)
                ∙ decrypt_starts aead ctx st application_data (n + 17) (n + 22 + extra)
                    (out ++ rest) ready (omega arith) (omega arith)
                ∙ if_true _ _ _ new
                ∙ took,
            text ∙ ap (λ k. take n (drop k buf)) (sym (if_true st.is_tls13 5 13 new)),
          )
      | inr old ↦
          let hdr = header content_type (n + 24) in
          let (out, buf', wrote, bytes, size, opens) =
            encrypt_tls12_lem aead ctx st buf content_type n law ready.iv_size (omega arith) fits in
          let (opened, took, text) =
            decrypt_tls12_lem aead ctx st out rest (take n (drop 13 buf)) content_type n old
              (omega arith) size (omega (arith, length-take n (drop 13 buf), length-drop 13 buf))
              opens in
          (
            n + 29,
            buf',
            opened,
            encrypt_starts aead ctx st buf content_type n ready ∙ if_false _ _ _ old ∙ wrote,
            ap (λ w. record_decrypt aead st w (n + 29 + extra))
                  (ap (λ l. l ++ rest) bytes
                    ∙ append_assoc (hdr ++ put_be64 st.seq) out rest
                    ∙ append_assoc hdr (put_be64 st.seq) (out ++ rest))
                ∙ decrypt_starts aead ctx st content_type (n + 24) (n + 29 + extra)
                    (put_be64 st.seq ++ (out ++ rest)) ready (omega arith) (omega arith)
                ∙ if_false _ _ _ old
                ∙ took,
            text ∙ ap (λ k. take n (drop k buf)) (sym (if_false st.is_tls13 5 13 old)),
          )
    ]
