-- ===== src/Record/Decrypt.antt =====
-- What opssl_record_decrypt makes of a record with the layout that opssl_record_encrypt gives it.
use opssl.Base.{
  drop-drop, ℕ, suc, ◌+◌, ◌-◌, ◌%◌, ◌^◌, ◌≤◌, ◌<◌, ◌≡◌, refl, sym, ap, ◌∙◌, false, some, List, [],
  ◌∷◌, ◌++◌, length, take, drop, length-append, append_assoc, drop-length, le→ltb, ◌==◌, arith,
}
use opssl.Bytes.{byte_at, be16, put_be16, put_be64, store}
use opssl.Bytes.Values.{be16-put_be16}
use opssl.Bytes.Store.{drop-store_at}
use opssl.Conn.{AeadCtx}
use opssl.Record.{
  RecordState, AeadCalls, decrypted, next, make_nonce, make_aad, header, application_data,
  wire_version, strip_zeros, decrypt_tls13, decrypt_tls12,
}
use opssl.Record.Buffer.{take-append_exact}
use opssl.Record.Nonce.{length-put_be64}

-- The fields of a header, whatever stands behind it.
pub header_fields :
    (content_type len : ℕ) (rest : List ℕ)
    → len < 2 ^ 16
    → let wire = header content_type len ++ rest in
      (be16 (drop 1 wire) ≡ wire_version) × (be16 (drop 3 wire) ≡ len)
unfolding put_be16
header_fields content_type len rest h =
    (be16-put_be16 wire_version (put_be16 len ++ rest) (omega arith), be16-put_be16 len rest h)

byte_at_end : (xs : List ℕ) (b : ℕ) → byte_at (xs ++ (b ∷ [])) (length xs) ≡ b
byte_at_end [] b = refl
byte_at_end (x ∷ xs) b = byte_at_end xs b

-- A last byte that is not zero ends the stripping at once.
strip_zeros_none :
    (xs : List ℕ) (b : ℕ) → 0 < b → strip_zeros (suc (length xs)) (xs ++ (b ∷ [])) ≡ suc (length xs)
unfolding strip_zeros
strip_zeros_none xs b h =
    let some_byte : (b == 0) ≡ false = ground arith in rw (byte_at_end xs b, some_byte) refl

pub decrypt_tls13_lem :
    (aead : AeadCalls) (ctx : AeadCtx) (st : RecordState) (out rest text : List ℕ)
    (content_type n : ℕ)
    → length out ≡ n + 17
    → length text ≡ n
    → 0 < content_type
    → aead.open_ ctx
        (n + 17)
        (make_nonce st)
        out
        (make_aad st application_data wire_version (n + 17))
      ≡ some (text ++ (content_type ∷ []))
    → let wire = header application_data (n + 17) ++ (out ++ rest) in
      (opened : List ℕ) × (decrypt_tls13 aead ctx st wire application_data wire_version (n + 17)
        ≡ (next st, (opened, decrypted n content_type)))
      × (take n (drop 5 opened) ≡ text)
unfolding decrypt_tls13 put_be16
decrypt_tls13_lem aead ctx st out rest text content_type n size text_size type opens =
    let wire = header application_data (n + 17) ++ (out ++ rest) in
    let plain = text ++ (content_type ∷ []) in
    let plain_size : length plain ≡ suc (length text) =
      omega (arith, length-append text (content_type ∷ [])) in
    let end : suc n - 1 ≡ n = omega arith in
    let some_left : (suc n == 0) ≡ false = ground arith in
    let stripped = strip_zeros_none text content_type type in
    let last : byte_at plain n ≡ content_type =
      ap (byte_at plain) (sym text_size) ∙ byte_at_end text content_type in
    let room : 5 + length plain ≤ length wire = omega (
      arith,
      length-append (header application_data (n + 17)) (out ++ rest),
      length-append out rest,
    ) in
    (
      store wire 5 plain,
      rw
          (
            le→ltb (n + 17) 16 (omega arith),
            take-append_exact (n + 17) out rest size,
            opens,
            plain_size,
            stripped,
            text_size,
            some_left,
            end,
            last,
          )
          refl,
      ap (take n) (drop-store_at wire plain 5 room ∙ append_assoc text (content_type ∷ []) _)
          ∙ take-append_exact n text _ text_size,
    )

pub decrypt_tls12_lem :
    (aead : AeadCalls) (ctx : AeadCtx) (st : RecordState) (out rest text : List ℕ)
    (content_type n : ℕ)
    → st.is_tls13 ≡ false
    → n + 24 < 2 ^ 16
    → length out ≡ n + 16
    → length text ≡ n
    → aead.open_ ctx n (make_nonce st) out (make_aad st content_type wire_version n) ≡ some text
    → let wire = header content_type (n + 24) ++ (put_be64 st.seq ++ (out ++ rest)) in
      (opened : List ℕ) × (decrypt_tls12 aead ctx st wire content_type wire_version (n + 24)
        ≡ (next st, (opened, decrypted n content_type)))
      × (take n (drop 5 opened) ≡ text)
unfolding decrypt_tls12 put_be16 make_nonce
decrypt_tls12_lem aead ctx st out rest text content_type n old small size text_size opens =
    let hdr = header content_type (n + 24) in
    let behind = put_be64 st.seq ++ (out ++ rest) in
    let wire = hdr ++ behind in
    let eight = length-put_be64 st.seq in
    let plain_len : n + 24 - 8 - 16 ≡ n = omega arith in
    let cipher_len : n + 24 - 8 ≡ n + 16 = omega arith in
    let len : n % 2 ^ 16 ≡ n = omega arith in
    let explicit : take 8 behind ≡ put_be64 st.seq =
      take-append_exact 8 (put_be64 st.seq) (out ++ rest) eight in
    let later : drop 13 wire ≡ out ++ rest =
      sym (drop-drop 8 5 wire)
      ∙ ap (λ k. drop k behind) (sym eight)
      ∙ drop-length (put_be64 st.seq) (out ++ rest) in
    let nonce : take 4 st.iv ++ put_be64 st.seq ≡ make_nonce st = rw old refl in
    let room : 5 + length text ≤ length wire = omega (
      arith,
      length-append hdr behind,
      length-append (put_be64 st.seq) (out ++ rest),
      length-append out rest,
    ) in
    (
      store wire 5 text,
      rw
          (
            le→ltb (n + 24) 24 (omega arith),
            plain_len,
            cipher_len,
            len,
            later,
            explicit,
            take-append_exact (n + 16) out rest size,
            nonce,
            opens,
            text_size,
          )
          refl,
      ap (take n) (drop-store_at wire text 5 room) ∙ take-append_exact n text _ text_size,
    )
