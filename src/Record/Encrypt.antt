-- ===== src/Record/Encrypt.antt =====
-- What opssl_record_encrypt writes.
use opssl.Base.{
  drop-drop, ℕ, ◌+◌, ◌%◌, ◌^◌, ◌≤◌, ◌<◌, ◌≡◌, refl, sym, ap, ◌∙◌, some, List, [], ◌∷◌, ◌++◌, length,
  take, drop, set, length-append, length-take, length-drop, length-set, append_assoc,
  take-append_split, le→ltb, arith,
}
use opssl.Bytes.{put_be16, put_be64, store}
use opssl.Bytes.Store.{length-store, take-store_at, drop-store_after}
use opssl.Conn.{AeadCtx}
use opssl.Record.{
  RecordState, AeadCalls, encrypted, next, make_nonce, make_aad, header, application_data,
  wire_version, encrypt_tls13, encrypt_tls12,
}
use opssl.Record.Buffer.{two_parts, take-store_behind}
use opssl.Record.Law.{IsAead}
use opssl.Record.Nonce.{length-put_be64, length-make_nonce}

-- The buffer of a TLS 1.3 record before it is sealed: header, text and content type.
laid_out13 :
    (buf : List ℕ) (content_type len n : ℕ)
    → n + 6 ≤ length buf
    → let buf2 = set (store buf 0 (header application_data len)) (5 + n) content_type in
      (take 5 buf2 ≡ header application_data len)
      × (take (n + 1) (drop 5 buf2) ≡ take n (drop 5 buf) ++ (content_type ∷ []))
unfolding store put_be16
laid_out13 buf content_type len n h =
    let hdr = header application_data len in
    let buf1 = store buf 0 hdr in
    let size = length-store hdr buf 0 in
    let start : take (5 + n) buf1 ≡ hdr ++ take n (drop 5 buf) = take-append_split 5 n buf1 ∙ (λ i.
      take-store_at buf hdr 0 (omega arith) i
      ++ take n (drop-store_after buf hdr 0 (omega arith) i)) in
    let whole : take (5 + (n + 1)) (store buf1 (5 + n) (content_type ∷ []))
        ≡ hdr ++ (take n (drop 5 buf) ++ (content_type ∷ [])) =
      ap (λ k. take k (store buf1 (5 + n) (content_type ∷ []))) {x = 5 + (n + 1)} {y = 5 + n + 1}
        (omega arith)
      ∙ take-store_at buf1 (content_type ∷ []) (5 + n) (omega arith)
      ∙ ap (λ l. l ++ (content_type ∷ [])) start
      ∙ append_assoc hdr (take n (drop 5 buf)) (content_type ∷ []) in
    two_parts (n + 1) (store buf1 (5 + n) (content_type ∷ [])) hdr
      (take n (drop 5 buf) ++ (content_type ∷ [])) whole

-- And of a TLS 1.2 record: header, explicit nonce and text.
laid_out12 :
    (buf : List ℕ) (content_type len seq : ℕ)
    → 13 ≤ length buf
    → let buf2 = store (store buf 0 (header content_type len)) 5 (put_be64 seq) in
      (take 13 buf2 ≡ header content_type len ++ put_be64 seq) × (drop 13 buf2 ≡ drop 13 buf)
unfolding put_be16
laid_out12 buf content_type len seq h =
    let hdr = header content_type len in
    let buf1 = store buf 0 hdr in
    let size = length-store hdr buf 0 in
    let eight = length-put_be64 seq in
    let thirteen : 5 + length (put_be64 seq) ≡ 13 = omega arith in
    (
      ap (λ k. take k (store buf1 5 (put_be64 seq))) (sym thirteen)
          ∙ take-store_behind buf1 hdr (put_be64 seq) (take-store_at buf hdr 0 (omega arith))
              (omega arith),
      ap (λ k. drop k (store buf1 5 (put_be64 seq))) (sym thirteen)
          ∙ drop-store_after buf1 (put_be64 seq) 5 (omega arith)
          ∙ ap (λ k. drop k buf1) thirteen
          ∙ sym (drop-drop 8 5 buf1)
          ∙ ap (drop 8) (drop-store_after buf hdr 0 (omega arith))
          ∙ drop-drop 8 5 buf,
    )

pub encrypt_tls13_lem :
    (aead : AeadCalls) (ctx : AeadCtx) (st : RecordState) (buf : List ℕ) (content_type n : ℕ)
    → IsAead aead ctx
    → length st.iv ≡ 12
    → n + 17 < 2 ^ 16
    → n + 22 ≤ length buf
    → (out : List ℕ) × (buf' : List ℕ) × (encrypt_tls13 aead ctx st buf content_type n
        ≡ (next st, (buf', encrypted (n + 22))))
      × (take (n + 22) buf' ≡ header application_data (n + 17) ++ out)
      × (length out ≡ n + 17)
      × (aead.open_ ctx
            (n + 17)
            (make_nonce st)
            out
            (make_aad st application_data wire_version (n + 17))
          ≡ some (take n (drop 5 buf) ++ (content_type ∷ [])))
unfolding encrypt_tls13 put_be16
encrypt_tls13_lem aead ctx st buf content_type n law iv small fits =
    let hdr = header application_data (n + 17) in
    let buf2 = set (store buf 0 hdr) (5 + n) content_type in
    let text = take n (drop 5 buf) ++ (content_type ∷ []) in
    let aad = make_aad st application_data wire_version (n + 17) in
    let (start, inner) = laid_out13 buf content_type (n + 17) n (omega arith) in
    let text_size : length text ≡ n + 1 = omega (
      arith,
      length-append (take n (drop 5 buf)) (content_type ∷ []),
      length-take n (drop 5 buf),
      length-drop 5 buf,
    ) in
    let (out, seals, size, opens) =
      law.open-seal (n + 17) (n + 17) (make_nonce st) text aad (length-make_nonce st iv)
        (omega arith) (omega arith) (omega arith) in
    let size2 = length-set (store buf 0 hdr) (5 + n) content_type ∙ length-store hdr buf 0 in
    let cipher_len : n + 1 + 16 ≡ n + 17 = omega arith in
    let len : (n + 17) % 2 ^ 16 ≡ n + 17 = omega arith in
    let total : 5 + (n + 17) ≡ n + 22 = omega arith in
    let out_size : 5 + length out ≡ n + 22 = omega arith in
    (
      out,
      store buf2 5 out,
      rw (cipher_len, len, total, le→ltb (length buf) (n + 22) fits, inner, seals) refl,
      ap (λ k. take k (store buf2 5 out)) (sym out_size)
          ∙ take-store_behind buf2 hdr out start (omega arith),
      omega arith,
      opens,
    )

pub encrypt_tls12_lem :
    (aead : AeadCalls) (ctx : AeadCtx) (st : RecordState) (buf : List ℕ) (content_type n : ℕ)
    → IsAead aead ctx
    → length st.iv ≡ 12
    → n + 24 < 2 ^ 16
    → n + 29 ≤ length buf
    → (out : List ℕ) × (buf' : List ℕ) × (encrypt_tls12 aead ctx st buf content_type n
        ≡ (next st, (buf', encrypted (n + 29))))
      × (take (n + 29) buf' ≡ (header content_type (n + 24) ++ put_be64 st.seq) ++ out)
      × (length out ≡ n + 16)
      × (aead.open_ ctx n (make_nonce st) out (make_aad st content_type wire_version n)
          ≡ some (take n (drop 13 buf)))
unfolding encrypt_tls12 put_be16
encrypt_tls12_lem aead ctx st buf content_type n law iv small fits =
    let hdr = header content_type (n + 24) in
    let buf1 = store buf 0 hdr in
    let buf2 = store buf1 5 (put_be64 st.seq) in
    let text = take n (drop 13 buf) in
    let aad = make_aad st content_type wire_version n in
    let (start, behind) = laid_out12 buf content_type (n + 24) st.seq (omega arith) in
    let text_size : length text ≡ n =
      omega (arith, length-take n (drop 13 buf), length-drop 13 buf) in
    let (out, seals, size, opens) =
      law.open-seal (n + 16) n (make_nonce st) text aad (length-make_nonce st iv) (omega arith)
        (omega arith) (omega arith) in
    let size2 = length-store (put_be64 st.seq) buf1 5 ∙ length-store hdr buf 0 in
    let payload_len : 8 + n + 16 ≡ n + 24 = omega arith in
    let len : (n + 24) % 2 ^ 16 ≡ n + 24 = omega arith in
    let plain_len : n % 2 ^ 16 ≡ n = omega arith in
    let total : 5 + (n + 24) ≡ n + 29 = omega arith in
    let first_size : length (hdr ++ put_be64 st.seq) ≡ 13 =
      omega (arith, length-append hdr (put_be64 st.seq), length-put_be64 st.seq) in
    (
      out,
      store buf2 13 out,
      rw (payload_len, len, plain_len, total, le→ltb (length buf) (n + 29) fits, behind, seals)
          refl,
      (λ i.
            take
              (let e : n + 29 ≡ length (hdr ++ put_be64 st.seq) + length out = omega arith in e i)
              (store buf2 (sym first_size i) out))
          ∙ take-store_behind buf2 (hdr ++ put_be64 st.seq) out
              (ap (λ k. take k buf2) first_size ∙ start) (omega arith),
      omega arith,
      opens,
    )
