-- ===== src/Crypto/ChaCha20Poly1305/Open.antt =====
-- What opssl_chacha20_poly1305_open makes of a sealed message, and what it accepts.
use opssl.Base.{
  ℕ, ◌+◌, ◌-◌, ◌^◌, ◌≤◌, ◌<◌, ◌≡◌, refl, sym, ap, ◌∙◌, List, ◌++◌, Option, none, some, length, take,
  drop, All, All-append, ltb, ◌==◌, le→ltb, ltb→le, length-append, take-length, drop-length,
  take_all, arith, false, true, Bool, if◌then◌else◌, length-drop, length-take, All-drop,
  take-append_drop,
}
use mathlib.Core.Option
use opssl.Bytes.{IsByte}
use opssl.Crypto.LittleEndian.{store32_le}
use opssl.Crypto.ConstantTime.{ct_eq}
use opssl.Crypto.ConstantTime.Equality.{ct_eq_iff, ct_eq-lt}
use opssl.Crypto.ChaCha20.{chacha20}
use opssl.Crypto.ChaCha20.Stream.{chacha20-key_stream, chacha20_twice}
use opssl.Crypto.Poly1305.{tag_of, poly1305_final}
use opssl.Crypto.ChaCha20Poly1305.{compute_tag, poly_key, seal, open_}

four_bytes : (v : ℕ) → All IsByte (store32_le v) × (length (store32_le v) ≡ 4)
unfolding store32_le
four_bytes v = ((omega arith, (omega arith, (omega arith, (omega arith, tt)))), refl)

sixteen :
    (a b c d : ℕ)
    → All IsByte (store32_le a ++ (store32_le b ++ (store32_le c ++ store32_le d)))
      × (length (store32_le a ++ (store32_le b ++ (store32_le c ++ store32_le d))) ≡ 16)
sixteen a b c d =
    let (ba, la) = four_bytes a in
    let (bb, lb) = four_bytes b in
    let (bc, lc) = four_bytes c in
    let (bd, ld) = four_bytes d in
    (
      All-append IsByte (store32_le a) _ ba
          (All-append IsByte (store32_le b) _ bb (All-append IsByte (store32_le c) _ bc bd)),
      omega (
        arith,
        length-append (store32_le a) (store32_le b ++ (store32_le c ++ store32_le d)),
        length-append (store32_le b) (store32_le c ++ store32_le d),
        length-append (store32_le c) (store32_le d),
      ),
    )

-- A tag has sixteen bytes.
pub compute_tag_size :
    (poly_key aad ct : List ℕ)
    → All IsByte (compute_tag poly_key aad ct) × (length (compute_tag poly_key aad ct) ≡ 16)
unfolding compute_tag poly1305_final tag_of
compute_tag_size poly_key aad ct = sixteen _ _ _ _

ct_eq_same : (tag : List ℕ) → All IsByte tag → length tag ≡ 16 → (ct_eq tag tag 16 == 0) ≡ false
ct_eq_same tag bytes size =
    let same = (ct_eq_iff tag tag 16 bytes bytes (omega arith) (omega arith)).1 refl in rw same refl

-- With room for its result, which is sixteen bytes longer than the plaintext,
-- opssl_chacha20_poly1305_seal succeeds, and opssl_chacha20_poly1305_open, with the same key, nonce
-- and additional data and room for the plaintext, gives the plaintext back.
pub open-seal :
    (max_out room : ℕ) (key nonce plaintext aad : List ℕ)
    → length plaintext < 2 ^ 64 - 16
    → length plaintext + 16 ≤ max_out
    → length plaintext ≤ room
    → (sealed : List ℕ) × (seal max_out key nonce plaintext aad ≡ some sealed)
      × (length sealed ≡ length plaintext + 16)
      × (open_ room key nonce sealed aad ≡ some plaintext)
unfolding seal open_
open-seal max_out room key nonce plaintext aad h1 h2 h3 =
    let ct = chacha20 plaintext key nonce 1 in
    let tag = compute_tag (poly_key key nonce) aad ct in
    let size = (chacha20-key_stream plaintext key nonce 1).1 in
    let (bytes, sixteen) = compute_tag_size (poly_key key nonce) aad ct in
    let whole : length (ct ++ tag) ≡ length plaintext + 16 = omega (arith, length-append ct tag) in
    let pt_len : length (ct ++ tag) - 16 ≡ length ct = omega arith in
    (
      ct ++ tag,
      rw
          (
            le→ltb (2 ^ 64 - 1 - 16) (length plaintext) (omega arith),
            le→ltb max_out (length plaintext + 16) h2,
          )
          refl,
      whole,
      rw
          (
            le→ltb (length (ct ++ tag)) 16 (omega arith),
            pt_len,
            le→ltb room (length ct) (omega arith),
            take-length ct tag,
            drop-length ct tag,
            ct_eq_same tag bytes sixteen,
            chacha20_twice plaintext key nonce 1,
          )
          refl,
    )

guard :
    {A : Type 0} (b : Bool) (x : Option A) {a : A}
    → (if b then none else x) ≡ some a
    → (b ≡ false) × (x ≡ some a)
guard true x e = cc
guard false x e = (refl, e)

-- opssl_chacha20_poly1305_open accepts nothing but what opssl_chacha20_poly1305_seal makes, with the
-- same key, nonce and additional data, of the plaintext that it returns, which is no longer than the
-- room for it.
pub seal-open :
    (room : ℕ) (key nonce ciphertext aad plaintext : List ℕ)
    → All IsByte ciphertext
    → length ciphertext < 2 ^ 64
    → open_ room key nonce ciphertext aad ≡ some plaintext
    → (seal (length ciphertext) key nonce plaintext aad ≡ some ciphertext)
      × (length plaintext ≤ room)
unfolding open_ seal
seal-open room key nonce ciphertext aad plaintext bytes small e =
    let pt_len = length ciphertext - 16 in
    let ct = take pt_len ciphertext in
    let tag = compute_tag (poly_key key nonce) aad ct in
    let rest = drop pt_len ciphertext in
    let (long, e1) = guard (ltb (length ciphertext) 16) _ e in
    let (fits, e2) = guard (ltb room pt_len) _ e1 in
    let (checked, e3) = guard (ct_eq tag rest 16 == 0) _ e2 in
    let plain : chacha20 ct key nonce 1 ≡ plaintext = Option.some-injective _ plaintext e3 in
    let long' = ltb→le (length ciphertext) 16 long in
    let fits' = ltb→le room pt_len fits in
    let back : chacha20 plaintext key nonce 1 ≡ ct =
      ap (λ p. chacha20 p key nonce 1) (sym plain) ∙ chacha20_twice ct key nonce 1 in
    let (tag_bytes, tag_size) = compute_tag_size (poly_key key nonce) aad ct in
    let one : ct_eq tag rest 16 ≡ 1 = ground (arith, ct_eq-lt tag rest 16) in
    let rest_size : length rest ≡ 16 = omega (arith, length-drop pt_len ciphertext) in
    let ct_size : length ct ≡ pt_len = omega (arith, length-take pt_len ciphertext) in
    let same =
      (ct_eq_iff tag rest 16 tag_bytes (All-drop IsByte pt_len ciphertext bytes) (omega arith)
          (omega arith)).0
        one in
    let tag_is : tag ≡ rest =
      sym (take_all 16 tag (omega arith)) ∙ same ∙ take_all 16 rest (omega arith) in
    let size : length plaintext ≡ pt_len =
      ap length (sym plain) ∙ (chacha20-key_stream ct key nonce 1).1 ∙ ct_size in
    (
      rw
          (
            le→ltb (2 ^ 64 - 1 - 16) (length plaintext) (omega arith),
            le→ltb (length ciphertext) (length plaintext + 16) (omega arith),
            back,
            tag_is,
          )
          (ap (λ l. some l) (take-append_drop pt_len ciphertext)),
      omega arith,
    )
