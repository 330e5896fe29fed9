-- ===== src/Crypto/Hkdf/Label.antt =====
-- opssl_hkdf_expand_label of src/crypto/hkdf.c, and HKDF-Expand-Label as RFC 8446 defines it.
use mathlib.Core.Path.{subst}
use opssl.Base.{
  ℕ, ◌+◌, ◌*◌, ◌%◌, ◌^◌, ◌≤◌, ◌<◌, ◌≡◌, refl, sym, ap, ◌∙◌, List, [], ◌∷◌, ◌++◌, length, take,
  replicate, arith, append_assoc, append-nil, length-append, length-replicate,
}
use opssl.Bytes.{put_be16}
use opssl.Cbb.{Store, blank, cbb_init_fixed, add_u8, add_u16, add_bytes, appended}
use opssl.Cbb.Memory.{Ready}
use opssl.Cbb.Append.{appended-Ready, add_bytes_fits, appended_shape}
use opssl.Cbb.Start.{init_fixed-Ready}
use opssl.Crypto.Hmac.{
  HmacAlgo, hmac_sha1, hmac_sha256, hmac_sha384, hmac_sha512, HashCalls, digest_size,
}
use opssl.Crypto.Hmac.Rfc2104.{IsHash}
use opssl.Crypto.Hkdf.{Expansion, expanded, hkdf_expand}
use opssl.Crypto.Hkdf.Rfc5869.{rfc_stream, rounds_for, hkdf_expand_lem}

-- "tls13 "
abbrev pub tls13_prefix : List ℕ
tls13_prefix = 116 ∷ 108 ∷ 115 ∷ 49 ∷ 51 ∷ 32 ∷ []

-- Where the function starts: the array `info` is block 1, and the builder `cbb` is 0.
abbrev info_store : Store
info_store = record { builder = λ q. blank; memory = λ k. replicate 512 0; next = 2 }

-- A context without bytes is not written.
abbrev add_context : List ℕ → Store → Store
add_context [] s = s
add_context (b ∷ bytes) s = (add_bytes 1 s 0 (b ∷ bytes)).0

-- The calls that write the label, whose return values are not looked at.
unfoldable pub write_label : List ℕ → List ℕ → ℕ → Store
write_label label context out_len =
    let s0 = cbb_init_fixed info_store 0 1 512 in
    let s1 = (add_u16 1 s0 0 (out_len % 2 ^ 16)).0 in
    let s2 = (add_u8 1 s1 0 ((6 + length label) % 256)).0 in
    let s3 = (add_bytes 1 s2 0 tls13_prefix).0 in
    let s4 = (add_bytes 1 s3 0 label).0 in
    let s5 = (add_u8 1 s4 0 (length context % 256)).0 in add_context context s5

-- opssl_hkdf_expand_label: `info` is read as far as the builder's length says.
unfoldable pub hkdf_expand_label :
    HashCalls → HmacAlgo → List ℕ → List ℕ → List ℕ → ℕ → ℕ → Expansion
hkdf_expand_label h algo secret label context out_len fuel =
    let s = write_label label context out_len in
    hkdf_expand h algo secret (take (s.builder 0).len (s.memory 1)) out_len fuel

-- The structure HkdfLabel, and HKDF-Expand-Label(Secret, Label, Context, Length).
abbrev pub rfc_label : List ℕ → List ℕ → ℕ → List ℕ
rfc_label label context len =
    put_be16 len ++ ((6 + length label) ∷ (tls13_prefix ++ (label ++ (length context ∷ context))))

abbrev pub rfc_expand_label : HashCalls → HmacAlgo → List ℕ → List ℕ → List ℕ → ℕ → List ℕ
rfc_expand_label h algo secret label context len =
    take len (rfc_stream h algo secret (rfc_label label context len) (rounds_for algo len) 1 [])

-- The builder on `info`, with `text` in it.
record Holds (st : Store) (text : List ℕ) : Type 0 where
  ready : Ready st 0 [] text
  block : (st.builder 0).buf ≡ 1
  room : (st.builder 0).cap ≡ 512

start-Holds : Holds (cbb_init_fixed info_store 0 1 512) []
unfolding cbb_init_fixed
start-Holds = record {
  ready = init_fixed-Ready info_store 0 1 512 (length-replicate {A = ℕ} 512 0) (omega arith);
  block = refl;
  room = refl;
}

add_bytes-Holds :
    (st : Store) (text bytes : List ℕ)
    → Holds st text
    → length text + length bytes ≤ 512
    → Holds (add_bytes 1 st 0 bytes).0 (text ++ bytes)
add_bytes-Holds st text bytes o h =
    let step =
      add_bytes_fits 1 st 0 text bytes (o.ready) (omega (arith, o.room)) (omega (arith, o.room)) in
    let (buf, cap) = appended_shape st 0 bytes in
    let after : Holds (appended st 0 bytes) (text ++ bytes) = record {
      ready = appended-Ready st 0 [] text bytes (o.ready) (omega (arith, o.room, o.ready.count));
      block = buf ∙ o.block;
      room = cap ∙ o.room;
    } in
    subst (λ r. Holds r.0 (text ++ bytes)) (sym step) after

add_context-Holds :
    (st : Store) (text context : List ℕ)
    → Holds st text
    → length text + length context ≤ 512
    → Holds (add_context context st) (text ++ context)
add_context-Holds st text [] o h = subst (Holds st) (sym (append-nil text)) o
add_context-Holds st text (b ∷ bytes) o h = add_bytes-Holds st text (b ∷ bytes) o h

word_id : (n : ℕ) → n < 2 ^ 16 → n % 2 ^ 16 % 2 ^ 16 ≡ n
word_id n h = omega arith

byte_id : (n : ℕ) → n < 256 → n % 256 % 256 ≡ n
byte_id n h = omega arith

word_fits : (algo : HmacAlgo) (n : ℕ) → n ≤ 254 * digest_size algo → n < 2 ^ 16
word_fits hmac_sha256 n h = omega arith
word_fits hmac_sha384 n h = omega arith
word_fits hmac_sha512 n h = omega arith
word_fits hmac_sha1 n h = omega arith

write_label-Holds :
    (label context : List ℕ) (out_len : ℕ)
    → length label + length context ≤ 502
    → length label ≤ 249
    → length context ≤ 255
    → out_len < 2 ^ 16
    → Holds (write_label label context out_len) (rfc_label label context out_len)
unfolding write_label add_u8 add_u16 put_be16
write_label-Holds label context out_len both few short word =
    let size = put_be16 (out_len % 2 ^ 16 % 2 ^ 16) in
    let named = ((6 + length label) % 256 % 256) ∷ [] in
    let sized = (length context % 256 % 256) ∷ [] in
    let t2 = (([] ++ size) ++ named) in
    let t4 = (t2 ++ tls13_prefix) ++ label in
    let l4 : length t4 ≡ 9 + length label =
      omega (arith, length-append (t2 ++ tls13_prefix) label) in
    let l5 : length (t4 ++ sized) ≡ 10 + length label = omega (arith, length-append t4 sized) in
    let s1 = add_bytes-Holds _ [] size start-Holds (omega arith) in
    let s2 = add_bytes-Holds _ ([] ++ size) named s1 (omega arith) in
    let s3 = add_bytes-Holds _ t2 tls13_prefix s2 (omega arith) in
    let s4 = add_bytes-Holds _ (t2 ++ tls13_prefix) label s3 (omega arith) in
    let s5 = add_bytes-Holds _ t4 sized s4 (omega arith) in
    let s6 = add_context-Holds _ (t4 ++ sized) context s5 (omega arith) in
    let whole : (t4 ++ sized) ++ context ≡ rfc_label label context out_len =
      append_assoc t4 sized context
      ∙ append_assoc (t2 ++ tls13_prefix) label (sized ++ context)
      ∙ (λ i.
          put_be16 (word_id out_len word i)
          ++ (byte_id (6 + length label) (omega arith) i
              ∷ (tls13_prefix
                  ++ (label ++ (byte_id (length context) (omega arith) i ∷ context))))) in
    subst (Holds _) whole s6

-- opssl_hkdf_expand_label computes HKDF-Expand-Label of RFC 8446, section 7.1, of up to 254 digests, for
-- a label of at most 249 bytes and a context of at most 255, which together fit in the 512 bytes
-- of `info`. The hash function streams.
pub hkdf_expand_label_lem :
    (h : HashCalls) (algo : HmacAlgo) (secret label context : List ℕ) (out_len spare : ℕ)
    → IsHash h algo
    → length label + length context ≤ 502
    → length label ≤ 249
    → length context ≤ 255
    → out_len ≤ 254 * digest_size algo
    → hkdf_expand_label h algo secret label context out_len (256 + spare)
      ≡ expanded (rfc_expand_label h algo secret label context out_len)
unfolding hkdf_expand_label
hkdf_expand_label_lem h algo secret label context out_len spare law both few short fits =
    let word : out_len < 2 ^ 16 = word_fits algo out_len fits in
    let o = write_label-Holds label context out_len both few short word in
    let st = write_label label context out_len in
    let info : take (st.builder 0).len (st.memory 1) ≡ rfc_label label context out_len =
      ap (λ m. take (st.builder 0).len (st.memory m)) (sym o.block) ∙ o.ready.written in
    ap (λ l. hkdf_expand h algo secret l out_len (256 + spare)) info
    ∙ (hkdf_expand_lem h algo secret (rfc_label label context out_len) out_len spare law fits).0
