-- ===== src/Pem/Roundtrip.antt =====
-- opssl_base64_decode gives back what opssl_base64_encode was given.
use opssl.Base.{
  ℕ, ◌+◌, ◌*◌, ◌/◌, ◌%◌, ◌^◌, ◌<◌, ◌≤◌, ◌≡◌, refl, sym, ap, ◌∙◌, false, List, [], ◌∷◌, ◌++◌, length,
  length-append, append_assoc, append-nil, All, get_or, leb, arith,
}
use opssl.Bytes.{IsByte}
use opssl.Pem.{
  base64_chars, equals_sign, Decoder, Result, done, decode_char, decode_loop, decode_end,
  base64_decode, and_then, encode_group, line_break, line_start, last_break, encode_loop,
  base64_encode, total_len, is_whitespace,
}
use opssl.Pem.Encoded.{reading, pushed, group_two, group_one}
use opssl.Pem.Decoded.{
  decode-line_break, decode-last_break, decode_two_chars, decode_three_chars, decode_group,
  end_of_text, low_bits_zero, padded,
}

-- What the decoder makes of a text, from a state on.
abbrev decoded : ℕ → List ℕ → Decoder → Result (List ℕ)
decoded max_out text d = and_then (decode_loop max_out text d) decode_end

ends_with_one :
    (max_out x a line_pos k : ℕ) (o : List ℕ)
    → IsByte a
    → length o < max_out
    → decoded max_out
        (encode_group (a ∷ []) ++ (line_break line_pos ++ last_break k))
        (reading x 0 o)
      ≡ done (o ++ (a ∷ []))
unfolding decode_loop decode_char is_whitespace
ends_with_one max_out x a line_pos k o ha room =
    let rest = line_break line_pos ++ last_break k in
    let w = a % 4 * 16 + 0 in
    let plain : a % 4 * 16 ≡ w = omega arith in
    let x2 = pushed (pushed x (a / 4)) w in
    let zeros : x2 % 2 ^ 4 ≡ 0 = omega arith in
    ap (λ l. decoded max_out (l ++ rest) (reading x 0 o))
      (group_one a ha
        ∙ ap
            (λ t.
              get_or base64_chars (a / 4) 0
              ∷ get_or base64_chars t 0
              ∷ equals_sign
              ∷ equals_sign
              ∷ [])
            plain)
    ∙ ap (λ r. and_then r decode_end)
        (decode_two_chars max_out x a 0 o (equals_sign ∷ equals_sign ∷ rest) ha (omega arith) room
          ∙ end_of_text max_out k line_pos (padded x2 4 2 (o ++ (a ∷ []))))
    ∙ low_bits_zero x2 4 15 2 (o ++ (a ∷ [])) refl zeros (omega arith)

ends_with_two :
    (max_out x a b line_pos k : ℕ) (o : List ℕ)
    → IsByte a
    → IsByte b
    → length o + 1 < max_out
    → decoded max_out
        (encode_group (a ∷ b ∷ []) ++ (line_break line_pos ++ last_break k))
        (reading x 0 o)
      ≡ done (o ++ (a ∷ b ∷ []))
unfolding decode_loop decode_char is_whitespace
ends_with_two max_out x a b line_pos k o ha hb room =
    let rest = line_break line_pos ++ last_break k in
    let w = b % 16 * 4 + 0 in
    let plain : b % 16 * 4 ≡ w = omega arith in
    let v = a % 4 * 16 + b / 16 in
    let (x2, three) =
      decode_three_chars max_out x a b 0 o (equals_sign ∷ rest) ha hb (omega arith) room in
    let zeros : pushed x2 w % 2 ^ 2 ≡ 0 = omega arith in
    ap (λ l. decoded max_out (l ++ rest) (reading x 0 o))
      (group_two a b ha hb
        ∙ ap
            (λ t.
              get_or base64_chars (a / 4) 0
              ∷ get_or base64_chars v 0
              ∷ get_or base64_chars t 0
              ∷ equals_sign
              ∷ [])
            plain)
    ∙ ap (λ r. and_then r decode_end)
        (three ∙ end_of_text max_out k line_pos (padded (pushed x2 w) 2 1 (o ++ (a ∷ b ∷ []))))
    ∙ low_bits_zero (pushed x2 w) 2 3 1 (o ++ (a ∷ b ∷ [])) refl zeros (omega arith)

decoded-encode_loop :
    (max_out x line_pos : ℕ) (o bytes : List ℕ)
    → All IsByte bytes
    → length o + length bytes ≤ max_out
    → decoded max_out (encode_loop bytes line_pos) (reading x 0 o) ≡ done (o ++ bytes)
unfolding encode_loop
decoded-encode_loop max_out x line_pos o [] all room =
    ap (λ r. and_then r decode_end) (decode-last_break max_out line_pos (reading x 0 o))
    ∙ low_bits_zero x 0 0 0 o refl (omega arith) (omega arith)
    ∙ ap done (sym (append-nil o))
decoded-encode_loop max_out x line_pos o (a ∷ []) (ha, all) room =
    ends_with_one max_out x a (line_pos + 4) (line_start (line_pos + 4)) o ha (omega arith)
decoded-encode_loop max_out x line_pos o (a ∷ b ∷ []) (ha, (hb, all)) room =
    ends_with_two max_out x a b (line_pos + 4) (line_start (line_pos + 4)) o ha hb (omega arith)
decoded-encode_loop max_out x line_pos o (a ∷ b ∷ c ∷ bytes) (ha, (hb, (hc, all))) room =
    let later = line_start (line_pos + 4) in
    let (x', group) =
      decode_group max_out x a b c o (line_break (line_pos + 4) ++ encode_loop bytes later) ha hb hc
        (omega arith) in
    let o' = o ++ (a ∷ b ∷ c ∷ []) in
    let size = length-append o (a ∷ b ∷ c ∷ []) in
    ap (λ r. and_then r decode_end)
      (group ∙ decode-line_break max_out (line_pos + 4) (encode_loop bytes later) (reading x' 0 o'))
    ∙ decoded-encode_loop max_out x' later o' bytes all (omega arith)
    ∙ ap done (append_assoc o (a ∷ b ∷ c ∷ []) bytes)

-- What opssl_base64_encode makes of bytes, lines of 64 characters and padding included,
-- opssl_base64_decode turns into the bytes again, where both outputs have room.
pub base64_decode-encode :
    (bytes : List ℕ) (max_text max_out : ℕ)
    → All IsByte bytes
    → total_len (length bytes) < max_text
    → length bytes ≤ max_out
    → (text : List ℕ) × (base64_encode bytes max_text ≡ done text)
      × (base64_decode text max_out ≡ done bytes)
unfolding base64_encode base64_decode
base64_decode-encode bytes max_text max_out all room fits =
    let enough : leb max_text (total_len (length bytes)) ≡ false = ground arith in
    (
      encode_loop bytes 0,
      rw enough refl,
      decoded-encode_loop max_out 0 0 [] bytes all (omega arith),
    )
