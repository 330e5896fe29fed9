-- ===== src/Pem/Decoded.antt =====
-- What opssl_base64_decode does with the groups that opssl_base64_encode writes.
use opssl.Base.{
  ℕ, ◌+◌, ◌-◌, ◌*◌, ◌/◌, ◌%◌, ◌^◌, ◌<◌, ◌≤◌, ◌≡◌, refl, ap, ◌∙◌, Bool, true, false, ◌&&◌, List, [],
  ◌∷◌, ◌++◌, length, length-append, append_assoc, get_or, ltb, leb, bit_and, arith, if◌then◌else◌,
  if-cases, le→ltb,
}
use opssl.Base.Bits.{bit_and_mask}
use opssl.Bytes.{IsByte}
use opssl.Pem.{
  base64_chars, newline, Decoder, done, refused, decode_char, decode_loop, decode_end, and_then,
  encode_group, line_break, last_break, is_whitespace,
}
use opssl.Pem.Encoded.{reading, pushed, char_value, take_first, take_byte, group_three}

-- A line break changes nothing.
pub decode-line_break :
    (max_out k : ℕ) (text : List ℕ) (d : Decoder)
    → decode_loop max_out (line_break k ++ text) d ≡ decode_loop max_out text d
unfolding line_break decode_loop decode_char is_whitespace
decode-line_break max_out k text d =
    if-cases (λ l. decode_loop max_out (l ++ text) d ≡ decode_loop max_out text d) (leb 64 k)
      (newline ∷ []) [] (λ e. refl) (λ e. refl)

pub decode-last_break :
    (max_out k : ℕ) (d : Decoder) → decode_loop max_out (last_break k) d ≡ done d
unfolding last_break decode_loop decode_char is_whitespace
decode-last_break max_out k d =
    if-cases (λ l. decode_loop max_out l d ≡ done d) (ltb 0 k) (newline ∷ []) [] (λ e. refl)
      (λ e. refl)

-- Two characters: a byte, and four bits that are left.
decode_two :
    (max_out x v w : ℕ) (o text : List ℕ)
    → v < 64
    → w < 64
    → length o < max_out
    → decode_loop max_out (get_or base64_chars v 0 ∷ get_or base64_chars w 0 ∷ text) (reading x 0 o)
      ≡ decode_loop max_out text
          (reading (pushed (pushed x v) w) 4 (o ++ ((v * 4 + w / 16) % 256 ∷ [])))
unfolding decode_loop
decode_two max_out x v w o text hv hw room =
    let x1 = pushed x v in
    let first = char_value max_out v (reading x 0 o) hv refl ∙ take_first max_out x v o hv in
    let second =
      char_value max_out w (reading x1 6 o) hw refl ∙ take_byte max_out x1 w 4 o hw room in
    let value : pushed x1 w / 2 ^ 4 % 256 ≡ (v * 4 + w / 16) % 256 = omega arith in
    ap (λ r. and_then r (decode_loop max_out (get_or base64_chars w 0 ∷ text))) first
    ∙ ap (λ r. and_then r (decode_loop max_out text)) second
    ∙ ap (λ b. decode_loop max_out text (reading (pushed x1 w) 4 (o ++ (b ∷ [])))) value

-- A third: a byte more, and two bits.
decode_third :
    (max_out x v : ℕ) (o text : List ℕ)
    → v < 64
    → length o < max_out
    → decode_loop max_out (get_or base64_chars v 0 ∷ text) (reading x 4 o)
      ≡ decode_loop max_out text (reading (pushed x v) 2 (o ++ (pushed x v / 4 % 256 ∷ [])))
unfolding decode_loop
decode_third max_out x v o text hv room =
    ap (λ r. and_then r (decode_loop max_out text))
      (char_value max_out v (reading x 4 o) hv refl ∙ take_byte max_out x v 2 o hv room)

-- A fourth: a byte more, and no bit.
decode_fourth :
    (max_out x v : ℕ) (o text : List ℕ)
    → v < 64
    → length o < max_out
    → decode_loop max_out (get_or base64_chars v 0 ∷ text) (reading x 2 o)
      ≡ decode_loop max_out text (reading (pushed x v) 0 (o ++ (pushed x v % 256 ∷ [])))
unfolding decode_loop
decode_fourth max_out x v o text hv room =
    let value : pushed x v / 2 ^ 0 % 256 ≡ pushed x v % 256 = omega arith in
    ap (λ r. and_then r (decode_loop max_out text))
      (char_value max_out v (reading x 2 o) hv refl ∙ take_byte max_out x v 0 o hv room)
    ∙ ap (λ b. decode_loop max_out text (reading (pushed x v) 0 (o ++ (b ∷ [])))) value

length-snoc : (o : List ℕ) (b : ℕ) → length (o ++ (b ∷ [])) ≡ length o + 1
length-snoc o b = length-append o (b ∷ [])

pub decode_two_chars :
    (max_out x a b : ℕ) (o text : List ℕ)
    → IsByte a
    → b < 16
    → length o < max_out
    → decode_loop max_out
        (get_or base64_chars (a / 4) 0 ∷ get_or base64_chars (a % 4 * 16 + b) 0 ∷ text)
        (reading x 0 o)
      ≡ decode_loop max_out text
          (reading (pushed (pushed x (a / 4)) (a % 4 * 16 + b)) 4 (o ++ (a ∷ [])))
decode_two_chars max_out x a b o text ha hb room =
    let w = a % 4 * 16 + b in
    let value : (a / 4 * 4 + w / 16) % 256 ≡ a = omega arith in
    decode_two max_out x (a / 4) w o text (omega arith) (omega arith) room
    ∙ ap (λ t. decode_loop max_out text (reading (pushed (pushed x (a / 4)) w) 4 (o ++ (t ∷ []))))
        value

pub decode_three_chars :
    (max_out x a b c : ℕ) (o text : List ℕ)
    → IsByte a
    → IsByte b
    → c < 4
    → length o + 1 < max_out
    → (x' : ℕ) × (decode_loop max_out
          (get_or base64_chars (a / 4) 0
            ∷ get_or base64_chars (a % 4 * 16 + b / 16) 0
            ∷ get_or base64_chars (b % 16 * 4 + c) 0
            ∷ text)
          (reading x 0 o)
        ≡ decode_loop max_out text (reading (pushed x' (b % 16 * 4 + c)) 2 (o ++ (a ∷ b ∷ []))))
decode_three_chars max_out x a b c o text ha hb hc room =
    let v = b % 16 * 4 + c in
    let x2 = pushed (pushed x (a / 4)) (a % 4 * 16 + b / 16) in
    let value : pushed x2 v / 4 % 256 ≡ b = omega arith in
    let size = length-snoc o a in
    (
      x2,
      decode_two_chars max_out x a (b / 16) o (get_or base64_chars v 0 ∷ text) ha (omega arith)
            (omega arith)
          ∙ decode_third max_out x2 v (o ++ (a ∷ [])) text (omega arith) (omega arith)
          ∙ (λ i.
              decode_loop max_out text
                (reading (pushed x2 v) 2 ((o ++ (a ∷ [])) ++ (value i ∷ []))))
          ∙ ap (λ l. decode_loop max_out text (reading (pushed x2 v) 2 l))
              (append_assoc o (a ∷ []) (b ∷ [])),
    )

pub decode_group :
    (max_out x a b c : ℕ) (o text : List ℕ)
    → IsByte a
    → IsByte b
    → IsByte c
    → length o + 2 < max_out
    → (x' : ℕ) × (decode_loop max_out (encode_group (a ∷ b ∷ c ∷ []) ++ text) (reading x 0 o)
        ≡ decode_loop max_out text (reading x' 0 (o ++ (a ∷ b ∷ c ∷ []))))
decode_group max_out x a b c o text ha hb hc room =
    let v = b % 16 * 4 + c / 64 in
    let w = c % 64 in
    let (x2, three) =
      decode_three_chars max_out x a b (c / 64) o (get_or base64_chars w 0 ∷ text) ha hb
        (omega arith) (omega arith) in
    let x3 = pushed x2 v in
    let value : pushed x3 w % 256 ≡ c = omega arith in
    let size = length-append o (a ∷ b ∷ []) in
    (
      pushed x3 w,
      ap (λ l. decode_loop max_out (l ++ text) (reading x 0 o)) (group_three a b c ha hb hc)
          ∙ three
          ∙ decode_fourth max_out x3 w (o ++ (a ∷ b ∷ [])) text (omega arith) (omega arith)
          ∙ (λ i.
              decode_loop max_out text
                (reading (pushed x3 w) 0 ((o ++ (a ∷ b ∷ [])) ++ (value i ∷ []))))
          ∙ ap (λ l. decode_loop max_out text (reading (pushed x3 w) 0 l))
              (append_assoc o (a ∷ b ∷ []) (c ∷ [])),
    )

-- The end of a text: nothing but line breaks, and no bit left over.
pub end_of_text :
    (max_out k line_pos : ℕ) (d : Decoder)
    → decode_loop max_out (line_break line_pos ++ last_break k) d ≡ done d
end_of_text max_out k line_pos d =
    decode-line_break max_out line_pos (last_break k) d ∙ decode-last_break max_out k d

abbrev pub padded : ℕ → ℕ → ℕ → List ℕ → Decoder
padded accum bits padding out = record {
  accum = accum;
  accum_bits = bits;
  padding = padding;
  out = out;
}

pub low_bits_zero :
    (x k m padding : ℕ) (o : List ℕ)
    → m + 1 ≡ 2 ^ k
    → x % 2 ^ k ≡ 0
    → padding ≤ 2
    → decode_end (padded x k padding o) ≡ done o
unfolding decode_end
low_bits_zero x k m padding o ones zeros few =
    let mask : 2 ^ k - 1 ≡ m = omega arith in
    let none_left : bit_and x m ≡ 0 = bit_and_mask k m x ones ∙ zeros in
    rw (le→ltb 2 padding few, mask, none_left) (both (ltb 0 k))
  where
    both : (t : Bool) → (if t && false then refused 57 else done o) ≡ done o
    both true = refl
    both false = refl
