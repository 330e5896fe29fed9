-- ===== src/Pem/Encoded.antt =====
-- What opssl_base64_decode does with one character, and with the four of a group.
use opssl.Base.{
  ℕ, ◌+◌, ◌-◌, ◌*◌, ◌/◌, ◌%◌, ◌^◌, ◌<◌, ◌≡◌, refl, ap, ◌∙◌, false, List, [], ◌∷◌, ◌++◌, length,
  get_or, ltb, leb, bit_and, bit_or, arith, ◌==◌,
}
use opssl.Base.Bits.{bit_or_fields, bit_and_mask}
use opssl.Bytes.{IsByte, shl32}
use opssl.Pem.{
  base64_chars, equals_sign, Decoder, done, take_value, decode_char, read_bytes, encode_group,
}
use opssl.Pem.Alphabet.{alphabet}

-- A decoder that has seen no padding.
abbrev pub reading : ℕ → ℕ → List ℕ → Decoder
reading accum accum_bits out = record {
  accum = accum;
  accum_bits = accum_bits;
  padding = 0;
  out = out;
}

abbrev pub pushed : ℕ → ℕ → ℕ
pushed x v = x * 64 % 2 ^ 32 + v

push : (x v : ℕ) → v < 64 → bit_or (shl32 x 6) v ≡ pushed x v
push x v h =
    let even : x * 2 ^ 6 % 2 ^ 32 ≡ x % 2 ^ 26 * 2 ^ 6 = omega arith in
    rw even (bit_or_fields 6 (x % 2 ^ 26) v h)

-- The character for a value, where no padding has come yet.
pub char_value :
    (max_out v : ℕ) (d : Decoder)
    → v < 64
    → d.padding ≡ 0
    → decode_char max_out (get_or base64_chars v 0) d ≡ take_value max_out v d
unfolding decode_char
char_value max_out v d h none =
    let (value, blank, padding) = alphabet v h in
    let fresh : ltb 0 d.padding ≡ false = ground arith in
    let valid : (v == 0xFF) ≡ false = ground arith in rw (blank, padding, fresh, value, valid) refl

-- Six bits more, and no byte yet.
pub take_first :
    (max_out x v : ℕ) (o : List ℕ)
    → v < 64
    → take_value max_out v (reading x 0 o) ≡ done (reading (pushed x v) 6 o)
unfolding take_value
take_first max_out x v o h = ap (λ t. done (reading t 6 o)) (push x v h)

-- With a byte: `k` bits are left of `k + 8`.
pub take_byte :
    (max_out x v k : ℕ) (o : List ℕ)
    → v < 64
    → length o < max_out
    → take_value max_out v (reading x (k + 2) o)
      ≡ done (reading (pushed x v) k (o ++ (pushed x v / 2 ^ k % 256 ∷ [])))
unfolding take_value
take_byte max_out x v k o h room =
    let bits : ltb (k + 2 + 6) 8 ≡ false = ground arith in
    let full : leb max_out (length o) ≡ false = ground arith in
    let left : k + 2 + 6 - 8 ≡ k = omega arith in rw (bits, full, left, push x v h) refl

low6 : (x : ℕ) → bit_and x 0x3F ≡ x % 64
low6 x = bit_and_mask 6 0x3F x refl

read_next : (t b : ℕ) → t < 2 ^ 16 → IsByte b → bit_or (shl32 t 8) b ≡ t * 256 + b
read_next t b ht hb =
    let fits : t * 2 ^ 8 % 2 ^ 32 ≡ t * 2 ^ 8 = omega arith in rw fits (bit_or_fields 8 t b hb)

read_first : (a : ℕ) → IsByte a → bit_or (shl32 0 8) a ≡ a
read_first a h = omega (arith, read_next 0 a (omega arith) h)

read_one : (a : ℕ) → IsByte a → read_bytes 0 (a ∷ []) ≡ a
unfolding read_bytes
read_one a ha = read_first a ha

read_two : (a b : ℕ) → IsByte a → IsByte b → read_bytes 0 (a ∷ b ∷ []) ≡ a * 256 + b
unfolding read_bytes
read_two a b ha hb =
    ap (λ t. bit_or (shl32 t 8) b) (read_first a ha) ∙ read_next a b (omega arith) hb

read_three :
    (a b c : ℕ)
    → IsByte a
    → IsByte b
    → IsByte c
    → read_bytes 0 (a ∷ b ∷ c ∷ []) ≡ (a * 256 + b) * 256 + c
unfolding read_bytes
read_three a b c ha hb hc =
    ap (λ t. bit_or (shl32 (bit_or (shl32 t 8) b) 8) c) (read_first a ha)
    ∙ ap (λ t. bit_or (shl32 t 8) c) (read_next a b (omega arith) hb)
    ∙ read_next (a * 256 + b) c (omega arith) hc

char_at-value :
    (triple i v : ℕ)
    → triple / 2 ^ (i * 6) % 64 ≡ v
    → get_or base64_chars (bit_and (triple / 2 ^ (i * 6)) 0x3F) 0 ≡ get_or base64_chars v 0
char_at-value triple i v e = ap (λ k. get_or base64_chars k 0) (low6 (triple / 2 ^ (i * 6)) ∙ e)

-- The characters of three bytes, of two and of one.
pub group_three :
    (a b c : ℕ)
    → IsByte a
    → IsByte b
    → IsByte c
    → encode_group (a ∷ b ∷ c ∷ [])
      ≡ get_or base64_chars (a / 4) 0
        ∷ get_or base64_chars (a % 4 * 16 + b / 16) 0
        ∷ get_or base64_chars (b % 16 * 4 + c / 64) 0
        ∷ get_or base64_chars (c % 64) 0
        ∷ []
unfolding encode_group
group_three a b c ha hb hc =
    let t = shl32 (read_bytes 0 (a ∷ b ∷ c ∷ [])) 0 in
    let all = read_three a b c ha hb hc in
    (λ i.
      char_at-value t 3 (a / 4) (omega arith) i
      ∷ char_at-value t 2 (a % 4 * 16 + b / 16) (omega arith) i
      ∷ char_at-value t 1 (b % 16 * 4 + c / 64) (omega arith) i
      ∷ char_at-value t 0 (c % 64) (omega arith) i
      ∷ [])

pub group_two :
    (a b : ℕ)
    → IsByte a
    → IsByte b
    → encode_group (a ∷ b ∷ [])
      ≡ get_or base64_chars (a / 4) 0
        ∷ get_or base64_chars (a % 4 * 16 + b / 16) 0
        ∷ get_or base64_chars (b % 16 * 4) 0
        ∷ equals_sign
        ∷ []
unfolding encode_group
group_two a b ha hb =
    let t = shl32 (read_bytes 0 (a ∷ b ∷ [])) 8 in
    let all = read_two a b ha hb in
    (λ i.
      char_at-value t 3 (a / 4) (omega arith) i
      ∷ char_at-value t 2 (a % 4 * 16 + b / 16) (omega arith) i
      ∷ char_at-value t 1 (b % 16 * 4) (omega arith) i
      ∷ equals_sign
      ∷ [])

pub group_one :
    (a : ℕ)
    → IsByte a
    → encode_group (a ∷ [])
      ≡ get_or base64_chars (a / 4) 0
        ∷ get_or base64_chars (a % 4 * 16) 0
        ∷ equals_sign
        ∷ equals_sign
        ∷ []
unfolding encode_group
group_one a ha =
    let t = shl32 (read_bytes 0 (a ∷ [])) 16 in
    let all = read_one a ha in
    (λ i.
      char_at-value t 3 (a / 4) (omega arith) i
      ∷ char_at-value t 2 (a % 4 * 16) (omega arith) i
      ∷ equals_sign
      ∷ equals_sign
      ∷ [])
