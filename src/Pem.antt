-- ===== src/Pem.antt =====
-- src/x509/pem.c: base64, and the markers of PEM blocks. A text is the list of its characters' codes.
pub mod Alphabet
pub mod Encoded
pub mod Decoded
pub mod Roundtrip
pub mod Room
use opssl.Base.{
  ℕ, zero, suc, ◌+◌, ◌-◌, ◌*◌, ◌/◌, ◌%◌, ◌^◌, Bool, true, false, ◌||◌, ◌&&◌, not, List, [], ◌∷◌,
  ◌++◌, length, replicate, get_or, ltb, leb, ◌==◌, if◌then◌else◌, bit_and, bit_or,
}
use opssl.Bytes.{shl32}
use opssl.Ciphersuite.Table.{codes}

abbrev pub base64_chars : List ℕ
base64_chars = codes "ABCDEFGHIJKLMNOPQRSTUVWXYZabcdefghijklmnopqrstuvwxyz0123456789+/"

abbrev pub base64_decode_table : List ℕ
base64_decode_table =
    0xFF
    ∷ 0xFF
    ∷ 0xFF
    ∷ 0xFF
    ∷ 0xFF
    ∷ 0xFF
    ∷ 0xFF
    ∷ 0xFF
    ∷ 0xFF
    ∷ 0xFF
    ∷ 0xFF
    ∷ 0xFF
    ∷ 0xFF
    ∷ 0xFF
    ∷ 0xFF
    ∷ 0xFF
    ∷ 0xFF
    ∷ 0xFF
    ∷ 0xFF
    ∷ 0xFF
    ∷ 0xFF
    ∷ 0xFF
    ∷ 0xFF
    ∷ 0xFF
    ∷ 0xFF
    ∷ 0xFF
    ∷ 0xFF
    ∷ 0xFF
    ∷ 0xFF
    ∷ 0xFF
    ∷ 0xFF
    ∷ 0xFF
    ∷ 0xFF
    ∷ 0xFF
    ∷ 0xFF
    ∷ 0xFF
    ∷ 0xFF
    ∷ 0xFF
    ∷ 0xFF
    ∷ 0xFF
    ∷ 0xFF
    ∷ 0xFF
    ∷ 0xFF
    ∷ 0x3E
    ∷ 0xFF
    ∷ 0xFF
    ∷ 0xFF
    ∷ 0x3F
    ∷ 0x34
    ∷ 0x35
    ∷ 0x36
    ∷ 0x37
    ∷ 0x38
    ∷ 0x39
    ∷ 0x3A
    ∷ 0x3B
    ∷ 0x3C
    ∷ 0x3D
    ∷ 0xFF
    ∷ 0xFF
    ∷ 0xFF
    ∷ 0x00
    ∷ 0xFF
    ∷ 0xFF
    ∷ 0xFF
    ∷ 0x00
    ∷ 0x01
    ∷ 0x02
    ∷ 0x03
    ∷ 0x04
    ∷ 0x05
    ∷ 0x06
    ∷ 0x07
    ∷ 0x08
    ∷ 0x09
    ∷ 0x0A
    ∷ 0x0B
    ∷ 0x0C
    ∷ 0x0D
    ∷ 0x0E
    ∷ 0x0F
    ∷ 0x10
    ∷ 0x11
    ∷ 0x12
    ∷ 0x13
    ∷ 0x14
    ∷ 0x15
    ∷ 0x16
    ∷ 0x17
    ∷ 0x18
    ∷ 0x19
    ∷ 0xFF
    ∷ 0xFF
    ∷ 0xFF
    ∷ 0xFF
    ∷ 0xFF
    ∷ 0xFF
    ∷ 0x1A
    ∷ 0x1B
    ∷ 0x1C
    ∷ 0x1D
    ∷ 0x1E
    ∷ 0x1F
    ∷ 0x20
    ∷ 0x21
    ∷ 0x22
    ∷ 0x23
    ∷ 0x24
    ∷ 0x25
    ∷ 0x26
    ∷ 0x27
    ∷ 0x28
    ∷ 0x29
    ∷ 0x2A
    ∷ 0x2B
    ∷ 0x2C
    ∷ 0x2D
    ∷ 0x2E
    ∷ 0x2F
    ∷ 0x30
    ∷ 0x31
    ∷ 0x32
    ∷ 0x33
    ∷ 0xFF
    ∷ 0xFF
    ∷ 0xFF
    ∷ 0xFF
    ∷ 0xFF
    ∷ replicate 128 0xFF

abbrev pub newline : ℕ
newline = 10

abbrev pub equals_sign : ℕ
equals_sign = 61

unfoldable pub is_whitespace : ℕ → Bool
is_whitespace c = c == 32 || c == 9 || c == 13 || c == newline

-- The variables of opssl_base64_decode; `out` is what it has written.
pub record Decoder : Type 0 where
  pub accum : ℕ
  pub accum_bits : ℕ
  pub padding : ℕ
  pub out : List ℕ

-- The return value 0, with the code that was recorded, or a result.
pub data Result (A : Type 0) : Type 0 where
  refused : ℕ → Result A
  done : A → Result A

-- A character of the alphabet, with its value: six more bits, and a byte out where there are eight.
unfoldable pub take_value : ℕ → ℕ → Decoder → Result Decoder
take_value max_out val d =
    let accum = bit_or (shl32 d.accum 6) val in
    let bits = d.accum_bits + 6 in
    if ltb bits 8
    then done (record d { accum = accum; accum_bits = bits })
    else if leb max_out (length d.out)
    then refused 55
    else done (record d {
      accum = accum;
      accum_bits = bits - 8;
      out = d.out ++ (accum / 2 ^ (bits - 8) % 256 ∷ []);
    })

-- The body of opssl_base64_decode's loop.
unfoldable pub decode_char : ℕ → ℕ → Decoder → Result Decoder
decode_char max_out c d =
    let val = get_or base64_decode_table c 0xFF in
    if is_whitespace c
    then done d
    else if c == equals_sign
    then done (record d { padding = d.padding + 1 })
    else if ltb 0 d.padding
    then refused 53
    else if val == 0xFF
    then refused 54
    else take_value max_out val d

abbrev pub and_then : {A B : Type 0} → Result A → (A → Result B) → Result B
and_then (refused code) f = refused code
and_then (done a) f = f a

unfoldable pub decode_loop : ℕ → List ℕ → Decoder → Result Decoder
decode_loop max_out [] d = done d
decode_loop max_out (c ∷ text) d = and_then (decode_char max_out c d) (decode_loop max_out text)

-- The tests behind the loop.
unfoldable pub decode_end : Decoder → Result (List ℕ)
decode_end d =
    if ltb 2 d.padding
    then refused 56
    else if ltb 0 d.accum_bits && not (bit_and d.accum (2 ^ d.accum_bits - 1) == 0)
    then refused 57
    else done d.out

-- opssl_base64_decode: the bytes of `out`, where `max_out` bytes have room.
unfoldable pub base64_decode : List ℕ → ℕ → Result (List ℕ)
base64_decode text max_out =
    and_then
      (decode_loop max_out text (record { accum = 0; accum_bits = 0; padding = 0; out = [] }))
      decode_end

-- The bytes of a group, read into a number.
unfoldable pub read_bytes : ℕ → List ℕ → ℕ
read_bytes triple [] = triple
read_bytes triple (b ∷ bytes) = read_bytes (bit_or (shl32 triple 8) b) bytes

-- The character for the six bits at `i * 6`.
abbrev pub char_at : ℕ → ℕ → ℕ → ℕ
char_at triple real_chars i =
    if ltb (3 - i) real_chars
    then get_or base64_chars (bit_and (triple / 2 ^ (i * 6)) 0x3F) 0
    else equals_sign

-- One round of opssl_base64_encode's loop: the four characters of up to three bytes.
unfoldable pub encode_group : List ℕ → List ℕ
encode_group bytes =
    let triple = shl32 (read_bytes 0 bytes) ((3 - length bytes) * 8) in
    let real_chars = length bytes + 1 in
    char_at triple real_chars 3
    ∷ char_at triple real_chars 2
    ∷ char_at triple real_chars 1
    ∷ char_at triple real_chars 0
    ∷ []

-- The newline behind 64 characters, and the place in the line from there.
unfoldable pub line_break : ℕ → List ℕ
line_break line_pos = if leb 64 line_pos then newline ∷ [] else []

unfoldable pub line_start : ℕ → ℕ
line_start line_pos = if leb 64 line_pos then 0 else line_pos

-- The end of the output: a newline where the line has characters.
unfoldable pub last_break : ℕ → List ℕ
last_break line_pos = if ltb 0 line_pos then newline ∷ [] else []

unfoldable pub encode_loop : List ℕ → ℕ → List ℕ
encode_loop [] line_pos = last_break line_pos
encode_loop (a ∷ []) line_pos =
    encode_group (a ∷ []) ++ (line_break (line_pos + 4) ++ last_break (line_start (line_pos + 4)))
encode_loop (a ∷ b ∷ []) line_pos =
    encode_group (a ∷ b ∷ [])
    ++ (line_break (line_pos + 4) ++ last_break (line_start (line_pos + 4)))
encode_loop (a ∷ b ∷ c ∷ bytes) line_pos =
    encode_group (a ∷ b ∷ c ∷ [])
    ++ (line_break (line_pos + 4) ++ encode_loop bytes (line_start (line_pos + 4)))

-- The length that opssl_base64_encode asks room for.
abbrev pub encoded_len : ℕ → ℕ
encoded_len in_len = (in_len + 2) / 3 * 4

abbrev pub total_len : ℕ → ℕ
total_len in_len = encoded_len in_len + (encoded_len in_len + 63) / 64

-- opssl_base64_encode: the characters of `out`, where `max_out` have room.
unfoldable pub base64_encode : List ℕ → ℕ → Result (List ℕ)
base64_encode bytes max_out =
    if leb max_out (total_len (length bytes)) then refused 58 else done (encode_loop bytes 0)
