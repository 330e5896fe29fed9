-- ===== src/Err/Codes.antt =====
-- Packed error codes: the category in the top byte, the reason in the lower three.
use opssl.Base.{ℕ, ◌+◌, ◌*◌, ◌%◌, ◌^◌, ◌<◌, ◌≡◌, arith}
use opssl.Base.Bits.{bit_or_fields, bit_and_low24}
use opssl.Err.{
  Category, no_error, tls, crypto, x509, io, memory, internal, category_code, pack, get_category,
  get_reason, detect_category,
}

category_code-lt : (c : Category) → category_code c < 256
unfolding category_code
category_code-lt no_error = omega arith
category_code-lt tls = omega arith
category_code-lt crypto = omega arith
category_code-lt x509 = omega arith
category_code-lt io = omega arith
category_code-lt memory = omega arith
category_code-lt internal = omega arith

pub pack_value : (c : Category) (r : ℕ) → pack c r ≡ category_code c * 2 ^ 24 + r % 2 ^ 24
unfolding pack
pack_value c r =
    let small = category_code-lt c in
    let top : category_code c * 2 ^ 24 % 2 ^ 32 ≡ category_code c * 2 ^ 24 = omega arith in
    rw (top, bit_and_low24 (r % 2 ^ 32))
      (omega (arith, bit_or_fields 24 (category_code c) (r % 2 ^ 32 % 2 ^ 24) (omega arith)))

-- Unpacking a packed code gives back its category, and its reason as far as 24 bits hold it.
pub unpack-pack :
    (c : Category) (r : ℕ)
    → (get_category (pack c r) ≡ category_code c) × (get_reason (pack c r) ≡ r % 2 ^ 24)
unfolding get_category get_reason
unpack-pack c r =
    let small = category_code-lt c in rw (bit_and_low24 (pack c r)) (omega (arith, pack_value c r))

-- opssl_set_error files every reason below 1000, and so each of the reasons 1 to 22 that
-- include/opssl/err.h lists for it, under the internal errors.
pub detect_category_low : (r : ℕ) → r < 1000 → detect_category r ≡ internal
unfolding detect_category
detect_category_low r h = ground arith
