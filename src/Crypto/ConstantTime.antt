-- ===== src/Crypto/ConstantTime.antt =====
-- src/crypto/constant_time.c: comparisons and selections without branches. An `int` and a signed
-- word are their bit patterns.
pub mod Equality
pub mod Masks
use opssl.Base.{
  ℕ, zero, suc, ◌+◌, ◌-◌, ◌*◌, ◌/◌, ◌%◌, ◌^◌, List, [], ◌∷◌, bit_and, bit_or, bit_xor, ltb, ◌==◌,
  if◌then◌else◌,
}
use opssl.Bytes.{byte_at}

-- `1 & ((d - 1) >> 8)`: the bit 8 of the `int` d - 1, which is all ones where `d` is 0.
abbrev pub is_zero_byte : ℕ → ℕ
is_zero_byte d = bit_and 1 ((d + (2 ^ 32 - 1)) % 2 ^ 32 / 2 ^ 8)

-- The loops that collect the differing bits, and the set ones, of `n` bytes from `i` on.
unfoldable pub diff_loop : ℕ → ℕ → List ℕ → List ℕ → ℕ → ℕ
diff_loop zero i x y diff = diff
diff_loop (suc n) i x y diff =
    diff_loop n (i + 1) x y (bit_or diff (bit_xor (byte_at x i) (byte_at y i)))

unfoldable pub acc_loop : ℕ → ℕ → List ℕ → ℕ → ℕ
acc_loop zero i p acc = acc
acc_loop (suc n) i p acc = acc_loop n (i + 1) p (bit_or acc (byte_at p i))

-- opssl_ct_eq
unfoldable pub ct_eq : List ℕ → List ℕ → ℕ → ℕ
ct_eq a b len = is_zero_byte (diff_loop len 0 a b 0)

-- opssl_ct_is_zero
unfoldable pub ct_is_zero : List ℕ → ℕ → ℕ
ct_is_zero buf len = is_zero_byte (acc_loop len 0 buf 0)

-- The negative of a 64-bit word.
abbrev pub negate64 : ℕ → ℕ
negate64 x = (2 ^ 64 - x) % 2 ^ 64

-- opssl_ct_word_is_zero
unfoldable pub ct_word_is_zero : ℕ → ℕ
ct_word_is_zero x = bit_xor 1 (bit_or x (negate64 x) / 2 ^ 63)

-- opssl_ct_mask
unfoldable pub ct_mask : ℕ → ℕ
ct_mask condition = negate64 (if condition == 0 then 0 else 1)

-- The mask of opssl_ct_select, the low byte of the `int` -(select_a & 1).
abbrev pub select_mask : ℕ → ℕ
select_mask select_a = (2 ^ 32 - bit_and select_a 1) % 2 ^ 32 % 2 ^ 8

-- The loop of opssl_ct_select: `~mask` has the other bits, of which a byte keeps eight.
unfoldable pub select_loop : ℕ → ℕ → List ℕ → List ℕ → ℕ → List ℕ
select_loop zero i a b mask = []
select_loop (suc n) i a b mask =
    bit_or (bit_and (byte_at a i) mask) (bit_and (byte_at b i) (255 - mask))
    ∷ select_loop n (i + 1) a b mask

-- opssl_ct_select: the bytes that it stores.
unfoldable pub ct_select : List ℕ → List ℕ → ℕ → ℕ → List ℕ
ct_select a b len select_a = select_loop len 0 a b (select_mask select_a)

-- The arithmetic shift of a 64-bit word to the right by 63: its sign, in all bits.
abbrev pub sign_mask : ℕ → ℕ
sign_mask d = if ltb d (2 ^ 63) then 0 else 2 ^ 64 - 1

-- opssl_ct_min, for a `size_t` of 64 bits
unfoldable pub ct_min : ℕ → ℕ → ℕ
ct_min a b = let diff = (a + 2 ^ 64 - b) % 2 ^ 64 in (b + bit_and diff (sign_mask diff)) % 2 ^ 64
