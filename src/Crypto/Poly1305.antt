-- ===== src/Crypto/Poly1305.antt =====
-- src/crypto/poly1305.c: the authenticator, in five limbs of 26 bits.
use opssl.Base.{
  ℕ, zero, suc, ◌+◌, ◌-◌, ◌*◌, ◌/◌, ◌%◌, ◌^◌, List, [], ◌∷◌, ◌++◌, bit_and, bit_or, get_or, take,
  drop, length, replicate, ltb, if◌then◌else◌,
}
use opssl.Bytes.{shl32}
use opssl.Crypto.LittleEndian.{load32_le, store32_le}

pub record Limbs : Type 0 where
  pub l0 : ℕ
  pub l1 : ℕ
  pub l2 : ℕ
  pub l3 : ℕ
  pub l4 : ℕ

-- poly1305_state_t: `buf` is the first `buf_used` bytes of the buffer, as those behind them are never
-- read, and nor is `finalized`.
pub record PolyState : Type 0 where
  pub r : Limbs
  pub h : Limbs
  pub pad : List ℕ
  pub buf : List ℕ

-- The mask of 26 bits.
abbrev pub low26 : ℕ → ℕ
low26 x = bit_and x 0x3ffffff

abbrev pub add_u32 : ℕ → ℕ → ℕ
add_u32 a b = (a + b) % 2 ^ 32

abbrev pub times5 : ℕ → ℕ
times5 x = x * 5 % 2 ^ 32

-- poly1305_init
unfoldable pub poly1305_init : List ℕ → PolyState
poly1305_init key = record {
  r = record {
    l0 = bit_and (load32_le key) 0x3ffffff;
    l1 = bit_and (load32_le (drop 3 key) / 2 ^ 2) 0x3ffff03;
    l2 = bit_and (load32_le (drop 6 key) / 2 ^ 4) 0x3ffc0ff;
    l3 = bit_and (load32_le (drop 9 key) / 2 ^ 6) 0x3f03fff;
    l4 = bit_and (load32_le (drop 12 key) / 2 ^ 8) 0x00fffff;
  };
  h = record { l0 = 0; l1 = 0; l2 = 0; l3 = 0; l4 = 0 };
  pad =
      load32_le (drop 16 key)
      ∷ load32_le (drop 20 key)
      ∷ load32_le (drop 24 key)
      ∷ load32_le (drop 28 key)
      ∷ [];
  buf = [];
}

-- The limbs of the accumulator with the next block added.
unfoldable pub add_block : ℕ → List ℕ → Limbs → Limbs
add_block hibit p h = record {
  l0 = add_u32 h.l0 (low26 (load32_le p));
  l1 = add_u32 h.l1 (low26 (load32_le (drop 3 p) / 2 ^ 2));
  l2 = add_u32 h.l2 (low26 (load32_le (drop 6 p) / 2 ^ 4));
  l3 = add_u32 h.l3 (low26 (load32_le (drop 9 p) / 2 ^ 6));
  l4 = add_u32 h.l4 (bit_or (load32_le (drop 12 p) / 2 ^ 8) hibit);
}

-- The five sums of products, in 64 bits.
unfoldable pub products : Limbs → Limbs → Limbs
products r h =
    let s1 = times5 r.l1 in
    let s2 = times5 r.l2 in
    let s3 = times5 r.l3 in
    let s4 = times5 r.l4 in
    record {
      l0 = (h.l0 * r.l0 + h.l1 * s4 + h.l2 * s3 + h.l3 * s2 + h.l4 * s1) % 2 ^ 64;
      l1 = (h.l0 * r.l1 + h.l1 * r.l0 + h.l2 * s4 + h.l3 * s3 + h.l4 * s2) % 2 ^ 64;
      l2 = (h.l0 * r.l2 + h.l1 * r.l1 + h.l2 * r.l0 + h.l3 * s4 + h.l4 * s3) % 2 ^ 64;
      l3 = (h.l0 * r.l3 + h.l1 * r.l2 + h.l2 * r.l1 + h.l3 * r.l0 + h.l4 * s4) % 2 ^ 64;
      l4 = (h.l0 * r.l4 + h.l1 * r.l3 + h.l2 * r.l2 + h.l3 * r.l1 + h.l4 * r.l0) % 2 ^ 64;
    }

-- `c = (uint32_t)(d >> 26)` and `h = (uint32_t)d & 0x3ffffff`
abbrev pub carry64 : ℕ → ℕ
carry64 d = d / 2 ^ 26 % 2 ^ 32

abbrev pub limb64 : ℕ → ℕ
limb64 d = low26 (d % 2 ^ 32)

-- The carries, each into the next sum, and the last, five times, into the first limb.
unfoldable pub carry_products : Limbs → Limbs
carry_products d =
    let d1 = (d.l1 + carry64 d.l0) % 2 ^ 64 in
    let d2 = (d.l2 + carry64 d1) % 2 ^ 64 in
    let d3 = (d.l3 + carry64 d2) % 2 ^ 64 in
    let d4 = (d.l4 + carry64 d3) % 2 ^ 64 in
    let h0 = add_u32 (limb64 d.l0) (times5 (carry64 d4)) in
    record {
      l0 = low26 h0;
      l1 = add_u32 (limb64 d1) (h0 / 2 ^ 26);
      l2 = limb64 d2;
      l3 = limb64 d3;
      l4 = limb64 d4;
    }

-- poly1305_blocks, for `n` blocks.
unfoldable pub poly1305_blocks : ℕ → ℕ → List ℕ → Limbs → Limbs → Limbs
poly1305_blocks zero hibit p r h = h
poly1305_blocks (suc n) hibit p r h =
    poly1305_blocks n hibit (drop 16 p) r (carry_products (products r (add_block hibit p h)))

-- poly1305_update from the whole blocks on; `len & ~15` is the bytes of the whole blocks.
unfoldable pub update_rest : PolyState → List ℕ → PolyState
update_rest st bytes =
    let len = length bytes in
    let h = poly1305_blocks (len / 16) (2 ^ 24) bytes st.r st.h in
    let left = drop (len / 16 * 16) bytes in
    if ltb 0 (length left) then record st { h = h; buf = left } else record st { h = h }

-- poly1305_update
unfoldable pub poly1305_update : PolyState → List ℕ → PolyState
poly1305_update st bytes =
    let need = 16 - length st.buf in
    let full = st.buf ++ take need bytes in
    if ltb 0 (length st.buf)
    then (if ltb (length bytes) need
        then record st { buf = st.buf ++ bytes }
        else update_rest (record st { h = poly1305_blocks 1 (2 ^ 24) full st.r st.h; buf = [] })
            (drop need bytes))
    else update_rest st bytes

-- The last block, if there are bytes left: they are followed by a one, and zeros.
unfoldable pub last_block : PolyState → Limbs
last_block st =
    let padded = st.buf ++ (1 ∷ replicate (16 - length st.buf - 1) 0) in
    if ltb 0 (length st.buf) then poly1305_blocks 1 0 padded st.r st.h else st.h

-- The carries at the end, from the second limb round to it.
unfoldable pub carry_limbs : Limbs → Limbs
carry_limbs h =
    let h2 = add_u32 h.l2 (h.l1 / 2 ^ 26) in
    let h3 = add_u32 h.l3 (h2 / 2 ^ 26) in
    let h4 = add_u32 h.l4 (h3 / 2 ^ 26) in
    let h0 = add_u32 h.l0 (times5 (h4 / 2 ^ 26)) in
    record {
      l0 = low26 h0;
      l1 = add_u32 (low26 h.l1) (h0 / 2 ^ 26);
      l2 = low26 h2;
      l3 = low26 h3;
      l4 = low26 h4;
    }

-- `g = h + 5 - 2^130`, in limbs; the top one wraps where h is below 2^130 - 5.
unfoldable pub less_prime : Limbs → Limbs
less_prime h =
    let g0 = add_u32 h.l0 5 in
    let g1 = add_u32 h.l1 (g0 / 2 ^ 26) in
    let g2 = add_u32 h.l2 (g1 / 2 ^ 26) in
    let g3 = add_u32 h.l3 (g2 / 2 ^ 26) in
    record {
      l0 = low26 g0;
      l1 = low26 g1;
      l2 = low26 g2;
      l3 = low26 g3;
      l4 = (add_u32 h.l4 (g3 / 2 ^ 26) + (2 ^ 32 - 2 ^ 26)) % 2 ^ 32;
    }

-- `(h & ~mask) | (g & mask)`
abbrev pub choose : ℕ → ℕ → ℕ → ℕ
choose mask g h = bit_or (bit_and h (2 ^ 32 - 1 - mask)) (bit_and g mask)

unfoldable pub reduced : Limbs → Limbs
reduced h =
    let g = less_prime h in
    let mask = (g.l4 / 2 ^ 31 + (2 ^ 32 - 1)) % 2 ^ 32 in
    record {
      l0 = choose mask g.l0 h.l0;
      l1 = choose mask g.l1 h.l1;
      l2 = choose mask g.l2 h.l2;
      l3 = choose mask g.l3 h.l3;
      l4 = choose mask g.l4 h.l4;
    }

-- The sum with the pad, a word at a time; `f` has 64 bits.
unfoldable pub tag_of : Limbs → List ℕ → List ℕ
tag_of h pad =
    let f0 = bit_or h.l0 (shl32 h.l1 26) + get_or pad 0 0 in
    let f1 = bit_or (h.l1 / 2 ^ 6) (shl32 h.l2 20) + get_or pad 1 0 + f0 / 2 ^ 32 in
    let f2 = bit_or (h.l2 / 2 ^ 12) (shl32 h.l3 14) + get_or pad 2 0 + f1 / 2 ^ 32 in
    let f3 = bit_or (h.l3 / 2 ^ 18) (shl32 h.l4 8) + get_or pad 3 0 + f2 / 2 ^ 32 in
    store32_le (f0 % 2 ^ 32)
    ++ (store32_le (f1 % 2 ^ 32) ++ (store32_le (f2 % 2 ^ 32) ++ store32_le (f3 % 2 ^ 32)))

-- poly1305_final: the tag.
unfoldable pub poly1305_final : PolyState → List ℕ
poly1305_final st = tag_of (reduced (carry_limbs (last_block st))) st.pad

-- opssl_poly1305
unfoldable pub poly1305 : List ℕ → List ℕ → List ℕ
poly1305 msg key = poly1305_final (poly1305_update (poly1305_init key) msg)
