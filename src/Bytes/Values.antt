-- ===== src/Bytes/Values.antt =====
-- What the big-endian loads of include/opssl/platform.h compute, and that they undo the stores.
use opssl.Base.{
  ℕ, ◌+◌, ◌*◌, ◌/◌, ◌%◌, ◌^◌, ◌<◌, ◌≡◌, refl, List, ◌∷◌, ◌++◌, bit_or, arith, append_assoc, drop,
  take, length, All, [], ◌≤◌,
}
use opssl.Base.Bits.{bit_or_fields}
use opssl.Bytes.{IsByte, be16, be24, be32, be64, put_be16, put_be24, put_be32, put_be64}

or8 : (q r : ℕ) → r < 256 → bit_or (q * 256) r ≡ q * 256 + r
or8 q r h = bit_or_fields 8 q r h

or16 : (q r : ℕ) → r < 65536 → bit_or (q * 65536) r ≡ q * 65536 + r
or16 q r h = bit_or_fields 16 q r h

or32 : (q r : ℕ) → r < 2 ^ 32 → bit_or (q * 2 ^ 32) r ≡ q * 2 ^ 32 + r
or32 q r h = bit_or_fields 32 q r h

pub be16_value : (a b : ℕ) (p : List ℕ) → IsByte a → IsByte b → be16 (a ∷ b ∷ p) ≡ a * 256 + b
unfolding be16
be16_value a b p ha hb = omega (arith, or8 a b hb)

-- Two fields joined, then a third below them.
or_next : (q x r : ℕ) → r < 256 → x ≡ q * 256 → bit_or x r ≡ q * 256 + r
or_next q x r h e = rw e (or8 q r h)

fits32 : (x : ℕ) → x < 2 ^ 32 → x % 2 ^ 32 ≡ x
fits32 x h = omega arith

pub be24_value :
    (a b c : ℕ) (p : List ℕ)
    → IsByte a
    → IsByte b
    → IsByte c
    → be24 (a ∷ b ∷ c ∷ p) ≡ a * 65536 + b * 256 + c
unfolding be24
be24_value a b c p ha hb hc =
    rw (fits32 (a * 65536) (omega arith), fits32 (b * 256) (omega arith))
      (omega (
        arith,
        or_next (a * 256 + b) (bit_or (a * 65536) (b * 256)) c hc
            (omega (arith, or16 a (b * 256) (omega arith))),
      ))

or24 : (q r : ℕ) → r < 2 ^ 24 → bit_or (q * 2 ^ 24) r ≡ q * 2 ^ 24 + r
or24 q r h = bit_or_fields 24 q r h

or16_next : (q x r : ℕ) → r < 65536 → x ≡ q * 65536 → bit_or x r ≡ q * 65536 + r
or16_next q x r h e = rw e (or16 q r h)

pub be32_value :
    (a b c d : ℕ) (p : List ℕ)
    → IsByte a
    → IsByte b
    → IsByte c
    → IsByte d
    → be32 (a ∷ b ∷ c ∷ d ∷ p) ≡ a * 2 ^ 24 + b * 65536 + c * 256 + d
unfolding be32
be32_value a b c d p ha hb hc hd =
    rw
      (
        fits32 (a * 2 ^ 24) (omega arith),
        fits32 (b * 65536) (omega arith),
        fits32 (c * 256) (omega arith),
      )
      (omega (arith, or_next (a * 65536 + b * 256 + c) top3 d hd (omega (arith, third))))
  where
    top2 : ℕ
    top2 = bit_or (a * 2 ^ 24) (b * 65536)

    top3 : ℕ
    top3 = bit_or top2 (c * 256)

    third : top3 ≡ (a * 256 + b) * 65536 + c * 256
    third =
        or16_next (a * 256 + b) top2 (c * 256) (omega arith)
          (omega (arith, or24 a (b * 65536) (omega arith)))

pub be16-put_be16 : (v : ℕ) (p : List ℕ) → v < 2 ^ 16 → be16 (put_be16 v ++ p) ≡ v
unfolding put_be16
be16-put_be16 v p h = omega (arith, be16_value (v / 2 ^ 8 % 256) (v % 256) p)

pub be24-put_be24 : (v : ℕ) (p : List ℕ) → v < 2 ^ 24 → be24 (put_be24 v ++ p) ≡ v
unfolding put_be24
be24-put_be24 v p h = omega (arith, be24_value (v / 2 ^ 16 % 256) (v / 2 ^ 8 % 256) (v % 256) p)

pub be32-put_be32 : (v : ℕ) (p : List ℕ) → v < 2 ^ 32 → be32 (put_be32 v ++ p) ≡ v
unfolding put_be32
be32-put_be32 v p h =
    omega (arith, be32_value (v / 2 ^ 24 % 256) (v / 2 ^ 16 % 256) (v / 2 ^ 8 % 256) (v % 256) p)

drop_four : (v : ℕ) (p : List ℕ) → drop 4 (put_be32 v ++ p) ≡ p
unfolding put_be32
drop_four v p = refl

pub be64-put_be64 : (v : ℕ) (p : List ℕ) → v < 2 ^ 64 → be64 (put_be64 v ++ p) ≡ v
unfolding be64 put_be64
be64-put_be64 v p h =
    rw
      (
        append_assoc (put_be32 (v / 2 ^ 32 % 2 ^ 32)) (put_be32 (v % 2 ^ 32)) p,
        drop_four (v / 2 ^ 32 % 2 ^ 32) (put_be32 (v % 2 ^ 32) ++ p),
        be32-put_be32 (v / 2 ^ 32 % 2 ^ 32) (put_be32 (v % 2 ^ 32) ++ p) (omega arith),
        be32-put_be32 (v % 2 ^ 32) p (omega arith),
        fits64,
      )
      (omega (arith, or32 (v / 2 ^ 32) (v % 2 ^ 32) (omega arith)))
  where
    fits64 : v / 2 ^ 32 % 2 ^ 32 * 2 ^ 32 % 2 ^ 64 ≡ v / 2 ^ 32 * 2 ^ 32
    fits64 = omega arith

-- The stores undo the loads: the bytes that a load reads are those that a store of its value writes.
pub put_be16-be16 :
    (p : List ℕ) → All IsByte p → 2 ≤ length p → (put_be16 (be16 p) ≡ take 2 p) × (be16 p < 2 ^ 16)
put_be16-be16 [] h k = absurd (omega arith)
put_be16-be16 (a ∷ []) h k = absurd (omega arith)
put_be16-be16 (a ∷ b ∷ p) (ha, (hb, hp)) k =
    rw (be16_value a b p ha hb) (unfold put_be16 in ground arith, omega arith)

pub put_be24-be24 :
    (p : List ℕ) → All IsByte p → 3 ≤ length p → (put_be24 (be24 p) ≡ take 3 p) × (be24 p < 2 ^ 24)
put_be24-be24 [] h k = absurd (omega arith)
put_be24-be24 (a ∷ []) h k = absurd (omega arith)
put_be24-be24 (a ∷ b ∷ []) h k = absurd (omega arith)
put_be24-be24 (a ∷ b ∷ c ∷ p) (ha, (hb, (hc, hp))) k =
    rw (be24_value a b c p ha hb hc) (unfold put_be24 in ground arith, omega arith)

pub put_be32-be32 :
    (p : List ℕ) → All IsByte p → 4 ≤ length p → (put_be32 (be32 p) ≡ take 4 p) × (be32 p < 2 ^ 32)
put_be32-be32 [] h k = absurd (omega arith)
put_be32-be32 (a ∷ []) h k = absurd (omega arith)
put_be32-be32 (a ∷ b ∷ []) h k = absurd (omega arith)
put_be32-be32 (a ∷ b ∷ c ∷ []) h k = absurd (omega arith)
put_be32-be32 (a ∷ b ∷ c ∷ d ∷ p) (ha, (hb, (hc, (hd, hp)))) k =
    rw (be32_value a b c d p ha hb hc hd) (unfold put_be32 in ground arith, omega arith)
