-- ===== src/Pem/Alphabet.antt =====
-- The two tables of base64 undo one another.
use opssl.Base.{
  ℕ, zero, suc, ◌<◌, ◌≡◌, refl, ap, ◌∙◌, Bool, true, false, not, ◌&&◌, get_or, ◌==◌, Bool-cases,
  inl, inr, arith,
}
use opssl.Pem.{base64_chars, base64_decode_table, is_whitespace, equals_sign}

-- The character for a value is in the alphabet, and its entry in the table is the value.
unfoldable pub agrees : ℕ → Bool
agrees v =
    let c = get_or base64_chars v 0 in
    (get_or base64_decode_table c 0xFF == v) && (not (is_whitespace c) && not (c == equals_sign))

all_below : (ℕ → Bool) → ℕ → Bool
all_below p zero = true
all_below p (suc n) = p n && all_below p n

and_left : (a b : Bool) → a && b ≡ true → (a ≡ true) × (b ≡ true)
and_left true b e = (refl, e)
and_left false b e = absurd (let w : false ≡ true = e in cc)

all_below_lem : (p : ℕ → Bool) (n v : ℕ) → all_below p n ≡ true → v < n → p v ≡ true
unfolding all_below
all_below_lem p zero v e h = absurd (omega arith)
all_below_lem p (suc n) v e h =
    let (last, rest) = and_left (p n) (all_below p n) e in
    elim (Bool-cases (v == n)) [
      | inl e ↦ let same : v ≡ n = ground arith in ap p same ∙ last
      | inr e ↦ all_below_lem p n v rest (ground arith)
    ]

flipped : (b : Bool) → not b ≡ true → b ≡ false
flipped true e = absurd (let w : false ≡ true = e in cc)
flipped false e = refl

eq_true : (a b : ℕ) → (a == b) ≡ true → a ≡ b
eq_true a b e = ground arith

-- A value below 64 is what its character decodes to, and the character is neither white space nor
-- padding.
pub alphabet :
    (v : ℕ)
    → v < 64
    → let c = get_or base64_chars v 0 in
      (get_or base64_decode_table c 0xFF ≡ v)
      × (is_whitespace c ≡ false)
      × ((c == equals_sign) ≡ false)
unfolding agrees all_below is_whitespace
alphabet v h =
    let all : all_below agrees 64 ≡ true = checked in
    let (value, others) = and_left _ _ (all_below_lem agrees 64 v all h) in
    let (blank, padding) = and_left _ _ others in
    (eq_true _ v value, flipped _ blank, flipped _ padding)
  where
    checked : all_below agrees 64 ≡ true
    checked = refl
