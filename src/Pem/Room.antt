-- ===== src/Pem/Room.antt =====
-- The room that opssl_base64_encode asks for is what it needs.
use opssl.Base.{
  ℕ, ◌+◌, ◌/◌, ◌%◌, ◌<◌, ◌≤◌, ◌≡◌, refl, sym, ap, ◌∙◌, ◌⊎◌, inl, inr, Bool-cases, List, [], ◌∷◌,
  ◌++◌, length, length-append, ltb, leb, arith,
}
use opssl.Pem.{
  done, encode_group, line_break, line_start, last_break, encode_loop, base64_encode, total_len,
  encoded_len,
}

length-encode_group : (bytes : List ℕ) → length (encode_group bytes) ≡ 4
unfolding encode_group
length-encode_group bytes = refl

-- A line is broken behind 64 characters, and only there.
breaks :
    (q : ℕ)
    → (64 ≤ q) × (length (line_break q) ≡ 1) × (line_start q ≡ 0)
      ⊎ (q < 64) × (length (line_break q) ≡ 0) × (line_start q ≡ q)
unfolding line_break line_start
breaks q = elim (Bool-cases (leb 64 q)) [
  | inl e ↦ inl (ground arith, rw e refl, rw e refl)
  | inr e ↦ inr (ground arith, rw e refl, rw e refl)
]

length-last_break : (q : ℕ) → q < 64 → length (last_break q) ≡ (q + 63) / 64
unfolding last_break
length-last_break q h = elim (Bool-cases (ltb 0 q)) [
  | inl e ↦ let some_left : 0 < q = ground arith in rw e (omega arith)
  | inr e ↦ let none_left : q ≡ 0 = ground arith in rw (e, none_left) refl
]

-- What a last group and the breaks behind it come to.
length-last :
    (p : ℕ) (bytes : List ℕ)
    → p < 64
    → p % 4 ≡ 0
    → length (encode_group bytes ++ (line_break (p + 4) ++ last_break (line_start (p + 4))))
      ≡ 4 + (p + 4 + 63) / 64
length-last p bytes h four =
    let group = length-encode_group bytes in
    let all =
      length-append (encode_group bytes) (line_break (p + 4) ++ last_break (line_start (p + 4))) in
    let both = length-append (line_break (p + 4)) (last_break (line_start (p + 4))) in
    elim (breaks (p + 4)) [
      | inl (full, one, start) ↦ omega (arith, length-last_break (line_start (p + 4)) (omega arith))
      | inr (short, none, start) ↦
          omega (arith, length-last_break (line_start (p + 4)) (omega arith))
    ]

length-encode_loop :
    (p : ℕ) (bytes : List ℕ)
    → p < 64
    → p % 4 ≡ 0
    → length (encode_loop bytes p)
      ≡ encoded_len (length bytes) + (p + encoded_len (length bytes) + 63) / 64
unfolding encode_loop
length-encode_loop p [] h four = omega (arith, length-last_break p h)
length-encode_loop p (a ∷ []) h four = omega (arith, length-last p (a ∷ []) h four)
length-encode_loop p (a ∷ b ∷ []) h four = omega (arith, length-last p (a ∷ b ∷ []) h four)
length-encode_loop p (a ∷ b ∷ c ∷ bytes) h four =
    let group = length-encode_group (a ∷ b ∷ c ∷ []) in
    let q = p + 4 in
    let all =
      length-append (encode_group (a ∷ b ∷ c ∷ []))
        (line_break q ++ encode_loop bytes (line_start q)) in
    let both = length-append (line_break q) (encode_loop bytes (line_start q)) in
    elim (breaks q) [
      | inl (full, one, start) ↦
          omega (arith, length-encode_loop (line_start q) bytes (omega arith) (omega arith))
      | inr (short, none, start) ↦
          omega (arith, length-encode_loop (line_start q) bytes (omega arith) (omega arith))
    ]

-- The characters that opssl_base64_encode writes are as many as the length that it asks room for,
-- line breaks included, and so leave room in the output for one character at least.
pub length-base64_encode :
    (bytes text : List ℕ) (max_text : ℕ)
    → base64_encode bytes max_text ≡ done text
    → (length text ≡ total_len (length bytes)) × (length text < max_text)
unfolding base64_encode
length-base64_encode bytes text max_text e =
    elim (Bool-cases (leb max_text (total_len (length bytes)))) [
      | inl full ↦ let wrong = rw full at e in absurd (cc)
      | inr room ↦
          let made : done (encode_loop bytes 0) ≡ done text = rw room at e in
          let same : encode_loop bytes 0 ≡ text = cc in
          let size = length-encode_loop 0 bytes (omega arith) refl in
          let count : length text ≡ total_len (length bytes) = ap length (sym same) ∙ omega arith in
          (count, ground arith)
    ]
