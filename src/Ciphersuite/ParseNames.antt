-- ===== src/Ciphersuite/ParseNames.antt =====
-- opssl_ciphersuite_parse_list reads back the names that the registry gives.
use opssl.Base.{
  ℕ, zero, suc, ◌+◌, ◌-◌, ◌<◌, ◌≤◌, ◌≡◌, refl, ap, ◌∙◌, Bool, true, false, not, List, [], ◌∷◌, ◌++◌,
  some, ◌==◌, ltb, leb, length, take, map, All, ◌&&◌, ◌||◌, arith, ltb→lt, length-append, take-nil,
}
use mathlib.Core.Option
use opssl.Ciphersuite.{
  find_by_name, is_blank, name_end, skip_blanks, after_name, parse_loop, parse_list,
}
use opssl.Ciphersuite.Table.{Suite, cipher_suites}
use opssl.Ciphersuite.Lookup.{Listed, find_by_name_iff, conj, all, all-Listed, not-true}
use opssl.Ciphersuite.Defaults.{filled-cons, suc_not_zero}

abbrev colon : List Suite → List ℕ
colon [] = []
colon (s ∷ ss) = b':' ∷ (s.name ++ colon ss)

-- The names of suites, with a colon between two of them.
abbrev pub join : List Suite → List ℕ
join [] = []
join (s ∷ ss) = s.name ++ colon ss

-- No byte ends a name.
abbrev clean : List ℕ → Bool
clean [] = true
clean (c ∷ cs) = not (c == b':' || is_blank c) && clean cs

abbrev nameable : Suite → Bool
nameable s = clean s.name && (ltb 0 (length s.name) && ltb (length s.name) 256)

table_nameable : all nameable cipher_suites ≡ true
unfolding cipher_suites
table_nameable = refl

after-colon : (ss : List Suite) → after_name (colon ss) ≡ join ss
after-colon [] = refl
after-colon (s ∷ ss) = refl

name_end-clean :
    (n : List ℕ) (ss : List Suite) → clean n ≡ true → name_end (n ++ colon ss) ≡ (n, colon ss)
unfolding name_end
name_end-clean [] [] h = refl
name_end-clean [] (s ∷ ss) h = refl
name_end-clean (c ∷ cs) ss h =
    let (here, there) = conj (not (c == b':' || is_blank c)) (clean cs) h in
    rw (name_end-clean cs ss there, not-true (c == b':' || is_blank c) here) refl

or-false : (a b : Bool) → (a || b) ≡ false → (a ≡ false) × (b ≡ false)
or-false true b h = cc
or-false false b h = (refl, h)

skip_blanks-clean :
    (n rest : List ℕ) → clean n ≡ true → 0 < length n → skip_blanks (n ++ rest) ≡ n ++ rest
unfolding skip_blanks
skip_blanks-clean [] rest h k = let absurd : ⊥ = omega arith in elim absurd [ ]
skip_blanks-clean (c ∷ cs) rest h k =
    let (here, there) = conj (not (c == b':' || is_blank c)) (clean cs) h in
    rw ((or-false (c == b':') (is_blank c) (not-true (c == b':' || is_blank c) here)).1) refl

-- One round of the loop, at a list that starts with a name of the table.
parse_loop-step :
    (fuel : ℕ) (n : List ℕ) (s : Suite) (ss : List Suite) (room : ℕ)
    → clean n ≡ true
    → 0 < length n
    → length n < 256
    → find_by_name n ≡ some s
    → parse_loop (suc fuel) (n ++ colon ss) (suc room)
      ≡ Option.map (λ ids. s.id ∷ ids) (parse_loop fuel (join ss) room)
unfolding parse_loop
parse_loop-step fuel n s ss room h1 h2 h3 found =
    let more : length (n ++ colon ss) ≡ length n + length (colon ss) = length-append n (colon ss) in
    let nonempty : (length (n ++ colon ss) == 0) ≡ false = ground arith in
    let nonempty' : (length n == 0) ≡ false = ground arith in
    let short : leb 256 (length n) ≡ false = ground arith in
    let one_less : suc room - 1 ≡ room = omega arith in
    rw
      (
        skip_blanks-clean n (colon ss) h1 h2,
        name_end-clean n ss h1,
        nonempty,
        nonempty',
        short,
        found,
        after-colon ss,
        suc_not_zero room,
        one_less,
      )
      refl

length-join : (ss : List Suite) → length (join ss) ≤ length (colon ss)
length-join [] = omega arith
length-join (s ∷ ss) = omega arith

or-true : (b : Bool) → (b || true) ≡ true
or-true true = refl
or-true false = refl

parse_loop-join :
    (fuel : ℕ) (ss : List Suite) (room : ℕ)
    → All (λ s. Listed s cipher_suites) ss
    → length (join ss) < fuel
    → parse_loop fuel (join ss) room ≡ some (take room (map (λ s. s.id) ss))
unfolding parse_loop
parse_loop-join zero ss room listed h = let absurd : ⊥ = omega arith in elim absurd [ ]
parse_loop-join (suc fuel) [] room listed h = rw (take-nil {A = ℕ} room) refl
parse_loop-join (suc fuel) (s ∷ ss) zero listed h =
    rw (or-true (length (s.name ++ colon ss) == 0)) refl
parse_loop-join (suc fuel) (s ∷ ss) (suc room) (m, ms) h =
    let row = all-Listed nameable cipher_suites s table_nameable m in
    let (pure, sizes) =
      conj (clean s.name) (ltb 0 (length s.name) && ltb (length s.name) 256) row in
    let (some_byte, short) = conj (ltb 0 (length s.name)) (ltb (length s.name) 256) sizes in
    let size : length (s.name ++ colon ss) ≡ length s.name + length (colon ss) =
      length-append s.name (colon ss) in
    let step =
      parse_loop-step fuel s.name s ss room pure (ltb→lt 0 _ some_byte) (ltb→lt _ 256 short)
        ((find_by_name_iff s.name s).1 (m, refl)) in
    let rest =
      parse_loop-join fuel ss room ms
        (omega (arith, length-join ss, ltb→lt 0 (length s.name) some_byte)) in
    step ∙ ap (Option.map (λ ids. s.id ∷ ids)) rest

-- The names of suites of the table, with colons between them, are read back as the identifiers of
-- these suites, in order, as far as there is room.
pub parse_list-join :
    (s : Suite) (ss : List Suite) (max : ℕ)
    → All (λ t. Listed t cipher_suites) (s ∷ ss)
    → 0 < max
    → parse_list (join (s ∷ ss)) max ≡ some (some (take max (map (λ t. t.id) (s ∷ ss))))
unfolding parse_list
parse_list-join s ss zero listed h = let absurd : ⊥ = omega arith in elim absurd [ ]
parse_list-join s ss (suc m) listed h =
    rw
      (
        suc_not_zero m,
        parse_loop-join (suc (length (join (s ∷ ss)))) (s ∷ ss) (suc m) listed (omega arith),
        filled-cons s.id (take m (map (λ t. t.id) ss)),
      )
      refl
