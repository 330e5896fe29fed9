-- ===== src/Ciphersuite/ParseList.antt =====
-- opssl_ciphersuite_parse_list: it ends, it stays within the room, and it reads back a list of names.
use opssl.Base.{
  ℕ, zero, suc, ◌+◌, ◌-◌, ◌<◌, ◌≤◌, ◌≡◌, refl, ◌⊎◌, inl, inr, Bool, true, false, List, [], ◌∷◌,
  Option, none, some, ◌==◌, ltb, leb, length, All, ◌||◌, if◌then◌else◌, Bool-cases, arith, ltb→lt,
}
use mathlib.Core.Option
use opssl.Ciphersuite.{
  find_by_name, is_blank, name_end, skip_blanks, after_name, known, parse_loop, parse_list,
}
use opssl.Ciphersuite.Table.{Suite, cipher_suites}
use opssl.Ciphersuite.Lookup.{Listed, find_by_name_iff}

-- An identifier of the table.
abbrev pub IsKnown : ℕ → Type 0
IsKnown id = (s : Suite) × Listed s cipher_suites × (s.id ≡ id)

-- What the loop leaves: it ended, with at most `room` identifiers, all of the table.
abbrev Good : ℕ → Option (List ℕ) → Type 0
Good room r = (ids : List ℕ) × (r ≡ some ids) × (length ids ≤ room) × All IsKnown ids

Good-if :
    (b : Bool) (room : ℕ) (x y : Option (List ℕ))
    → Good room x
    → (b ≡ false → Good room y)
    → Good room (if b then x else y)
Good-if true room x y gx gy = gx
Good-if false room x y gx gy = gy refl

Good-known :
    (b : Bool) (found : Option Suite) (room : ℕ) (r : ℕ → Option (List ℕ))
    → 0 < room
    → ((s : Suite) → found ≡ some s → Listed s cipher_suites)
    → ((m : ℕ) → Good m (r m))
    → Good room (
        Option.map (known (if b then none else found)) (
          r (
            if b
            then room
            else elim (if b then none else found) [ none ↦ room | some s ↦ room - 1 ])))
Good-known true found room r h listed each =
    let (ids, e, few, ok) = each room in (ids, rw e refl, few, ok)
Good-known false none room r h listed each =
    let (ids, e, few, ok) = each room in (ids, rw e refl, few, ok)
Good-known false (some s) room r h listed each =
    let (ids, e, few, ok) = each (room - 1) in
    (s.id ∷ ids, rw e refl, omega arith, ((s, listed s refl, refl), ok))

length-skip_blanks : (text : List ℕ) → length (skip_blanks text) ≤ length text
unfolding skip_blanks
length-skip_blanks [] = omega arith
length-skip_blanks (c ∷ cs) =
    let shorter = length-skip_blanks cs in
    elim (Bool-cases (is_blank c)) [ inl e ↦ rw e (omega arith) | inr e ↦ rw e (omega arith) ]

length-name_end :
    (text : List ℕ) → length (name_end text).0 + length (name_end text).1 ≡ length text
unfolding name_end
length-name_end [] = refl
length-name_end (c ∷ cs) =
    let shorter = length-name_end cs in
    elim (Bool-cases (c == b':' || is_blank c)) [
      | inl e ↦ rw e (omega arith)
      | inr e ↦ rw e (omega arith)
    ]

length-after_name : (text : List ℕ) → length (after_name text) ≤ length text
length-after_name [] = omega arith
length-after_name (c ∷ cs) = elim (Bool-cases (c == b':')) [
  | inl e ↦ rw e (omega arith)
  | inr e ↦ rw e (omega arith)
]

or-false : (a b : Bool) → (a || b) ≡ false → (a ≡ false) × (b ≡ false)
or-false true b h = cc
or-false false b h = (refl, h)

not_zero : (n : ℕ) → (n == 0) ≡ false → 0 < n
not_zero n h = ground arith

parse_loop-Good :
    (fuel : ℕ) (text : List ℕ) (room : ℕ)
    → length text < fuel
    → Good room (parse_loop fuel text room)
unfolding parse_loop
parse_loop-Good zero text room h = let absurd : ⊥ = omega arith in elim absurd [ ]
parse_loop-Good (suc fuel) text room h =
    let start = skip_blanks text in
    let parts = name_end start in
    let nothing : Good room (some []) = ([], refl, omega arith, tt) in
    Good-if (length text == 0 || room == 0) room _ _ nothing (λ a.
      Good-if (length start == 0) room _ _ nothing (λ b.
        Good-if (length parts.0 == 0) room _ _ nothing (λ c.
          Good-known (leb 256 (length parts.0)) (find_by_name parts.0) room
            (λ m. parse_loop fuel (after_name parts.1) m)
            (not_zero room (or-false (length text == 0) (room == 0) a).1)
            (λ s e. ((find_by_name_iff parts.0 s).0 e).0)
            (λ m. parse_loop-Good fuel (after_name parts.1) m (
              let l1 = length-skip_blanks text in
              let l2 = length-name_end start in
              let l3 = length-after_name parts.1 in
              let l4 = not_zero (length parts.0) c in omega arith)))))

-- For every list and every room, opssl_ciphersuite_parse_list ends, and returns -1 or at least one
-- and at most `max` identifiers, each of a suite of the table.
pub parse_list-total :
    (text : List ℕ) (max : ℕ)
    → (parse_list text max ≡ some none)
      ⊎ ((ids : List ℕ) × (parse_list text max ≡ some (some ids))
          × (0 < length ids)
          × (length ids ≤ max)
          × All IsKnown ids)
unfolding parse_list
parse_list-total text max = elim (Bool-cases (max == 0)) [
  | inl e ↦ rw e (inl refl)
  | inr e ↦
      let (ids, ended, few, ok) = parse_loop-Good (suc (length text)) text max (omega arith) in
      rw (e, ended)
        (elim (Bool-cases (ltb 0 (length ids))) [
          | inl k ↦ inr (ids, rw k refl, ltb→lt 0 (length ids) k, few, ok)
          | inr k ↦ inl (rw k refl)
        ])
]
