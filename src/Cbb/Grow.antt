-- ===== src/Cbb/Grow.antt =====
-- cbb_grow: the doubled capacity, the walk to the root, and the chain that moves to the new block.
use opssl.Base.{
  ℕ, zero, suc, ◌*◌, ◌%◌, ◌^◌, ◌≤◌, ◌<◌, ◌≡◌, ◌==◌, ◌||◌, Bool, true, false, some, List, [], ◌∷◌,
  ◌++◌, refl, ap, ◌∙◌, if◌then◌else◌, Bool-cases, inl, inr, length, take, replicate, ltb, leb,
  le→ltb, length-take, length-append, length-replicate, take-take, take-append_short,
}
use native.Mathlib.Nat.{pow-suc}
use mathlib.Core.Path.{fun_ext}
use native.Mathlib.Omega.{arith}
use opssl.Cbb.{Store, realloc, resized, moved, move_chain, root_of, doubled}
use opssl.Cbb.Memory.{mem, kept, Chain, put_same_field, Chain-same}

pub doubled_enough :
    (fuel size required : ℕ)
    → 1 ≤ size
    → required ≤ 2 ^ 63
    → required ≤ size * 2 ^ fuel
    → (c : ℕ) × (doubled fuel size required ≡ some c) × (required ≤ c)
unfolding doubled
doubled_enough zero size required h k l =
    let enough : required ≤ size = omega (arith) in
    (size, rw (le→ltb size required enough) refl, enough)
doubled_enough (suc fuel) size required h k l = elim (Bool-cases (ltb size required)) [
  | inl e ↦
      let less : size < required = ground arith in
      let twice : size * 2 % 2 ^ 64 ≡ size * 2 = omega arith in
      let more : leb (size * 2) size ≡ false = ground arith in
      let bound : required ≤ size * 2 * 2 ^ fuel =
        omega (arith, ap (λ (t : ℕ). size * t) (pow-suc 2 fuel)) in
      let (c, found, enough) = doubled_enough fuel (size * 2) required (omega arith) k bound in
      let step : doubled (suc fuel) size required ≡ doubled fuel (size * 2) required =
        rw (e, twice, more) refl in
      (c, step ∙ found, enough)
  | inr e ↦ (size, rw e refl, ground arith)
]

-- The chain without its root, and the root.
abbrev pub front : ℕ → List ℕ → List ℕ
front p [] = []
front p (q ∷ qs) = p ∷ front q qs

abbrev pub last : ℕ → List ℕ → ℕ
last p [] = p
last p (q ∷ qs) = last q qs

abbrev pub relocated : Store → List ℕ → ℕ → ℕ → Store
relocated st ps buf cap = record st {
  builder = λ x. if mem x ps then record (st.builder x) { buf = buf; cap = cap } else st.builder x;
}

pub or-true : (a : Bool) → (a || true) ≡ true
or-true true = refl
or-true false = refl

pub mem-last : (x p : ℕ) (qs : List ℕ) → mem x (p ∷ qs) ≡ (mem x (front p qs) || (x == last p qs))
mem-last x p [] = ground arith
mem-last x p (q ∷ qs) = elim (Bool-cases (x == p)) [
  | inl e ↦ rw e refl
  | inr e ↦ rw e (mem-last x q qs)
]

pub root_of_lem :
    (fuel : ℕ) (st : Store) (p q : ℕ) (qs : List ℕ)
    → Chain st q qs
    → length qs < fuel
    → root_of fuel st p (some q) ≡ some (last q qs)
unfolding root_of
root_of_lem zero st p q qs chain h = absurd (omega arith)
root_of_lem (suc fuel) st p q [] chain h = rw chain refl
root_of_lem (suc fuel) st p q (r ∷ qs) (lower, child, parent, rest) h =
    rw (child, parent) (root_of_lem fuel st q r qs rest (omega arith))

moved-same :
    (st : Store) (p buf cap x : ℕ) → kept ((moved st p buf cap).builder x) ≡ kept (st.builder x)
moved-same st p buf cap x =
    put_same_field kept st p (record (st.builder p) { buf = buf; cap = cap }) refl x

move_step :
    (st : Store) (ps : List ℕ) (p buf cap x : ℕ)
    → (relocated (moved st p buf cap) ps buf cap).builder x
      ≡ (relocated st (p ∷ ps) buf cap).builder x
move_step st ps p buf cap x = elim (Bool-cases (x == p)) [
  | inl e ↦ elim (Bool-cases (mem x ps)) [
    | inl f ↦ let same : x ≡ p = ground arith in rw (f, e, same) refl
    | inr f ↦ let same : x ≡ p = ground arith in rw (f, e, same) refl
  ]
  | inr e ↦ rw e refl
]

move_chain_lem :
    (fuel : ℕ) (st : Store) (p : ℕ) (qs : List ℕ) (buf cap : ℕ)
    → Chain st p qs
    → length qs < fuel
    → move_chain fuel st buf cap (some p) ≡ relocated st (front p qs) buf cap
unfolding move_chain
move_chain_lem zero st p qs buf cap chain h = absurd (omega arith)
move_chain_lem (suc fuel) st p [] buf cap chain h = rw chain refl
move_chain_lem (suc fuel) st p (q ∷ qs) buf cap (lower, child, parent, rest) h =
    let st1 = moved st p buf cap in
    let rest1 = Chain-same st st1 q qs (λ x k. moved-same st p buf cap x) rest in
    rw (child, parent)
      (move_chain_lem fuel st1 q qs buf cap rest1 (omega arith)
        ∙ (λ i. record st { builder = fun_ext (λ x. move_step st (front q qs) p buf cap x) i }))

unfoldable pub grown : Store → ℕ → List ℕ → ℕ → Store
grown st p qs c = relocated (realloc st (st.builder p).buf c) (p ∷ qs) st.next c

pub grown-Chain :
    (fuel : ℕ) (st : Store) (p : ℕ) (qs : List ℕ) (c : ℕ)
    → Chain st p qs
    → length qs < fuel
    → move_chain fuel
        (moved (realloc st (st.builder p).buf c) (last p qs) st.next c)
        st.next
        c
        (some p)
      ≡ grown st p qs c
unfolding grown
grown-Chain fuel st p qs c chain h =
    let r = last p qs in
    let st1 = moved (realloc st (st.builder p).buf c) r st.next c in
    let chain1 =
      Chain-same st st1 p qs (λ x k. moved-same (realloc st (st.builder p).buf c) r st.next c x)
        chain in
    let both : (x : ℕ)
        → (relocated st1 (front p qs) st.next c).builder x ≡ (grown st p qs c).builder x =
      λ x. elim (Bool-cases (x == r)) [
        | inl e ↦ elim (Bool-cases (mem x (front p qs))) [
          | inl f ↦ let same : x ≡ r = ground arith in rw (mem-last x p qs, f, e, same) refl
          | inr f ↦ let same : x ≡ r = ground arith in rw (mem-last x p qs, f, e, same) refl
        ]
        | inr e ↦ elim (Bool-cases (mem x (front p qs))) [
          | inl f ↦ rw (mem-last x p qs, f, e) refl
          | inr f ↦ rw (mem-last x p qs, f, e) refl
        ]
      ] in
    move_chain_lem fuel st1 p qs st.next c chain1 h
    ∙ (λ i. record (grown st p qs c) { builder = fun_ext both i })

pub length-resized : (c : ℕ) (bytes : List ℕ) → length (resized c bytes) ≡ c
length-resized c bytes = omega (
  arith,
  length-take c (bytes ++ replicate c 0),
  length-append bytes (replicate c 0),
  length-replicate {A = ℕ} c 0,
)

pub take-resized :
    (n c : ℕ) (bytes : List ℕ) → n ≤ c → n ≤ length bytes → take n (resized c bytes) ≡ take n bytes
take-resized n c bytes h k =
    take-take n c (bytes ++ replicate c 0) h ∙ take-append_short n bytes (replicate c 0) k

pub grown_fields :
    (st : Store) (p : ℕ) (qs : List ℕ) (c x : ℕ)
    → mem x (p ∷ qs) ≡ true
    → (grown st p qs c).builder x ≡ record (st.builder x) { buf = st.next; cap = c }
unfolding grown
grown_fields st p qs c x h = rw h refl
