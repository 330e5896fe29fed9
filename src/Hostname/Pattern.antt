-- ===== src/Hostname/Pattern.antt =====
-- The names that a pattern of src/x509/chain.c covers.
use mathlib.Core.Option
use opssl.Base.{
  ℕ, ◌≡◌, ◌≢◌, ◌==◌, ◌↔◌, ◌⊎◌, inl, inr, refl, sym, ap, ◌∙◌, true, false, Bool-cases, Option-cases,
  none, some, List, [], ◌∷◌, ◌++◌, All, if◌then◌else◌, arith,
}
use opssl.Hostname.{
  same, strchr, before, no_dot, from_dot, wildcard, by_wildcard, hostname_matches_pattern,
}

same_sound : (a b : List ℕ) → same a b ≡ true → a ≡ b
unfolding same
same_sound [] [] h = refl
same_sound [] (y ∷ ys) h = cc
same_sound (x ∷ xs) [] h = cc
same_sound (x ∷ xs) (y ∷ ys) h = elim (Bool-cases (x == y)) [
  | inl e ↦
      let rest : same xs ys ≡ true = rw e at h in
      let head : x ≡ y = ground arith in λ i. head i ∷ same_sound xs ys rest i
  | inr e ↦ let wrong : false ≡ true = rw e at h in cc
]

same_self : (a : List ℕ) → same a a ≡ true
unfolding same
same_self [] = refl
same_self (x ∷ xs) = let e : (x == x) ≡ true = ground arith in rw e (same_self xs)

-- A label: it has no dot.
abbrev pub IsLabel : List ℕ → Type 0
IsLabel label = All (λ c. c ≢ 46) label

-- A name that is a wildcard's: the asterisk stands for one label.
abbrev pub Covered : List ℕ → List ℕ → Type 0
Covered hostname pattern =
    (label : List ℕ) × (rest : List ℕ) × (pattern ≡ 42 ∷ 46 ∷ rest)
    × (hostname ≡ label ++ (46 ∷ rest))
    × IsLabel label

split_at_dot :
    (s dot : List ℕ) → strchr 46 s ≡ some dot → (s ≡ before 46 s ++ dot) × IsLabel (before 46 s)
unfolding strchr before
split_at_dot [] dot h = cc
split_at_dot (x ∷ xs) dot h = elim (Bool-cases (x == 46)) [
  | inl e ↦
      let found : some (x ∷ xs) ≡ some dot = rw e at h in
      rw e (Option.some-injective (x ∷ xs) dot found, tt)
  | inr e ↦
      let rest : strchr 46 xs ≡ some dot = rw e at h in
      let (split, label) = split_at_dot xs dot rest in
      let other : x ≢ 46 = λ p. let wrong : (x == 46) ≡ true = ground arith in cc in
      rw e (ap (λ l. x ∷ l) split, (other, label))
]

join_at_dot :
    (label rest : List ℕ) → IsLabel label → strchr 46 (label ++ (46 ∷ rest)) ≡ some (46 ∷ rest)
unfolding strchr
join_at_dot [] rest l = refl
join_at_dot (x ∷ xs) rest (other, l) =
    let e : (x == 46) ≡ false = ground arith in rw e (join_at_dot xs rest l)

no_dot-before : (s : List ℕ) → no_dot (before 46 s) ≡ true
unfolding no_dot before
no_dot-before [] = refl
no_dot-before (x ∷ xs) = elim (Bool-cases (x == 46)) [
  | inl e ↦ rw e refl
  | inr e ↦ rw (e, e) (no_dot-before xs)
]

wildcard-some :
    (pattern tail : List ℕ)
    → wildcard pattern ≡ some tail
    → (rest : List ℕ) × (pattern ≡ 42 ∷ 46 ∷ rest) × (tail ≡ 46 ∷ rest)
wildcard-some [] tail h = cc
wildcard-some (a ∷ []) tail h = cc
wildcard-some (a ∷ b ∷ rest) tail h = elim (Bool-cases (a == 42)) [
  | inl e ↦ elim (Bool-cases (b == 46)) [
    | inl f ↦
        let found : some (b ∷ rest) ≡ some tail = rw (e, f) at h in
        let star : a ≡ 42 = ground arith in
        let dot : b ≡ 46 = ground arith in
        (
          rest,
          (λ i. star i ∷ dot i ∷ rest),
          sym (Option.some-injective (b ∷ rest) tail found) ∙ (λ i. dot i ∷ rest),
        )
    | inr f ↦ let wrong : none ≡ some tail = rw (e, f) at h in cc
  ]
  | inr e ↦ let wrong : none ≡ some tail = rw e at h in cc
]

Covered-sound :
    (hostname pattern : List ℕ)
    → by_wildcard hostname (wildcard pattern) ≡ true
    → Covered hostname pattern
Covered-sound hostname pattern h = elim (Option-cases (wildcard pattern)) [
  | inl e ↦ let wrong : false ≡ true = rw e at h in cc
  | inr (tail, e) ↦
      let (rest, shape, starts) = wildcard-some pattern tail e in
      let found : from_dot hostname tail (strchr 46 hostname) ≡ true = rw e at h in
      elim (Option-cases (strchr 46 hostname)) [
        | inl f ↦ let wrong : false ≡ true = rw f at found in cc
        | inr (dot, f) ↦
            let test : (if same dot tail then no_dot (before 46 hostname) else false) ≡ true =
              rw f at found in
            elim (Bool-cases (same dot tail)) [
              | inl g ↦
                  let (split, label) = split_at_dot hostname dot f in
                  let suffix : dot ≡ 46 ∷ rest = same_sound dot tail g ∙ starts in
                  (
                    before 46 hostname,
                    rest,
                    shape,
                    split ∙ ap (λ d. before 46 hostname ++ d) suffix,
                    label,
                  )
              | inr g ↦ let wrong : false ≡ true = rw g at test in cc
            ]
      ]
]

Covered-complete :
    (hostname pattern : List ℕ)
    → Covered hostname pattern
    → by_wildcard hostname (wildcard pattern) ≡ true
Covered-complete hostname pattern (label, rest, shape, whole, plain) =
    let wild : wildcard pattern ≡ some (46 ∷ rest) = ap wildcard shape in
    let dot : strchr 46 hostname ≡ some (46 ∷ rest) =
      ap (strchr 46) whole ∙ join_at_dot label rest plain in
    (λ i. by_wildcard hostname (wild i))
    ∙ (λ i. from_dot hostname (46 ∷ rest) (dot i))
    ∙ rw (same_self (46 ∷ rest)) (no_dot-before hostname)

-- hostname_matches_pattern accepts a host name exactly where it is the pattern, or where the pattern is a
-- wildcard `*.` and the name is one label, without a dot, in front of the rest of the pattern: an
-- asterisk never stands for two labels, nor for a part of one. (The label can be empty.)
pub hostname_matches_pattern_iff :
    (hostname pattern : List ℕ)
    → (hostname_matches_pattern hostname pattern ≡ true)
      ↔ ((hostname ≡ pattern) ⊎ Covered hostname pattern)
unfolding hostname_matches_pattern
hostname_matches_pattern_iff hostname pattern = (
  λ h. elim (Bool-cases (same hostname pattern)) [
    | inl e ↦ inl (same_sound hostname pattern e)
    | inr e ↦ inr (
        Covered-sound hostname pattern
          (let r : by_wildcard hostname (wildcard pattern) ≡ true = rw e at h in r))
  ],
  λ h. elim h [
    | inl e ↦
        let equal : same hostname pattern ≡ true =
          ap (λ p. same hostname p) (sym e) ∙ same_self hostname in
        rw equal refl
    | inr c ↦ elim (Bool-cases (same hostname pattern)) [
      | inl e ↦ rw e refl
      | inr e ↦ rw e (Covered-complete hostname pattern c)
    ]
  ],
)
