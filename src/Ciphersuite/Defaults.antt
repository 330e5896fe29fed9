-- ===== src/Ciphersuite/Defaults.antt =====
-- Which suites a protocol version has, and the default lists.
use opssl.Base.{
  ℕ, zero, suc, ltb, none, ◌<◌, ◌≡◌, refl, ◌↔◌, inl, inr, Bool, true, false, not, List, [], ◌∷◌,
  some, ◌==◌, length, take, if◌then◌else◌, ◌==◌, Bool-cases, Option-cases, arith, lt→ltb,
}
use opssl.Ciphersuite.{
  find, collect, filled, tls13_default, tls12_default, tls_1_2, tls_1_3, supports, is_supported,
}
use opssl.Ciphersuite.Table.{Suite, cipher_suites}
use opssl.Ciphersuite.Lookup.{Listed, find_iff}

-- The protocol version of a suite.
abbrev pub version_of : Suite → ℕ
version_of s = if s.is_tls13 then tls_1_3 else tls_1_2

supports_iff :
    (version : ℕ) (s : Suite) → (supports version (some s) ≡ true) ↔ (version ≡ version_of s)
supports_iff version s = elim (Bool-cases s.is_tls13) [
  | inl e ↦ rw e (ground arith, λ h. rw h refl)
  | inr e ↦ rw e (ground arith, λ h. rw h refl)
]

-- An identifier is supported in a version exactly if the table has a suite of this version with
-- this identifier; no version other than 1.2 and 1.3 has any.
pub is_supported_iff :
    (id version : ℕ)
    → (is_supported id version ≡ true)
      ↔ ((s : Suite) × Listed s cipher_suites × (s.id ≡ id) × (version ≡ version_of s))
unfolding is_supported
is_supported_iff id version = (
  λ h. elim (Option-cases (find id)) [
    | inl e ↦ let absurd : false ≡ true = rw e at h in cc
    | inr (s, e) ↦
        let (m, same) = (find_iff id s).0 e in (s, m, same, (supports_iff version s).0 (rw e at h))
  ],
  λ (s, m, same, v). rw ((find_iff id s).1 (m, same)) ((supports_iff version s).1 v),
)

-- The identifiers of the suites that a test keeps, in the table's order.
abbrev pub ids_of : (Suite → Bool) → List Suite → List ℕ
ids_of keep [] = []
ids_of keep (s ∷ ss) = if keep s then s.id ∷ ids_of keep ss else ids_of keep ss

collect_lem :
    (keep : Suite → Bool) (ss : List Suite) (room : ℕ)
    → collect keep ss room ≡ take room (ids_of keep ss)
unfolding collect
collect_lem keep [] zero = refl
collect_lem keep [] (suc room) = refl
collect_lem keep (s ∷ ss) zero = refl
collect_lem keep (s ∷ ss) (suc room) =
    rw (collect_lem keep ss room, collect_lem keep ss (suc room))
      (elim (Bool-cases (keep s)) [ inl e ↦ rw e refl | inr e ↦ rw e refl ])

pub suc_not_zero : (m : ℕ) → (suc m == 0) ≡ false
suc_not_zero m = ground arith

pub filled-cons : (x : ℕ) (xs : List ℕ) → filled (x ∷ xs) ≡ some (x ∷ xs)
filled-cons x xs = rw (lt→ltb 0 (length (x ∷ xs)) (omega arith)) refl

some_first :
    (xs : List ℕ) (m : ℕ)
    → ltb 0 (length xs) ≡ true
    → filled (take (suc m) xs) ≡ some (take (suc m) xs)
some_first [] m h = cc
some_first (x ∷ xs) m h = filled-cons x (take m xs)

default_lem :
    (keep : Suite → Bool) (ss : List Suite) (max : ℕ)
    → 0 < max
    → ltb 0 (length (ids_of keep ss)) ≡ true
    → (if max == 0 then none else filled (collect keep ss max)) ≡ some (take max (ids_of keep ss))
default_lem keep ss zero h k = let absurd : ⊥ = omega arith in elim absurd [ ]
default_lem keep ss (suc m) h k =
    rw (collect_lem keep ss (suc m), suc_not_zero m) (some_first (ids_of keep ss) m k)

some_tls13 : ltb 0 (length (ids_of (λ s. s.is_tls13) cipher_suites)) ≡ true
unfolding cipher_suites
some_tls13 = refl

some_tls12 : ltb 0 (length (ids_of (λ s. not s.is_tls13) cipher_suites)) ≡ true
unfolding cipher_suites
some_tls12 = refl

-- With room for at least one, each default list is the first `max` suites of its version, in the
-- order of preference of the table.
pub default_lists :
    (max : ℕ)
    → 0 < max
    → (tls13_default max ≡ some (take max (ids_of (λ s. s.is_tls13) cipher_suites)))
      × (tls12_default max ≡ some (take max (ids_of (λ s. not s.is_tls13) cipher_suites)))
unfolding tls13_default tls12_default
default_lists max h = (
  default_lem (λ s. s.is_tls13) cipher_suites max h some_tls13,
  default_lem (λ s. not s.is_tls13) cipher_suites max h some_tls12,
)
