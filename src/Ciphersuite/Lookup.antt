-- ===== src/Ciphersuite/Lookup.antt =====
-- The registry as a finite map: by identifier, by name, and the consistency of the table's columns.
use opssl.Base.{
  ℕ, ◌≡◌, refl, sym, ◌⊎◌, ◌↔◌, inl, inr, Bool, true, false, not, ◌&&◌, List, [], ◌∷◌, Option, none,
  some, All, ◌==◌, ==_iff, if◌then◌else◌, Bool-cases, Option-cases, arith,
}
use mathlib.Core.Option
use opssl.Ciphersuite.{
  find_in, find, find_by_name_in, find_by_name, name, Params, params_of, get_params,
}
use opssl.Ciphersuite.Table.{
  Suite, Aead, aes_128_gcm, aes_128_ccm, aes_128_ccm_8, aes_256_ccm_8, camellia_128_gcm,
  cipher_suites, same_text,
}

-- A suite of a list of suites.
abbrev pub Listed : Suite → List Suite → Type 0
Listed s [] = ⊥
Listed s (t ∷ ts) = (s ≡ t) ⊎ Listed s ts

pub All-Listed {κ} :
    (P : Suite → Type κ) (ss : List Suite) (s : Suite) → All P ss → Listed s ss → P s
All-Listed P [] s h m = elim m [ ]
All-Listed P (t ∷ ts) s (h, hs) (inl e) = rw e h
All-Listed P (t ∷ ts) s (h, hs) (inr m) = All-Listed P ts s hs m

-- The first suite that passes a test.
abbrev first : (Suite → Bool) → List Suite → Option Suite
first p [] = none
first p (s ∷ ss) = if p s then some s else first p ss

first-Listed :
    (p : Suite → Bool) (ss : List Suite) {s : Suite}
    → first p ss ≡ some s
    → Listed s ss × (p s ≡ true)
first-Listed p [] h = cc
first-Listed p (t ∷ ts) {s} h = elim (Bool-cases (p t)) [
  | inl e ↦
      let same : t ≡ s = Option.some-injective t s (rw e at h) in (inl (sym same), rw (sym same) e)
  | inr e ↦ let (m, k) = first-Listed p ts (rw e at h) in (inr m, k)
]

-- No row of `ss` is taken for `t`, or a row for a later one.
abbrev alone : (Suite → Suite → Bool) → Suite → List Suite → Bool
alone r t [] = true
alone r t (s ∷ ss) = not (r t s) && alone r t ss

abbrev apart : (Suite → Suite → Bool) → List Suite → Bool
apart r [] = true
apart r (t ∷ ts) = alone r t ts && apart r ts

pub conj : (a b : Bool) → (a && b) ≡ true → (a ≡ true) × (b ≡ true)
conj true b h = (refl, h)
conj false b h = cc

pub not-true : (a : Bool) → not a ≡ true → a ≡ false
not-true true h = cc
not-true false h = refl

alone-Listed :
    (r : Suite → Suite → Bool) (t : Suite) (ss : List Suite) (s : Suite)
    → alone r t ss ≡ true
    → Listed s ss
    → r t s ≡ false
alone-Listed r t [] s h m = elim m [ ]
alone-Listed r t (u ∷ us) s h (inl e) =
    rw e (not-true (r t u) (conj (not (r t u)) (alone r t us) h).0)
alone-Listed r t (u ∷ us) s h (inr m) =
    alone-Listed r t us s (conj (not (r t u)) (alone r t us) h).1 m

first-apart :
    (r : Suite → Suite → Bool) (ss : List Suite) (s : Suite)
    → r s s ≡ true
    → apart r ss ≡ true
    → Listed s ss
    → first (λ t. r t s) ss ≡ some s
first-apart r [] s same h m = elim m [ ]
first-apart r (t ∷ ts) s same h (inl e) =
    let hit : r t s ≡ true = rw (sym e) same in rw (hit, sym e) refl
first-apart r (t ∷ ts) s same h (inr m) =
    let (here, there) = conj (alone r t ts) (apart r ts) h in
    let other : r t s ≡ false = alone-Listed r t ts s here m in
    rw other (first-apart r ts s same there m)

find_in-first : (ss : List Suite) (id : ℕ) → find_in ss id ≡ first (λ s. s.id == id) ss
unfolding find_in
find_in-first [] id = refl
find_in-first (s ∷ ss) id = rw (find_in-first ss id) refl

find_by_name_in-first :
    (ss : List Suite) (n : List ℕ) → find_by_name_in ss n ≡ first (λ s. same_text s.name n) ss
unfolding find_by_name_in
find_by_name_in-first [] n = refl
find_by_name_in-first (s ∷ ss) n = rw (find_by_name_in-first ss n) refl

pub same_text_refl : (t : List ℕ) → same_text t t ≡ true
same_text_refl [] = refl
same_text_refl (c ∷ cs) = rw (same_text_refl cs) (ground arith)

same_text_sound : (t u : List ℕ) → same_text t u ≡ true → t ≡ u
same_text_sound [] [] h = refl
same_text_sound [] (y ∷ ys) h = cc
same_text_sound (x ∷ xs) [] h = cc
same_text_sound (x ∷ xs) (y ∷ ys) h =
    let (a, b) = conj (x == y) (same_text xs ys) h in
    rw ((==_iff x y).0 a, same_text_sound xs ys b) refl

ids_apart : apart (λ t s. t.id == s.id) cipher_suites ≡ true
unfolding cipher_suites
ids_apart = refl

names_apart : apart (λ t s. same_text t.name s.name) cipher_suites ≡ true
unfolding cipher_suites
names_apart = refl

-- The lookup by identifier finds a suite exactly if the table lists it with this identifier.
pub find_iff : (id : ℕ) (s : Suite) → (find id ≡ some s) ↔ (Listed s cipher_suites × (s.id ≡ id))
unfolding find
find_iff id s = rw (find_in-first cipher_suites id) (
  λ h. let (m, k) = first-Listed (λ t. t.id == id) cipher_suites h in (m, (==_iff s.id id).0 k),
  λ (m, k).
      rw (sym k)
        (first-apart (λ t u. t.id == u.id) cipher_suites s ((==_iff s.id s.id).1 refl) ids_apart m),
)

-- The lookup by name finds a suite exactly if the table lists it with this name.
pub find_by_name_iff :
    (n : List ℕ) (s : Suite) → (find_by_name n ≡ some s) ↔ (Listed s cipher_suites × (s.name ≡ n))
unfolding find_by_name
find_by_name_iff n s = rw (find_by_name_in-first cipher_suites n) (
  λ h.
      let (m, k) = first-Listed (λ t. same_text t.name n) cipher_suites h in
      (m, same_text_sound s.name n k),
  λ (m, k). rw (sym k) (
      first-apart (λ t u. same_text t.name u.name) cipher_suites s (same_text_refl s.name)
        names_apart m),
)

-- What the AEADs of the table work with: the sizes of their keys and of their tags.
abbrev pub aead_key_len : Aead → ℕ
aead_key_len aes_128_gcm = 16
aead_key_len aes_128_ccm = 16
aead_key_len aes_128_ccm_8 = 16
aead_key_len camellia_128_gcm = 16
aead_key_len _ = 32

abbrev pub aead_tag_len : Aead → ℕ
aead_tag_len aes_128_ccm_8 = 8
aead_tag_len aes_256_ccm_8 = 8
aead_tag_len _ = 16

abbrev fits : Suite → Bool
fits s = s.key_len == aead_key_len s.aead && s.tag_len == aead_tag_len s.aead && s.iv_len == 12

abbrev pub all : (Suite → Bool) → List Suite → Bool
all p [] = true
all p (s ∷ ss) = p s && all p ss

pub all-Listed :
    (p : Suite → Bool) (ss : List Suite) (s : Suite) → all p ss ≡ true → Listed s ss → p s ≡ true
all-Listed p [] s h m = elim m [ ]
all-Listed p (t ∷ ts) s h (inl e) = rw e (conj (p t) (all p ts) h).0
all-Listed p (t ∷ ts) s h (inr m) = all-Listed p ts s (conj (p t) (all p ts) h).1 m

table_fits : all fits cipher_suites ≡ true
unfolding cipher_suites
table_fits = refl

-- The parameters that opssl_ciphersuite_get_params hands out agree with one another, whatever the
-- identifier: the key and the tag have the sizes that the AEAD works with, the IV has 12 bytes.
pub get_params_agree :
    (id : ℕ) (p : Params)
    → get_params id ≡ some p
    → (p.key_len ≡ aead_key_len p.aead) × (p.tag_len ≡ aead_tag_len p.aead) × (p.iv_len ≡ 12)
unfolding get_params
get_params_agree id p h = elim (Option-cases (find id)) [
  | inl e ↦ cc
  | inr (s, e) ↦
      let row = all-Listed fits cipher_suites s table_fits ((find_iff id s).0 e).0 in
      let same : params_of s ≡ p = Option.some-injective (params_of s) p (rw e at h) in
      let (two, iv) =
        conj (s.key_len == aead_key_len s.aead && s.tag_len == aead_tag_len s.aead) (s.iv_len == 12)
          row in
      let (key, tag) =
        conj (s.key_len == aead_key_len s.aead) (s.tag_len == aead_tag_len s.aead) two in
      rw (sym same) (
        (==_iff s.key_len (aead_key_len s.aead)).0 key,
        (==_iff s.tag_len (aead_tag_len s.aead)).0 tag,
        (==_iff s.iv_len 12).0 iv,
      )
]

-- A name that the registry gives for an identifier leads back to the suite of this identifier.
pub find_by_name-name : (id : ℕ) (n : List ℕ) → name id ≡ some n → find_by_name n ≡ find id
unfolding name
find_by_name-name id n h = elim (Option-cases (find id)) [
  | inl e ↦ cc
  | inr (s, e) ↦
      let same : s.name ≡ n = Option.some-injective s.name n (rw e at h) in
      rw e ((find_by_name_iff n s).1 (((find_iff id s).0 e).0, same))
]
