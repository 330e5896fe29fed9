-- ===== src/Asn1/Values.antt =====
-- Booleans and bit strings of src/x509/asn1.c, and the one length form that X.690 does not allow in DER.
use opssl.Base.{
  ℕ, suc, ◌≤◌, ◌<◌, ◌≡◌, refl, sym, ap, ◌∙◌, Bool, not, Option, none, some, List, [], ◌∷◌, ◌++◌,
  arith, ltb, ◌==◌, if◌then◌else◌, ◌&&◌, length,
}
use mathlib.Core.Path.{subst}
use opssl.Cbs.{Cbs, view, get_u8, is_empty}
use opssl.Cbs.Bounds.{IsValid, length-view}
use opssl.Cbs.Reads.{u8-Codec, fixed_sound}
use opssl.Asn1.{
  Input, local, get_length, get_element, get_boolean, get_bit_string, check_boolean, check_unused,
  asn1_boolean, asn1_bit_string,
}
use opssl.Asn1.Length.{LengthForm, be_value, resume-some, checked, get_length_complete}
use opssl.Asn1.Element.{get_element_sound}

local-some :
    {A : Type 0} (reason : ℕ) (r : Cbs × Option A) (i : Input) {j : Input} {x : Cbs × A}
    → local reason r i ≡ (j, some x)
    → (r ≡ (x.0, some x.1)) × (i ≡ j)
local-some reason (c, none) i e = cc
local-some {A = A} reason (c, some a) i {j} {x} e =
    let same : ◌≡◌ {A = Cbs × A} (c, a) x = cc e in (ap (λ y. (y.0, some y.1)) same, cc e)

-- One octet of a local parser.
local_octet :
    (reason : ℕ) (c : Cbs) (i : Input) {j : Input} {d : Cbs × ℕ}
    → IsValid c
    → local reason (get_u8 c) i ≡ (j, some d)
    → (view c ≡ d.1 ∷ view d.0) × IsValid d.0 × (i ≡ j)
unfolding get_u8
local_octet reason c i {j} {d} ok e =
    let (read, same) = local-some reason (get_u8 c) i e in
    let (bytes, small, okd, _) = fixed_sound u8-Codec c ok read in (bytes, okd, same)

-- The octet that X.690 prescribes for a Boolean.
abbrev pub boolean_octet : Bool → ℕ
boolean_octet v = if v then 0xFF else 0x00

check_boolean_sound :
    (c : Cbs) (b : ℕ) (i : Input) {j : Input} {value : Bool}
    → check_boolean (c, b) i ≡ (j, some value)
    → (b ≡ boolean_octet value) × (i ≡ j)
unfolding check_boolean
check_boolean_sound c b i {j} {value} e =
    let (test, e') = checked (not (b == 0) && not (b == 0xFF)) 15 _ i e in (ground arith, cc e')

singleton : (b : ℕ) (l : List ℕ) → length (b ∷ l) ≡ 1 → b ∷ l ≡ b ∷ []
singleton b [] h = refl
singleton b (x ∷ l) h = absurd (omega arith)

-- A successful opssl_asn1_get_boolean has read an element of the boolean tag whose contents are the
-- one octet that DER prescribes for the value, 0xFF for true and 0x00 for false, and recorded no
-- error.
pub get_boolean_sound :
    (i : Input) {j : Input} {value : Bool}
    → IsValid i.cbs
    → get_boolean i ≡ (j, some value)
    → (l : List ℕ) × LengthForm 1 l
      × (view i.cbs ≡ asn1_boolean ∷ (l ++ (boolean_octet value ∷ view j.cbs)))
      × (j.errors ≡ i.errors)
unfolding get_boolean
get_boolean_sound i {j} {value} ok e =
    let (content, i1, first, e1) = resume-some (get_element asn1_boolean i) _ e in
    let (l, form, bytes, okc, ok1, errs) = get_element_sound asn1_boolean i ok first in
    let (one, e2) = checked (not (content.len == 1)) 13 _ i1 e1 in
    let (rest, i2, octet, e3) = resume-some (local 14 (get_u8 content) i1) _ e2 in
    let (inner, okd, same) = local_octet 14 content i1 okc octet in
    let (byte, same') = check_boolean_sound rest.0 rest.1 i2 e3 in
    let count : length (view content) ≡ 1 = length-view content okc.0 ∙ ground arith in
    let body : view content ≡ boolean_octet value ∷ [] =
      inner
      ∙ singleton rest.1 (view rest.0) (sym (ap length inner) ∙ count)
      ∙ ap (λ b. b ∷ []) byte in
    (
      l,
      rw count at form,
      bytes
          ∙ (λ k. asn1_boolean ∷ (l ++ (body k ++ view (same k).cbs)))
          ∙ ap (λ x. asn1_boolean ∷ (l ++ (boolean_octet value ∷ view x.cbs))) same',
      ap (λ x. x.errors) (sym same') ∙ ap (λ x. x.errors) (sym same) ∙ errs,
    )

check_unused_sound :
    (c : Cbs) (u : ℕ) (i : Input) {j : Input} {x : Cbs × ℕ}
    → check_unused (c, u) i ≡ (j, some x)
    → (u ≤ 7) × (c.len ≡ 0 → u ≡ 0) × (c ≡ x.0) × (u ≡ x.1) × (i ≡ j)
unfolding check_unused is_empty
check_unused_sound c u i {j} {x} e =
    let (few, e1) = checked (ltb 7 u) 10 _ i e in
    let (filled, e2) = checked (c.len == 0 && not (u == 0)) 11 _ i e1 in
    let same : ◌≡◌ {A = Cbs × ℕ} (c, u) x = cc e2 in
    (ground arith, λ h. ground arith, ap (λ y. y.0) same, ap (λ y. y.1) same, cc e2)

-- A successful opssl_asn1_get_bit_string has read an element of the bit-string tag, whose contents
-- are the number of unused bits, at most 7, and 0 where no octet follows, then the octets that the
-- content parser holds; it recorded no error.
pub get_bit_string_sound :
    (i : Input) {j : Input} {content : Cbs} {unused : ℕ}
    → IsValid i.cbs
    → get_bit_string i ≡ (j, some (content, unused))
    → (l : List ℕ) × LengthForm (suc (length (view content))) l
      × (view i.cbs ≡ asn1_bit_string ∷ (l ++ ((unused ∷ view content) ++ view j.cbs)))
      × (unused ≤ 7)
      × (content.len ≡ 0 → unused ≡ 0)
      × (j.errors ≡ i.errors)
unfolding get_bit_string
get_bit_string_sound i {j} {content} {unused} ok e =
    let (raw, i1, first, e1) = resume-some (get_element asn1_bit_string i) _ e in
    let (l, form, bytes, okc, ok1, errs) = get_element_sound asn1_bit_string i ok first in
    let (rest, i2, octet, e2) = resume-some (local 9 (get_u8 raw) i1) _ e1 in
    let (inner, okd, same) = local_octet 9 raw i1 okc octet in
    let (few, filled, c_same, u_same, i_same) = check_unused_sound rest.0 rest.1 i2 e2 in
    let body : view raw ≡ unused ∷ view content = inner ∙ (λ k. u_same k ∷ view (c_same k)) in
    let stop = same ∙ i_same in
    (
      l,
      subst (λ v. LengthForm (length v) l) body form,
      bytes ∙ (λ k. asn1_bit_string ∷ (l ++ (body k ++ view (stop k).cbs))),
      rw (← u_same) few,
      λ h. sym u_same ∙ filled (ap (λ c. c.len) c_same ∙ h),
      ap (λ x. x.errors) (sym stop) ∙ errs,
    )

-- The deviation from DER: a length below 128 is read from its short form and from a long form of one
-- octet alike, with the same rest.
pub two_forms_of_a_length :
    (n : ℕ) (rest : List ℕ) (i j : Input)
    → n < 128
    → IsValid i.cbs
    → IsValid j.cbs
    → view i.cbs ≡ n ∷ rest
    → view j.cbs ≡ 0x81 ∷ n ∷ rest
    → ((get_length i).1 ≡ some n)
      × ((get_length j).1 ≡ some n)
      × (view (get_length i).0.cbs ≡ view (get_length j).0.cbs)
unfolding be_value
two_forms_of_a_length n rest i j small oki okj ei ej =
    let (c, read, left, _) =
      get_length_complete i n (n ∷ []) rest oki (LengthForm.short small refl) ei in
    let form : LengthForm n (0x81 ∷ n ∷ []) =
      LengthForm.long (n ∷ []) (omega arith, tt) (omega arith) (omega arith) (omega arith)
        (λ h. absurd (omega arith)) refl in
    let (d, read', left', _) = get_length_complete j n (0x81 ∷ n ∷ []) rest okj form ej in
    (
      ap (λ r. r.1) read,
      ap (λ r. r.1) read',
      ap (λ r. view r.0.cbs) read ∙ left ∙ sym left' ∙ ap (λ r. view r.0.cbs) (sym read'),
    )
