-- ===== src/Asn1/Element.antt =====
-- The elements of src/x509/asn1.c: what a successful read has found in the view.
use opssl.Base.{
  ℕ, ◌<◌, ◌≡◌, refl, sym, ap, ◌∙◌, true, not, Option, none, some, List, ◌∷◌, ◌++◌, arith, ◌==◌,
  length,
}
use opssl.Cbs
use opssl.Cbs.{Cbs, Parser, view, get_u8, get_bytes, advance, is_empty, fixed}
use opssl.Cbs.Bounds.{IsValid, length-view}
use opssl.Cbs.Reads.{u8-Codec, fixed_sound, fixed_complete, get_bytes_sound, get_bytes_complete}
use opssl.Asn1.{Input, resume, lift, lifted, get_tag, get_length, get_element, skip_element}
use opssl.Asn1.Length.{LengthForm, resume-some, checked, get_length_sound, get_length_complete}

lifted-some :
    {A : Type 0} (i : Input) (r : Cbs × Option A) {j : Input} {a : A}
    → lifted i r ≡ (j, some a)
    → (c : Cbs) × (r ≡ (c, some a)) × (j ≡ record i { cbs = c })
lifted-some i (c, none) e = cc
lifted-some i (c, some b) e = (c, cc, cc)

tag_sound :
    (i : Input) {j : Input} {tag : ℕ}
    → IsValid i.cbs
    → get_tag i ≡ (j, some tag)
    → (view i.cbs ≡ tag ∷ view j.cbs) × IsValid j.cbs × (j.errors ≡ i.errors)
unfolding get_tag get_u8
tag_sound i {j} {tag} ok e =
    let (c, read, moved) = lifted-some i (get_u8 i.cbs) e in
    let (bytes, small, okc, _) = fixed_sound u8-Codec i.cbs ok read in rw moved (bytes, okc, refl)

lifted_bytes_sound :
    (n : ℕ) (i : Input) {j : Input} {out : Cbs}
    → IsValid i.cbs
    → lift (get_bytes n) i ≡ (j, some out)
    → (view i.cbs ≡ view out ++ view j.cbs)
      × (out.len ≡ n)
      × IsValid out
      × IsValid j.cbs
      × (j.errors ≡ i.errors)
lifted_bytes_sound n i {j} {out} ok e =
    let (c, read, moved) = lifted-some i (get_bytes n i.cbs) e in
    let (bytes, len, oko, okc) = get_bytes_sound n i.cbs ok read in
    rw moved (bytes, len, oko, okc, refl)

-- A successful read of an element: the view starts with the expected tag, a length field for the
-- length of the contents, and the contents, which the content parser holds; the rest stays, both
-- parsers are valid, and no error was recorded.
pub get_element_sound :
    (tag : ℕ) (i : Input) {j : Input} {content : Cbs}
    → IsValid i.cbs
    → get_element tag i ≡ (j, some content)
    → (l : List ℕ) × LengthForm (length (view content)) l
      × (view i.cbs ≡ tag ∷ (l ++ (view content ++ view j.cbs)))
      × IsValid content
      × IsValid j.cbs
      × (j.errors ≡ i.errors)
unfolding get_element
get_element_sound tag i {j} {content} ok e =
    let (t, i1, first, e1) = resume-some (get_tag i) _ e in
    let (head, ok1, errs1) = tag_sound i ok first in
    let (n, i2, second, e2) = resume-some (get_length i1) _ e1 in
    let (l, form, middle, ok2, errs2) = get_length_sound i1 ok1 second in
    let (is_tag, e3) = checked (not (t == tag)) 7 _ i2 e2 in
    let (body, len, oko, okj, errs3) = lifted_bytes_sound n i2 ok2 e3 in
    let same : t ≡ tag = ground arith in
    let count : length (view content) ≡ n = length-view content oko.0 ∙ len in
    (
      l,
      rw count form,
      head ∙ ap (λ x. x ∷ view i1.cbs) same ∙ ap (λ r. tag ∷ r) (middle ∙ ap (λ r. l ++ r) body),
      oko,
      okj,
      errs3 ∙ errs2 ∙ errs1,
    )

-- Wherever the view starts with an element of the expected tag, whose length field is one of X.690,
-- the read succeeds with its contents, leaves what follows, and records no error.
pub get_element_complete :
    (tag : ℕ) (i : Input) (l body rest : List ℕ)
    → IsValid i.cbs
    → tag < 256
    → LengthForm (length body) l
    → view i.cbs ≡ tag ∷ (l ++ (body ++ rest))
    → (c : Cbs) × (content : Cbs) × (get_element tag i ≡ (record i { cbs = c }, some content))
      × (view content ≡ body)
      × (view c ≡ rest)
unfolding get_element get_tag get_u8
get_element_complete tag i l body rest ok small form e =
    let (first, left) = fixed_complete u8-Codec i.cbs tag (l ++ (body ++ rest)) ok small e in
    let ok1 = (fixed_sound u8-Codec i.cbs ok first).2 in
    let i1 : Input = record i { cbs = advance 1 i.cbs } in
    let (c2, second, left2, ok2) =
      get_length_complete i1 (length body) l (body ++ rest) ok1 form left in
    let (third, out, left3) = get_bytes_complete c2 body rest ok2 left2 in
    let same : (tag == tag) ≡ true = ground arith in
    (
      advance (length body) c2,
      record { bytes = c2.bytes; len = length body },
      rw (first, second, same) (ap (lifted (record i { cbs = c2 })) third),
      out,
      left3,
    )

skip_after_get_bytes :
    (n : ℕ) (c : Cbs) {c' out : Cbs} → get_bytes n c ≡ (c', some out) → Cbs.skip n c ≡ (c', some tt)
unfolding get_bytes Cbs.skip
skip_after_get_bytes n c e = ground arith

-- opssl_asn1_skip_element succeeds wherever a read of an element does, and stops where it stops.
pub skip_element_after_get_element :
    (tag : ℕ) (i : Input) {j : Input} {content : Cbs}
    → get_element tag i ≡ (j, some content)
    → skip_element i ≡ (j, some tt)
unfolding get_element skip_element
skip_element_after_get_element tag i {j} {content} e =
    let (t, i1, first, e1) = resume-some (get_tag i) _ e in
    let (n, i2, second, e2) = resume-some (get_length i1) _ e1 in
    let (is_tag, e3) = checked (not (t == tag)) 7 _ i2 e2 in
    let (c, read, moved) = lifted-some i2 (get_bytes n i2.cbs) e3 in
    ap (λ r. resume r (λ x k. resume (get_length k) (λ m. lift (Cbs.skip m)))) first
    ∙ ap (λ r. resume r (λ m. lift (Cbs.skip m))) second
    ∙ ap (lifted i2) (skip_after_get_bytes n i2.cbs read)
    ∙ ap (λ x. (x, some tt)) (sym moved)
