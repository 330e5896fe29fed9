-- ===== src/Hostname/Identity.antt =====
-- Where the name stands in the certificate that a host name is check_hostname_match_sound for.
use mathlib.Core.Option
use opssl.Base.{
  ℕ, ◌≡◌, ◌==◌, ◌&&◌, ◌⊎◌, inl, inr, refl, sym, ap, ◌∙◌, true, false, Bool-cases, Option-cases,
  Option, none, some, List, [], ◌∷◌, ◌++◌, length, ltb, leb, take, drop, take-append_drop, take_all,
  ◌≤◌, ◌<◌, length-drop, length-append, append_assoc, if◌then◌else◌, arith, append-nil,
}
use opssl.Hostname.{
  strchr, before, hostname_matches_pattern, behind_cn, or_else, cn_start, cut_name, common_name,
  subject_matches, Certificate, stored_san, get_san, get_subject, any_san_matches,
  check_hostname_match,
}

strchr-before : (c : ℕ) (s rest : List ℕ) → strchr c s ≡ some rest → s ≡ before c s ++ rest
unfolding strchr before
strchr-before c [] rest h = cc
strchr-before c (x ∷ xs) rest h = elim (Bool-cases (x == c)) [
  | inl e ↦
      let found : some (x ∷ xs) ≡ some rest = rw e at h in
      rw e (Option.some-injective (x ∷ xs) rest found)
  | inr e ↦
      let later : strchr c xs ≡ some rest = rw e at h in
      rw e (ap (λ l. x ∷ l) (strchr-before c xs rest later))
]

-- "CN=" and a name behind it.
abbrev pub named : List ℕ → List ℕ
named name = 67 ∷ 78 ∷ 61 ∷ name

behind_cn-some : (s start : List ℕ) → behind_cn s ≡ some start → s ≡ named start
behind_cn-some [] start h = cc
behind_cn-some (a ∷ []) start h = cc
behind_cn-some (a ∷ b ∷ []) start h = cc
behind_cn-some (a ∷ b ∷ c ∷ rest) start h =
    elim (Bool-cases ((a == 67) && ((b == 78) && (c == 61)))) [
      | inl e ↦
          let found : some rest ≡ some start = rw e at h in
          let letters : (a ≡ 67) × (b ≡ 78) × (c ≡ 61) = ground arith in
          let same = Option.some-injective rest start found in
          let (first, second, third) = letters in λ i. first i ∷ second i ∷ third i ∷ same i
      | inr e ↦ let wrong : none ≡ some start = rw e at h in cc
    ]

cn_start-some :
    (s start : List ℕ) → cn_start s ≡ some start → (front : List ℕ) × (s ≡ front ++ named start)
unfolding cn_start
cn_start-some [] start h = cc
cn_start-some (x ∷ xs) start h = elim (Option-cases (behind_cn (x ∷ xs))) [
  | inl e ↦
      let later : cn_start xs ≡ some start = sym (ap (λ o. or_else o (cn_start xs)) e) ∙ h in
      let (front, whole) = cn_start-some xs start later in (x ∷ front, ap (λ l. x ∷ l) whole)
  | inr (found, e) ↦
      let here : some found ≡ some start = sym (ap (λ o. or_else o (cn_start xs)) e) ∙ h in
      ([], behind_cn-some (x ∷ xs) start (e ∙ here))
]

-- A name that the subject has behind a "CN=", up to its end or to the next comma.
abbrev pub InSubject : List ℕ → List ℕ → Type 0
InSubject subject name =
    (front : List ℕ) × (tail : List ℕ) × (subject ≡ front ++ named (name ++ tail))
    × ((tail ≡ []) ⊎ (strchr 44 (name ++ tail) ≡ some tail))

subject_matches_sound :
    (hostname : List ℕ) (subject : Option (List ℕ))
    → subject_matches hostname subject ≡ true
    → (text : List ℕ) × (name : List ℕ) × (subject ≡ some text)
      × InSubject text name
      × (hostname_matches_pattern hostname name ≡ true)
subject_matches_sound hostname none h = cc
subject_matches_sound hostname (some text) h = elim (Option-cases (cn_start text)) [
  | inl e ↦ let wrong : false ≡ true = sym (ap (common_name hostname) e) ∙ h in cc
  | inr (start, e) ↦
      let (front, whole) = cn_start-some text start e in
      let cut : cut_name hostname start (strchr 44 start) ≡ true =
        sym (ap (common_name hostname) e) ∙ h in
      elim (Option-cases (strchr 44 start)) [
        | inl f ↦
            let matches : hostname_matches_pattern hostname start ≡ true =
              sym (ap (cut_name hostname start) f) ∙ cut in
            (
              text,
              start,
              refl,
              (front, [], whole ∙ ap (λ l. front ++ named l) (sym (append-nil start)), inl refl),
              matches,
            )
        | inr (tail, f) ↦
            let name = before 44 start in
            let test : (if ltb (length name) 256
                  then hostname_matches_pattern hostname name
                  else false)
                ≡ true =
              sym (ap (cut_name hostname start) f) ∙ cut in
            let split : start ≡ name ++ tail = strchr-before 44 start tail f in
            elim (Bool-cases (ltb (length name) 256)) [
              | inl g ↦ (
                text,
                name,
                refl,
                (
                  front,
                  tail,
                  whole ∙ ap (λ l. front ++ named l) split,
                  inr (sym (ap (strchr 44) split) ∙ f),
                ),
                let r : hostname_matches_pattern hostname name ≡ true = rw g at test in r,
              )
              | inr g ↦ let wrong : false ≡ true = rw g at test in cc
            ]
      ]
]

-- What a C string keeps of a name of a certificate: the name, or what stands in front of its 256th byte
-- or of a NUL.
abbrev pub KeptOf : List ℕ → List ℕ → Type 0
KeptOf name text =
    (rest : List ℕ) × (name ≡ text ++ rest)
    × ((rest ≡ []) ⊎ ((length text ≡ 255) ⊎ ((later : List ℕ) × (rest ≡ 0 ∷ later))))

-- Up to the character, there is either all of it or the character behind.
before-split :
    (c : ℕ) (s : List ℕ) → (s ≡ before c s) ⊎ ((later : List ℕ) × (s ≡ before c s ++ (c ∷ later)))
unfolding before
before-split c [] = inl refl
before-split c (x ∷ xs) = elim (Bool-cases (x == c)) [
  | inl e ↦ let here : x ≡ c = ground arith in rw e (inr (xs, ap (λ y. y ∷ xs) here))
  | inr e ↦ rw e (elim (before-split c xs) [
    | inl same ↦ inl (ap (λ l. x ∷ l) same)
    | inr (later, same) ↦ inr (later, ap (λ l. x ∷ l) same)
  ])
]

short_or_long : (n : ℕ) → (n ≤ 255) ⊎ (255 < n)
short_or_long n = elim (Bool-cases (leb n 255)) [
  | inl e ↦ inl (ground arith)
  | inr e ↦ inr (ground arith)
]

stored_san-KeptOf : (name : List ℕ) → KeptOf name (stored_san name)
unfolding stored_san
stored_san-KeptOf name =
    let cut = take 255 name in
    let rest = drop 255 name in
    let whole : name ≡ cut ++ rest = sym (take-append_drop 255 name) in
    elim (before-split 0 cut) [
      | inl same ↦ elim (short_or_long (length name)) [
        | inl short ↦
            ([], sym (take_all 255 name short) ∙ same ∙ sym (append-nil (before 0 cut)), inl refl)
        | inr long ↦
            let size : length cut ≡ 255 =
              omega (arith, ap length whole, length-append cut rest, length-drop 255 name) in
            (rest, whole ∙ ap (λ l. l ++ rest) same, inr (inl (ap length (sym same) ∙ size)))
      ]
      | inr (later, same) ↦ (
        0 ∷ (later ++ rest),
        whole ∙ ap (λ l. l ++ rest) same ∙ append_assoc (before 0 cut) (0 ∷ later) rest,
        inr (inr (later ++ rest, refl)),
      )
    ]

any_san_matches_sound :
    (hostname : List ℕ) (sans : List (List ℕ))
    → any_san_matches hostname sans ≡ true
    → (front : List (List ℕ)) × (san : List ℕ) × (back : List (List ℕ)) × (text : List ℕ) × (sans
        ≡ front ++ (san ∷ back))
      × KeptOf san text
      × (hostname_matches_pattern hostname text ≡ true)
unfolding any_san_matches get_san
any_san_matches_sound hostname [] h = cc
any_san_matches_sound hostname (first ∷ sans) h =
    let text = stored_san first in
    elim (Bool-cases (leb 256 (length text))) [
      | inl e ↦
          let later : any_san_matches hostname sans ≡ true = rw e at h in
          let (front, san, back, kept, whole, of, matches) =
            any_san_matches_sound hostname sans later in
          (first ∷ front, san, back, kept, ap (λ l. first ∷ l) whole, of, matches)
      | inr e ↦ elim (Bool-cases (hostname_matches_pattern hostname text)) [
        | inl g ↦ ([], first, sans, text, refl, stored_san-KeptOf first, g)
        | inr g ↦
            let later : any_san_matches hostname sans ≡ true = rw (e, g) at h in
            let (front, san, back, kept, whole, of, matches) =
              any_san_matches_sound hostname sans later in
            (first ∷ front, san, back, kept, ap (λ l. first ∷ l) whole, of, matches)
      ]
    ]

-- A host name that check_hostname_match accepts is matched by what a C string keeps of one of the
-- dNSNames of the certificate (the name, or what stands in front of its 256th byte or of a NUL); or by
-- a name that stands behind "CN=" in the text that opssl_x509_get_subject prints, up to the end or
-- to the next comma.
pub check_hostname_match_sound :
    (hostname : List ℕ) (cert : Certificate)
    → check_hostname_match hostname cert ≡ true
    → ((front : List (List ℕ)) × (san : List ℕ) × (back : List (List ℕ)) × (text : List ℕ)
        × (cert.sans ≡ front ++ (san ∷ back))
        × KeptOf san text
        × (hostname_matches_pattern hostname text ≡ true))
      ⊎ ((text : List ℕ) × (name : List ℕ) × (get_subject 512 cert.subject ≡ some text)
          × InSubject text name
          × (hostname_matches_pattern hostname name ≡ true))
unfolding check_hostname_match
check_hostname_match_sound hostname cert h =
    elim (Bool-cases (any_san_matches hostname cert.sans)) [
      | inl e ↦ inl (any_san_matches_sound hostname cert.sans e)
      | inr e ↦
          let later : subject_matches hostname (get_subject 512 cert.subject) ≡ true = rw e at h in
          inr (subject_matches_sound hostname (get_subject 512 cert.subject) later)
    ]
