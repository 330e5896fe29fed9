-- ===== src/Cbb/Document.antt =====
-- Nested documents, as the handshake code writes its messages: raw bytes, and length-prefixed fields
-- one inside the other, each in a child builder on the caller's stack.
use mathlib.Core.Path.{subst}
use opssl.Base.{
  ℕ, zero, suc, ◌+◌, ◌^◌, ◌≤◌, ◌<◌, ◌≡◌, Bool, true, false, some, List, [], ◌∷◌, ◌++◌, refl, sym,
  ap, ◌∙◌, length, replicate, arith, length-append, append_assoc, append-nil, length-replicate, max,
}
use opssl.Cbb.{Store, and_then, add_bytes, add_length_prefixed, prefix_bytes, finish, cbb_init}
use opssl.Cbb.Memory.{kept, Frame, Frame-self, Frame-trans, Frame-weaken}
use opssl.Cbb.Start.{init-Ready}
use opssl.Cbb.Append.{Settles, Ready-Settles, add_bytes_lem}
use opssl.Cbb.Field.{add_length_prefixed_lem, Opens}
use opssl.Cbb.Flush.{limit, prefix_limit_lem}
use opssl.Cbb.Close.{close_field}

pub data Document : Type 0 where
  nothing : Document
  bytes_then : List ℕ → Document → Document
  field_then : ℕ → Document → Document → Document

-- The text of a document.
unfoldable pub encode : Document → List ℕ
encode nothing = []
encode (bytes_then bytes rest) = bytes ++ encode rest
encode (field_then k inner rest) =
    (prefix_bytes k (length (encode inner)) ++ encode inner) ++ encode rest

-- Each field has a length of 1, 2 or 3 bytes, and its content fits.
unfoldable pub Fits : Document → Type 0
unfolding encode
Fits nothing = Unit
Fits (bytes_then bytes rest) = Fits rest
Fits (field_then k inner rest) =
    (1 ≤ k) × (k ≤ 3) × (length (encode inner) ≤ limit k) × Fits inner × Fits rest

unfoldable pub depth : Document → ℕ
depth nothing = 0
depth (bytes_then bytes rest) = depth rest
depth (field_then k inner rest) = max (suc (depth inner)) (depth rest)

-- The calls that write a document into the builder `p`. The child of a field is `n`, for each field in
-- its turn, and the children above `n` are for the fields inside it. No call flushes: a child is
-- settled by the next call on its parent.
unfoldable pub build : ℕ → Document → Store → ℕ → ℕ → Store × Bool
build fuel nothing st p n = (st, true)
build fuel (bytes_then bytes rest) st p n =
    and_then (add_bytes fuel st p bytes) (λ s. build fuel rest s p n)
build fuel (field_then k inner rest) st p n =
    and_then (add_length_prefixed k fuel st p n)
      (λ s. and_then (build fuel inner s n (suc n)) (λ s1. build fuel rest s1 p n))

Settles-text :
    (st : Store) (p : ℕ) (qs text text' : List ℕ) (deep : ℕ)
    → text ≡ text'
    → Settles st p qs text deep
    → Settles st p qs text' deep
Settles-text st p qs text text' deep e s = subst (λ t. Settles st p qs t deep) e s

Settles-depth :
    (st : Store) (p : ℕ) (qs text : List ℕ) (d d' : ℕ)
    → d ≤ d'
    → Settles st p qs text d
    → Settles st p qs text d'
Settles-depth st p qs text d d' h s = record {
  now = s.now;
  settles = λ fuel k. s.settles fuel (omega arith);
  ready = s.ready;
  frame = s.frame;
}

predecessor : (d n : ℕ) → n < d → (m : ℕ) × (d ≡ suc m)
predecessor zero n h = absurd (omega arith)
predecessor (suc m) n h = (m, refl)

-- A field that was opened, and whose content is written.
close_opened :
    (st mid st' : Store) (p : ℕ) (qs text : List ℕ) (n k deep : ℕ) (inner : List ℕ)
    → p < n
    → Opens st p qs text n k mid
    → Frame n mid st'
    → Settles st' n (p ∷ qs) ((text ++ replicate k 0) ++ inner) deep
    → 1 ≤ k
    → k ≤ 3
    → length inner ≤ limit k
    → Settles st' p qs (text ++ (prefix_bytes k (length inner) ++ inner)) (suc deep)
      × Frame p st st'
close_opened st mid st' p qs text n k deep inner above opens frame settles low high small =
    let keeps_p : kept (st'.builder p) ≡ kept (mid.builder p) = frame.keeps p (omega arith) in
    let keeps_n : kept (st'.builder n) ≡ kept (mid.builder n) = frame.keeps n (omega arith) in
    let error : (st'.builder p).error ≡ (mid.builder p).error = ap (λ b. b.error) keeps_p in
    let offset : (st'.builder n).offset ≡ (mid.builder n).offset = ap (λ b. b.offset) keeps_n in
    let prefix : (st'.builder n).prefix_len ≡ (mid.builder n).prefix_len =
      ap (λ b. b.prefix_len) keeps_n in
    (
      close_field st' n p qs text inner k deep settles (frame.children p above ∙ opens.pending)
          (error ∙ opens.fine) (offset ∙ opens.offset) (prefix ∙ opens.prefix_len) low high small,
      Frame-trans p st mid st' opens.frame (Frame-weaken n p mid st' (omega arith) frame),
    )

-- Building: the document is behind the text once the children settle.
build_step :
    (fuel : ℕ) (doc : Document) (st : Store) (p n : ℕ) (qs text : List ℕ) (deep : ℕ)
    → Settles st p qs text deep
    → Fits doc
    → p < n
    → length text + length (encode doc) ≤ 2 ^ 63
    → depth doc ≤ deep
    → deep + length qs < fuel
    → (st' : Store) × (build fuel doc st p n ≡ (st', true))
      × Settles st' p qs (text ++ encode doc) deep
      × Frame p st st'
unfolding build encode Fits depth
build_step fuel nothing st p n qs text deep s fits above total d f = (
  st,
  refl,
  Settles-text st p qs text (text ++ []) deep (sym (append-nil text)) s,
  Frame-self p st,
)
build_step fuel (bytes_then bytes rest) st p n qs text deep s fits above total d f =
    let size = length-append bytes (encode rest) in
    let (mid, step, ready, frame) =
      add_bytes_lem fuel st p qs text deep bytes s (omega arith) (omega arith) (omega arith) in
    let (st', steps, settles, frame') =
      build_step fuel rest mid p n qs (text ++ bytes) deep
        (Ready-Settles mid p qs (text ++ bytes) deep ready) fits above
        (omega (arith, length-append text bytes)) d f in
    (
      st',
      rw step steps,
      Settles-text st' p qs ((text ++ bytes) ++ encode rest) (text ++ (bytes ++ encode rest)) deep
          (append_assoc text bytes (encode rest)) settles,
      Frame-trans p st mid st' frame frame',
    )
build_step fuel (field_then k inner rest) st p n qs text deep s fits above total d f =
    let (low, high, small, fits_in, fits_rest) = fits in
    let bytes = prefix_bytes k (length (encode inner)) in
    let field = bytes ++ encode inner in
    let sized : length field ≡ k + length (encode inner) = omega (
      arith,
      length-append bytes (encode inner),
      (prefix_limit_lem k (length (encode inner)) low high small).1,
    ) in
    let size = length-append field (encode rest) in
    let start = text ++ replicate k 0 in
    let started : length start ≡ length text + k =
      omega (arith, length-append text (replicate k 0), length-replicate {A = ℕ} k 0) in
    let (less, deep_less) = predecessor deep (depth inner) (omega arith) in
    let (mid, step, opens) =
      add_length_prefixed_lem k fuel st p n qs text deep s above (omega arith) (omega arith)
        (omega arith) in
    let (mid', steps, settles, frame') =
      build_step fuel inner mid n (suc n) (p ∷ qs) start less
        (Ready-Settles mid n (p ∷ qs) start less opens.ready) fits_in (omega arith) (omega arith)
        (omega arith) (omega arith) in
    let (closes, frame1) =
      close_opened st mid mid' p qs text n k less (encode inner) above opens frame' settles low high
        small in
    let (st', steps_rest, settles_rest, frame_rest) =
      build_step fuel rest mid' p n qs (text ++ field) deep
        (Settles-depth mid' p qs (text ++ field) (suc less) deep (omega arith) closes) fits_rest
        above (omega (arith, length-append text field)) (omega arith) f in
    (
      st',
      rw (step, steps) steps_rest,
      Settles-text st' p qs ((text ++ field) ++ encode rest) (text ++ (field ++ encode rest)) deep
          (append_assoc text field (encode rest)) settles_rest,
      Frame-trans p st mid' st' frame1 frame_rest,
    )

-- Writing a document of nested fields into a fresh builder, whose first block may be too small, and
-- finishing it: every call succeeds, and the result is the document's encoding, with the length of
-- each field in its place. Each content fits in the width of its length, the whole has at most 2^63
-- bytes, the fuel is more than the depth of the nesting, and the children are other builders.
pub finish-build :
    (fuel : ℕ) (st : Store) (p n cap : ℕ) (doc : Document)
    → Fits doc
    → length (encode doc) ≤ 2 ^ 63
    → depth doc < fuel
    → p < n
    → ((build fuel doc (cbb_init st p cap) p n).1 ≡ true)
      × ((finish fuel (build fuel doc (cbb_init st p cap) p n).0 p).1 ≡ some (encode doc))
unfolding finish
finish-build fuel st p n cap doc fits total deep above =
    let first = cbb_init st p cap in
    let (st', steps, s, frame) =
      build_step fuel doc first p n [] [] (depth doc)
        (Ready-Settles first p [] [] (depth doc) (init-Ready st p cap)) fits above (omega arith)
        (omega arith) (omega arith) in
    let same : kept (s.now.builder p) ≡ kept (st'.builder p) = s.frame.keeps p (omega arith) in
    let fine : (st'.builder p).error ≡ false = ap (λ b. b.error) (sym same) ∙ s.ready.fine in
    let root : (st'.builder p).is_child ≡ false = ap (λ b. b.is_child) (sym same) ∙ s.ready.chain in
    (
      ap (λ r. r.1) steps,
      ap (λ r. (finish fuel r.0 p).1) steps
          ∙ rw (fine, root, s.settles fuel (omega arith)) (ap some s.ready.written),
    )
