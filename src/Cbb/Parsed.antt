-- ===== src/Cbb/Parsed.antt =====
-- The builder and the parser of src/crypto/cbs.c together.
use mathlib.Core.Path.{subst}
use mathlib.Core.Option
use opssl.Base.{
  ℕ, ◌%◌, ◌^◌, ◌≤◌, ◌<◌, ◌≡◌, refl, sym, ap, ◌∙◌, some, List, [], ◌∷◌, ◌++◌, length, arith,
  take_all, append_assoc, All,
}
use opssl.Bytes.{IsByte, put_be16}
use opssl.Cbs.{Cbs, init, view}
use opssl.Cbs.Reads.{
  Width, one, two, three, width, put_length, get_length_prefixed, get_length_prefixed_complete,
}
use opssl.Cbb.{Store, prefix_bytes, cbb_init, finish}
use opssl.Cbb.Flush.{limit}
use opssl.Cbb.Document.{Document, field_then, encode, Fits, depth, build, finish-build}

prefix_bytes-put_length :
    (w : Width) (n : ℕ) → n ≤ limit (width w) → prefix_bytes (width w) n ≡ put_length w n
prefix_bytes-put_length one n h = ap (λ k. k ∷ []) {x = n % 256} {y = n} (omega arith)
prefix_bytes-put_length two n h = ap put_be16 {x = n % 2 ^ 16} {y = n} (omega arith)
prefix_bytes-put_length three n h = refl

limit_width : (w : Width) (n : ℕ) → n ≤ limit (width w) → n < 256 ^ width w
limit_width one n h = omega arith
limit_width two n h = omega arith
limit_width three n h = omega arith

-- A field that the builder wrote is read back: in the bytes that a finished builder returned, the
-- length-prefixed read of the same width succeeds, returns the field's content, and leaves what was
-- written behind it. The contents fit in the widths of their lengths, the whole has at most 2^63
-- bytes, and the fuel is more than the depth of the nesting.
pub get_length_prefixed-finish :
    (w : Width) (fuel : ℕ) (st : Store) (p n cap : ℕ) (inner rest : Document) (bytes : List ℕ)
    → Fits (field_then (width w) inner rest)
    → All IsByte (encode (field_then (width w) inner rest))
    → length (encode (field_then (width w) inner rest)) ≤ 2 ^ 63
    → depth (field_then (width w) inner rest) < fuel
    → p < n
    → (finish fuel (build fuel (field_then (width w) inner rest) (cbb_init st p cap) p n).0 p).1
      ≡ some bytes
    → (c : Cbs) × (out : Cbs) × (get_length_prefixed w (init bytes (length bytes)) ≡ (c, some out))
      × (view out ≡ encode inner)
      × (view c ≡ encode rest)
unfolding init encode Fits
get_length_prefixed-finish w fuel st p n cap inner rest bytes fits octets total deep above done =
    let doc = field_then (width w) inner rest in
    let (_, written) = finish-build fuel st p n cap doc fits total deep above in
    let same : bytes ≡ encode doc = Option.some-injective bytes (encode doc) (sym done ∙ written) in
    let (_, _, small, _, _) = fits in
    let start : view (init bytes (length bytes))
        ≡ put_length w (length (encode inner)) ++ (encode inner ++ encode rest) =
      take_all (length bytes) bytes (omega arith)
      ∙ same
      ∙ append_assoc (prefix_bytes (width w) (length (encode inner))) (encode inner) (encode rest)
      ∙ ap (λ l. l ++ (encode inner ++ encode rest))
          (prefix_bytes-put_length w (length (encode inner)) small) in
    get_length_prefixed_complete w (init bytes (length bytes)) (encode inner) (encode rest)
      (omega arith, subst (All IsByte) (sym same) octets)
      (limit_width w (length (encode inner)) small) start
