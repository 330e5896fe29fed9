-- ===== src/Cbs/Reads.antt =====
-- Length-prefixed fields: what the parser accepts is exactly what the wire format says.
use opssl.Base.{
  ℕ, ◌≤◌, ◌<◌, ◌^◌, ◌≡◌, refl, sym, ap, ◌∙◌, List, [], ◌∷◌, ◌++◌, Option, none, some, arith, length,
  take, drop, All, append_assoc, take-length,
}
use opssl.Bytes.{IsByte, byte_at, be16, be24, be32, put_be16, put_be24, put_be32}
use opssl.Bytes.Values.{
  be16-put_be16, be24-put_be24, be32-put_be32, put_be16-be16, put_be24-be24, put_be32-be32,
}
use opssl.Cbs.{
  Cbs, Parser, ◌>>=◌, continue, advance, fixed, view, get_u8, get_u16, get_u24, get_bytes,
  get_u8_length_prefixed, get_u16_length_prefixed, get_u24_length_prefixed,
}
use opssl.Cbs.Bounds.{
  IsValid, length-view, view_split, advance-IsValid, fixed-some, fixed_enough, bytes_of_view,
  view_prefix,
}

-- A fixed-width integer on the wire: `encode` and `decode` undo one another on `w` bytes.
pub record Codec (w : ℕ) (encode : ℕ → List ℕ) (decode : List ℕ → ℕ) : Type 0 where
  pub width : (v : ℕ) → length (encode v) ≡ w
  pub undo : (v : ℕ) (p : List ℕ) → v < 256 ^ w → decode (encode v ++ p) ≡ v
  pub redo :
      (p : List ℕ)
      → All IsByte p
      → w ≤ length p
      → (encode (decode p) ≡ take w p) × (decode p < 256 ^ w)

module _ {w : ℕ} {encode : ℕ → List ℕ} {decode : List ℕ → ℕ} (k : Codec w encode decode) where
  pub fixed_sound :
      (c : Cbs) {c' : Cbs} {v : ℕ}
      → IsValid c
      → fixed w decode c ≡ (c', some v)
      → (view c ≡ encode v ++ view c') × (v < 256 ^ w) × IsValid c' × (c' ≡ advance w c)
  fixed_sound c {c'} {v} ok e =
      let (fits, moved, value) = fixed-some w decode c e in
      let (same, small) = k.redo c.bytes ok.1 (omega arith) in
      rw (moved, value) (rw same (view_split w c fits), small, advance-IsValid w c fits ok, refl)

  pub fixed_complete :
      (c : Cbs) (v : ℕ) (rest : List ℕ)
      → IsValid c
      → v < 256 ^ w
      → view c ≡ encode v ++ rest
      → (fixed w decode c ≡ (advance w c, some v)) × (view (advance w c) ≡ rest)
  fixed_complete c v rest ok small e =
      let (fits, left) = view_prefix c (encode v) rest ok.0 e in
      let value : decode c.bytes ≡ v =
        rw (bytes_of_view c (encode v) rest e, append_assoc (encode v) rest (drop c.len c.bytes))
          (k.undo v _ small) in
      (
        fixed_enough w decode c (omega (arith, k.width v)) ∙ ap (λ x. (advance w c, some x)) value,
        rw (k.width v) at left,
      )

-- get_bytes: the field that goes out, and the rest, make up the view.
pub get_bytes_sound :
    (n : ℕ) (c : Cbs) {c' out : Cbs}
    → IsValid c
    → get_bytes n c ≡ (c', some out)
    → (view c ≡ view out ++ view c') × (out.len ≡ n) × IsValid out × IsValid c'
unfolding get_bytes
get_bytes_sound n c {c'} {out} ok e =
    let (fits, moved, value) = fixed-some n (λ p. record { bytes = p; len = n }) c e in
    rw (moved, value) (view_split n c fits, refl, (omega arith, ok.1), advance-IsValid n c fits ok)

pub get_bytes_complete :
    (c : Cbs) (body rest : List ℕ)
    → IsValid c
    → view c ≡ body ++ rest
    → let n = length body in
      let out : Cbs = record { bytes = c.bytes; len = n } in
      (get_bytes n c ≡ (advance n c, some out)) × (view out ≡ body) × (view (advance n c) ≡ rest)
unfolding get_bytes
get_bytes_complete c body rest ok e =
    let (fits, left) = view_prefix c body rest ok.0 e in
    (
      fixed_enough (length body) (λ p. record { bytes = p; len = length body }) c fits,
      rw (bytes_of_view c body rest e, append_assoc body rest (drop c.len c.bytes))
          (take-length body _),
      left,
    )

-- The widths of a length prefix.
pub data Width : Type 0 where
  one two three : Width

abbrev pub width : Width → ℕ
width one = 1
width two = 2
width three = 3

abbrev pub get_length : Width → List ℕ → ℕ
get_length one p = byte_at p 0
get_length two p = be16 p
get_length three p = be24 p

abbrev pub put_length : Width → ℕ → List ℕ
put_length one n = n ∷ []
put_length two n = put_be16 n
put_length three n = put_be24 n

abbrev pub get_length_prefixed : Width → Parser Cbs
get_length_prefixed one = get_u8_length_prefixed
get_length_prefixed two = get_u16_length_prefixed
get_length_prefixed three = get_u24_length_prefixed

pub u8-Codec : Codec 1 (λ n. n ∷ []) (λ p. byte_at p 0)
u8-Codec = record { width = λ v. refl; undo = λ v p h. refl; redo = redo }
  where
    redo :
        (p : List ℕ)
        → All IsByte p
        → 1 ≤ length p
        → (byte_at p 0 ∷ [] ≡ take 1 p) × (byte_at p 0 < 256)
    redo [] h k = absurd (omega arith)
    redo (a ∷ p) h k = (refl, h.0)

pub u16-Codec : Codec 2 put_be16 be16
unfolding put_be16
u16-Codec = record { width = λ v. refl; undo = be16-put_be16; redo = put_be16-be16 }

pub u24-Codec : Codec 3 put_be24 be24
unfolding put_be24
u24-Codec = record { width = λ v. refl; undo = be24-put_be24; redo = put_be24-be24 }

pub u32-Codec : Codec 4 put_be32 be32
unfolding put_be32
u32-Codec = record { width = λ v. refl; undo = be32-put_be32; redo = put_be32-be32 }

codec : (w : Width) → Codec (width w) (put_length w) (get_length w)
codec one = u8-Codec
codec two = u16-Codec
codec three = u24-Codec

-- The three functions have one shape.
prefixed_shape :
    (w : Width) → get_length_prefixed w ≡ (fixed (width w) (get_length w) >>= λ n. get_bytes n)
unfolding get_u8_length_prefixed get_u16_length_prefixed get_u24_length_prefixed get_u8 get_u16
    get_u24
prefixed_shape one = refl
prefixed_shape two = refl
prefixed_shape three = refl

pub continue-some :
    {A B : Type 0} (r : Cbs × Option A) (f : A → Parser B) {c : Cbs} {b : B}
    → continue r f ≡ (c, some b)
    → (a : A) × (d : Cbs) × (r ≡ (d, some a)) × (f a d ≡ (c, some b))
continue-some (d, none) f e = cc
continue-some (d, some a) f e = (a, d, refl, e)

-- A successful read of a length-prefixed field, of each width: the bytes that it takes are the
-- length of the field, big-endian, and the field; the rest stays, and both views are in bounds.
pub get_length_prefixed_sound :
    (w : Width) (c : Cbs) {c' out : Cbs}
    → IsValid c
    → get_length_prefixed w c ≡ (c', some out)
    → (view c ≡ put_length w (length (view out)) ++ (view out ++ view c'))
      × IsValid out
      × IsValid c'
get_length_prefixed_sound w c {c'} {out} ok e =
    let (n, d, first, second) =
      continue-some (fixed (width w) (get_length w) c) (λ n. get_bytes n)
        (ap (λ p. p c) (sym (prefixed_shape w)) ∙ e) in
    let (head, small, okd, moved) = fixed_sound (codec w) c ok first in
    let (body, len, oko, okc) = get_bytes_sound n d okd second in
    (rw (length-view out oko.0 ∙ len) (head ∙ ap (λ l. put_length w n ++ l) body), oko, okc)

-- Wherever the view starts with a field of a width, the read succeeds, and returns that field and
-- the rest.
pub get_length_prefixed_complete :
    (w : Width) (c : Cbs) (body rest : List ℕ)
    → IsValid c
    → length body < 256 ^ width w
    → view c ≡ put_length w (length body) ++ (body ++ rest)
    → (c' : Cbs) × (out : Cbs) × (get_length_prefixed w c ≡ (c', some out))
      × (view out ≡ body)
      × (view c' ≡ rest)
get_length_prefixed_complete w c body rest ok small e =
    let (first, left) = fixed_complete (codec w) c (length body) (body ++ rest) ok small e in
    let d = advance (width w) c in
    let okd : IsValid d = (fixed_sound (codec w) c ok first).2 in
    let (second, out, after) = get_bytes_complete d body rest okd left in
    (
      advance (length body) d,
      record { bytes = d.bytes; len = length body },
      ap (λ p. p c) (prefixed_shape w) ∙ ap (λ r. continue r (λ n. get_bytes n)) first ∙ second,
      out,
      after,
    )
