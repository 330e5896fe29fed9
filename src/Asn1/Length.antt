-- ===== src/Asn1/Length.antt =====
-- opssl_asn1_get_length against the length octets of X.690: what it accepts, and what it returns.
use opssl.Base.{
  ℕ, zero, suc, ◌+◌, ◌-◌, ◌*◌, ◌/◌, ◌%◌, ◌^◌, ◌≤◌, ◌<◌, ◌≡◌, refl, sym, ap, ◌∙◌, Bool, true, false,
  Option, none, some, List, [], ◌∷◌, ◌++◌, arith, bit_and, bit_or, ltb, ◌==◌, if◌then◌else◌, ◌&&◌,
  length, All, Bool-cases, inl, inr, le→ltb,
}
use native.Mathlib.Nat.{pow-suc, one-le-pow, pow-le-pow_right}
use opssl.Base.Bits.{bit_or_fields, bit_and_mask, bit_and_bit}
use opssl.Bytes.{IsByte, shl64}
use opssl.Cbs.{Cbs, view, get_u8, advance}
use opssl.Cbs.Bounds.{IsValid}
use opssl.Cbs.Reads.{u8-Codec, fixed_sound, fixed_complete}
use opssl.Asn1.{
  Input, Reader, resume, return, raise, expect, expected, length_octets, long_length, after_initial,
  get_length,
}

-- The value of octets, most significant first, behind those already read.
unfoldable pub be_value : ℕ → List ℕ → ℕ
be_value acc [] = acc
be_value acc (b ∷ bs) = be_value (acc * 256 + b) bs

-- The octets `l` are a length field for `n`: the short form, or the long form of 1 to 8 octets,
-- with no leading zero where there are several.
pub data LengthForm (n : ℕ) (l : List ℕ) : Type 0 where
  short : n < 128 → l ≡ n ∷ [] → LengthForm n l
  long :
      (bs : List ℕ)
      → All IsByte bs
      → 1 ≤ length bs
      → length bs ≤ 8
      → n ≡ be_value 0 bs
      → (1 < length bs → 2 ^ (8 * (length bs - 1)) ≤ n)
      → l ≡ (128 + length bs) ∷ bs
      → LengthForm n l

pub resume-some :
    {A B : Type 0} (r : Input × Option A) (f : A → Reader B) {i : Input} {b : B}
    → resume r f ≡ (i, some b)
    → (a : A) × (j : Input) × (r ≡ (j, some a)) × (f a j ≡ (i, some b))
resume-some (j, none) f e = cc
resume-some (j, some a) f e = (a, j, refl, e)

expected-some :
    {A : Type 0} (reason : ℕ) (i : Input) (r : Cbs × Option A) {j : Input} {a : A}
    → expected reason i r ≡ (j, some a)
    → (c : Cbs) × (r ≡ (c, some a)) × (j ≡ record i { cbs = c })
expected-some reason i (c, none) e = cc
expected-some reason i (c, some b) e = (c, cc, cc)

-- One octet, read by get_u8 under `expect`.
pub octet_sound :
    (reason : ℕ) (i : Input) {j : Input} {b : ℕ}
    → IsValid i.cbs
    → expect reason get_u8 i ≡ (j, some b)
    → (view i.cbs ≡ b ∷ view j.cbs) × (b < 256) × IsValid j.cbs × (j.errors ≡ i.errors)
unfolding get_u8
octet_sound reason i {j} {b} ok e =
    let (c, read, moved) = expected-some reason i (get_u8 i.cbs) e in
    let (bytes, small, okc, _) = fixed_sound u8-Codec i.cbs ok read in
    rw moved (bytes, small, okc, refl)

pub octet_complete :
    (reason : ℕ) (i : Input) (b : ℕ) (rest : List ℕ)
    → IsValid i.cbs
    → b < 256
    → view i.cbs ≡ b ∷ rest
    → let j : Input = record i { cbs = advance 1 i.cbs } in
      (expect reason get_u8 i ≡ (j, some b)) × (view j.cbs ≡ rest) × IsValid j.cbs
unfolding get_u8
octet_complete reason i b rest ok small e =
    let (read, left) = fixed_complete u8-Codec i.cbs b rest ok small e in
    let okc = (fixed_sound u8-Codec i.cbs ok read).2 in (ap (expected reason i) read, left, okc)

-- `*len << 8 | byte` on a length that has not overflowed.
push_octet : (len b : ℕ) → len < 2 ^ 56 → b < 256 → bit_or (shl64 len 8) b ≡ len * 256 + b
push_octet len b h k =
    let fits : len * 2 ^ 8 % 2 ^ 64 ≡ len * 2 ^ 8 = omega arith in rw fits (bit_or_fields 8 len b k)

-- A test that raises did not hold where the reader succeeded.
pub checked :
    {A : Type 0} (t : Bool) (reason : ℕ) (m : Reader A) (i : Input) {j : Input} {a : A}
    → (if t then raise reason else m) i ≡ (j, some a)
    → (t ≡ false) × (m i ≡ (j, some a))
checked true reason m i e = cc
checked false reason m i e = (refl, e)

pub length_octets_sound :
    (n len : ℕ) (i : Input) {j : Input} {r : ℕ}
    → IsValid i.cbs
    → length_octets n len i ≡ (j, some r)
    → (bs : List ℕ) × (length bs ≡ n)
      × All IsByte bs
      × (view i.cbs ≡ bs ++ view j.cbs)
      × (r ≡ be_value len bs)
      × IsValid j.cbs
      × (j.errors ≡ i.errors)
unfolding length_octets be_value
length_octets_sound zero len i {j} {r} ok e =
    let same : i ≡ j = cc in ([], refl, tt, ap (λ x. view x.cbs) same, cc, rw same at ok, cc)
length_octets_sound (suc n) len i {j} {r} ok e =
    let (b, k, read, rest) = resume-some (expect 4 get_u8 i) _ e in
    let (bytes, small, okk, errs) = octet_sound 4 i ok read in
    let (fits, again) = checked (ltb (2 ^ 56 - 1) len) 5 _ k rest in
    let (bs, count, all, more, value, okj, errs') = length_octets_sound n _ k okk again in
    (
      b ∷ bs,
      ap suc count,
      (small, all),
      bytes ∙ ap (λ l. b ∷ l) more,
      value ∙ ap (λ v. be_value v bs) (push_octet len b (ground arith) small),
      okj,
      errs' ∙ errs,
    )

scale : (a b p : ℕ) → a ≤ b → a * p ≤ b * p
scale a b p h = grind arith

room_step :
    (len b p q : ℕ)
    → q ≡ 256 * p
    → 1 ≤ p
    → b < 256
    → (len + 1) * q ≤ 2 ^ 64
    → (len < 2 ^ 56) × ((len * 256 + b + 1) * p ≤ 2 ^ 64)
room_step len b p q e one small h =
    let whole : (len + 1) * 256 * p ≤ 2 ^ 64 = omega (arith, ap (λ (t : ℕ). (len + 1) * t) e) in
    (
      omega (arith, scale 1 p ((len + 1) * 256) one),
      omega (arith, scale (len * 256 + b + 1) ((len + 1) * 256) p (omega arith)),
    )

-- With room for the octets to come, the overflow test never fires.
pub length_octets_complete :
    (bs rest : List ℕ) (len : ℕ) (i : Input)
    → IsValid i.cbs
    → All IsByte bs
    → (len + 1) * 256 ^ length bs ≤ 2 ^ 64
    → view i.cbs ≡ bs ++ rest
    → (c : Cbs) × (length_octets (length bs) len i ≡ (record i { cbs = c }, some (be_value len bs)))
      × (view c ≡ rest)
      × IsValid c
unfolding length_octets be_value
length_octets_complete [] rest len i ok all room e = (i.cbs, refl, e, ok)
length_octets_complete (b ∷ bs) rest len i ok (small, all) room e =
    let (read, left, okc) = octet_complete 4 i b (bs ++ rest) ok small e in
    let k : Input = record i { cbs = advance 1 i.cbs } in
    let p = 256 ^ length bs in
    let (fits, next) =
      room_step len b p (256 ^ suc (length bs)) (omega (arith, pow-suc 256 (length bs)))
        (omega (arith, one-le-pow (length bs) 256)) small room in
    let (c, again, done, okd) =
      length_octets_complete bs rest (len * 256 + b) k okc all next left in
    (
      c,
      rw (read, le→ltb (2 ^ 56 - 1) len (omega arith), push_octet len b fits small) again,
      done,
      okd,
    )

initial_bits : (b : ℕ) → b < 256 → (bit_and b 0x80 ≡ b / 128 * 128) × (bit_and b 0x7F ≡ b % 128)
initial_bits b h = (omega (arith, bit_and_bit 7 b), bit_and_mask 7 127 b refl)

minimal_of_test : (m n k : ℕ) → (ltb 1 m && ltb n k) ≡ false → 1 < m → k ≤ n
minimal_of_test m n k t h = ground arith

test_of_minimal : (m n k : ℕ) → (1 < m → k ≤ n) → (ltb 1 m && ltb n k) ≡ false
test_of_minimal m n k h = elim (Bool-cases (ltb 1 m)) [
  | inl several ↦ rw several (le→ltb n k (h (ground arith)))
  | inr one ↦ rw one
]

long_length_sound :
    (m : ℕ) (i : Input) {j : Input} {n : ℕ}
    → IsValid i.cbs
    → long_length m i ≡ (j, some n)
    → (bs : List ℕ) × (length bs ≡ m)
      × LengthForm n ((128 + length bs) ∷ bs)
      × (view i.cbs ≡ bs ++ view j.cbs)
      × IsValid j.cbs
      × (j.errors ≡ i.errors)
unfolding long_length
long_length_sound m i {j} {n} ok e =
    let (some_octet, e1) = checked (m == 0) 2 _ i e in
    let (at_most, e2) = checked (ltb 8 m) 3 _ i e1 in
    let (len, k, octets, e3) = resume-some (length_octets m 0 i) _ e2 in
    let (canonical, e4) = checked (ltb 1 m && ltb len (2 ^ (8 * (m - 1)))) 6 _ k e3 in
    let (bs, count, all, more, value, okk, errs) = length_octets_sound m 0 i ok octets in
    let same : k ≡ j = cc e4 in
    let result : len ≡ n = cc e4 in
    let minimal : 1 < length bs → 2 ^ (8 * (length bs - 1)) ≤ n =
      rw (count, ← result) (minimal_of_test m len _ canonical) in
    (
      bs,
      count,
      long bs all (ground arith) (ground arith) (sym result ∙ value) minimal refl,
      more ∙ ap (λ x. bs ++ view x.cbs) same,
      rw same at okk,
      ap (λ x. x.errors) (sym same) ∙ errs,
    )

after_initial_sound :
    (b : ℕ) (i : Input) {j : Input} {n : ℕ}
    → b < 256
    → IsValid i.cbs
    → after_initial b i ≡ (j, some n)
    → (bs : List ℕ) × LengthForm n (b ∷ bs)
      × (view i.cbs ≡ bs ++ view j.cbs)
      × IsValid j.cbs
      × (j.errors ≡ i.errors)
unfolding after_initial
after_initial_sound b i {j} {n} small ok e = elim (Bool-cases (bit_and b 0x80 == 0)) [
  | inl clear ↦
      let e' : return b i ≡ (j, some n) = rw clear at e in
      let same : i ≡ j = cc e' in
      let value : b ≡ n = cc e' in
      let low : b < 128 = ground (arith, initial_bits b) in
      (
        [],
        short (omega (arith, value)) (ap (λ v. v ∷ []) value),
        ap (λ x. view x.cbs) same,
        rw same at ok,
        cc same,
      )
  | inr high ↦
      let (bs, count, form, more, okj, errs) =
        long_length_sound (bit_and b 0x7F) i ok (rw high at e) in
      let first : 128 + length bs ≡ b = ground (arith, initial_bits b) in
      (bs, rw first at form, more, okj, errs)
]

-- A successful opssl_asn1_get_length has read a length field of X.690 for the length that it
-- returns, with at most one deviation: the long form is accepted for lengths below 128 where it has
-- one octet. It leaves the rest of the view and the error ring as they were.
pub get_length_sound :
    (i : Input) {j : Input} {n : ℕ}
    → IsValid i.cbs
    → get_length i ≡ (j, some n)
    → (l : List ℕ) × LengthForm n l
      × (view i.cbs ≡ l ++ view j.cbs)
      × IsValid j.cbs
      × (j.errors ≡ i.errors)
unfolding get_length
get_length_sound i {j} {n} ok e =
    let (b, k, read, rest) = resume-some (expect 1 get_u8 i) after_initial e in
    let (bytes, small, okk, errs) = octet_sound 1 i ok read in
    let (bs, form, more, okj, errs') = after_initial_sound b k small okk rest in
    (b ∷ bs, form, bytes ∙ ap (λ l. b ∷ l) more, okj, errs' ∙ errs)

long_length_complete :
    (m len n : ℕ) (i : Input) {j : Input}
    → 1 ≤ m
    → m ≤ 8
    → n ≡ len
    → (1 < m → 2 ^ (8 * (m - 1)) ≤ n)
    → length_octets m 0 i ≡ (j, some len)
    → long_length m i ≡ (j, some n)
unfolding long_length
long_length_complete m len n i some_octet at_most value minimal octets =
    let nonzero : (m == 0) ≡ false = ground arith in
    let few : ltb 8 m ≡ false = ground arith in
    rw (nonzero, few, octets, ← value, test_of_minimal m n _ minimal)

after_initial_long : (m : ℕ) → 1 ≤ m → m ≤ 8 → after_initial (128 + m) ≡ long_length m
unfolding after_initial
after_initial_long m h h' =
    let (top, low) = initial_bits (128 + m) (omega arith) in
    let high : (bit_and (128 + m) 0x80 == 0) ≡ false = ground (arith, top) in
    let count : bit_and (128 + m) 0x7F ≡ m = omega (arith, low) in rw (high, count)

-- Wherever the view starts with a length field of X.690, opssl_asn1_get_length returns its length
-- and leaves the rest of the view, and records no error.
pub get_length_complete :
    (i : Input) (n : ℕ) (l rest : List ℕ)
    → IsValid i.cbs
    → LengthForm n l
    → view i.cbs ≡ l ++ rest
    → (c : Cbs) × (get_length i ≡ (record i { cbs = c }, some n)) × (view c ≡ rest) × IsValid c
unfolding get_length after_initial
get_length_complete i n l rest ok (short small form) e =
    let (read, left, okc) = octet_complete 1 i n rest ok (omega arith) (rw form at e) in
    let low : (bit_and n 0x80 == 0) ≡ true = rw ((initial_bits n (omega arith)).0) (ground arith) in
    (advance 1 i.cbs, rw (read, low), left, okc)
get_length_complete i n l rest ok (long bs all some_octet fit value minimal form) e =
    let m = length bs in
    let (read, left, okc) =
      octet_complete 1 i (128 + m) (bs ++ rest) ok (omega arith) (rw form at e) in
    let room : (0 + 1) * 256 ^ m ≤ 2 ^ 64 =
      omega (arith, pow-le-pow_right {n = 256} (omega arith) {i = m} {j = 8} fit) in
    let (c, octets, done, okd) =
      length_octets_complete bs rest 0 (record i { cbs = advance 1 i.cbs }) okc all room left in
    (
      c,
      ap (λ r. resume r after_initial) read
          ∙ ap (λ f. f (record i { cbs = advance 1 i.cbs })) (after_initial_long m some_octet fit)
          ∙ long_length_complete m (be_value 0 bs) n _ some_octet fit value minimal octets,
      done,
      okd,
    )
