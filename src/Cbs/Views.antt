-- ===== src/Cbs/Views.antt =====
-- A parser never reads outside its view, and a failure of include/opssl/cbs.h's functions is not
-- sticky.
use opssl.Base.{
  ℕ, ◌+◌, ◌≤◌, ◌<◌, ◌≡◌, refl, sym, ap, ◌∙◌, List, [], ◌∷◌, Option, none, some, arith, ltb, length,
  take, drop, take-take, Bool-cases, inl, inr, ltb→le,
}
use opssl.Bytes.{byte_at, be16, be24, be32}
use opssl.Cbs.{
  Cbs, Parser, ◌>>=◌, continue, advance, fixed, view, get_u8, get_u16, get_u24, get_u32, get_bytes,
  skip, copy_bytes, get_u8_length_prefixed, get_u16_length_prefixed, get_u24_length_prefixed,
}
use opssl.Cbs.Bounds.{IsValid, length-view, view-advance, advance-IsValid}

-- The calls that a client can make.
pub data Call : Type 0 where
  u8 u16 u24 u32 : Call
  bytes : ℕ → Call
  skip_n : ℕ → Call
  copy : ℕ → Call
  prefixed8 prefixed16 prefixed24 : Call

-- What a client sees of a result: a number, or the bytes of a field.
abbrev seen : {A : Type 0} → (A → List ℕ) → Parser A → Parser (List ℕ)
seen f p = p >>= λ a c. (c, some (f a))

abbrev number : ℕ → List ℕ
number n = n ∷ []

unfoldable pub call : Call → Parser (List ℕ)
call u8 = seen number get_u8
call u16 = seen number get_u16
call u24 = seen number get_u24
call u32 = seen number get_u32
call (bytes n) = seen view (get_bytes n)
call (skip_n n) = seen (λ _. []) (skip n)
call (copy n) = seen (λ l. l) (copy_bytes n)
call prefixed8 = seen view get_u8_length_prefixed
call prefixed16 = seen view get_u16_length_prefixed
call prefixed24 = seen view get_u24_length_prefixed

-- Calls one after another, whatever fails on the way.
unfoldable pub calls : List Call → Cbs → Cbs × List (Option (List ℕ))
calls [] c = (c, [])
calls (k ∷ ks) c = let (c', r) = call k c in let (d, rs) = calls ks c' in (d, r ∷ rs)

-- Two parsers on the same bytes, each valid.
record Alike (c d : Cbs) : Type 0 where
  left : IsValid c
  right : IsValid d
  same : view c ≡ view d

-- The outcomes of a step on two such parsers.
record Agree {A : Type 0} (x y : Cbs × Option A) : Type 0 where
  after : Alike x.0 y.0
  equal : x.1 ≡ y.1

Alike-len : {c d : Cbs} → Alike c d → c.len ≡ d.len
Alike-len {c} {d} a = sym (length-view c (a.left.0)) ∙ ap length a.same ∙ length-view d (a.right.0)

Alike-take : (n : ℕ) {c d : Cbs} → n ≤ c.len → Alike c d → take n c.bytes ≡ take n d.bytes
Alike-take n {c} {d} h a =
    sym (take-take n c.len c.bytes h)
    ∙ ap (take n) a.same
    ∙ take-take n d.len d.bytes (omega (arith, Alike-len a))

Alike-advance : (n : ℕ) {c d : Cbs} → n ≤ c.len → Alike c d → Alike (advance n c) (advance n d)
Alike-advance n {c} {d} h a = record {
  left = advance-IsValid n c h a.left;
  right = advance-IsValid n d (omega (arith, Alike-len a)) a.right;
  same = view-advance n c ∙ ap (drop n) a.same ∙ sym (view-advance n d);
}

-- A read whose value depends on its own bytes only.
fixed-Agree :
    {A : Type 0} (n : ℕ) (value : List ℕ → A) {c d : Cbs}
    → ((p : List ℕ) → value (take n p) ≡ value p)
    → Alike c d
    → Agree (fixed n value c) (fixed n value d)
fixed-Agree n value {c} {d} local a = elim (Bool-cases (ltb c.len n)) [
  | inl short ↦
      rw (short, ap (λ k. ltb k n) (sym (Alike-len a)) ∙ short) (record { after = a; equal = refl })
  | inr enough ↦
      rw (enough, ap (λ k. ltb k n) (sym (Alike-len a)) ∙ enough)
        (record {
          after = Alike-advance n (ltb→le _ _ enough) a;
          equal =
              ap some (
                sym (local c.bytes)
                ∙ ap value (Alike-take n (ltb→le _ _ enough) a)
                ∙ local d.bytes);
        })
]

continue-Agree :
    {A B : Type 0} (f g : A → Parser B) (x y : Cbs × Option A)
    → Agree x y
    → ((a : A) (c d : Cbs) → Alike c d → Agree (f a c) (g a d))
    → Agree (continue x f) (continue y g)
continue-Agree f g (c, none) (d, none) a h = record { after = a.after; equal = refl }
continue-Agree f g (c, none) (d, some v) a h = cc (a.equal)
continue-Agree f g (c, some u) (d, none) a h = cc (a.equal)
continue-Agree f g (c, some u) (d, some v) a h =
    let e : u ≡ v = cc (a.equal) in rw (← e) (h u c d a.after)

seen-Agree :
    {A : Type 0} (f : A → List ℕ) (p : Parser A) (c d : Cbs)
    → Agree (p c) (p d)
    → Agree (seen f p c) (seen f p d)
seen-Agree f p c d a =
    continue-Agree _ _ (p c) (p d) a (λ v x y h. record { after = h; equal = refl })

-- A field's view is a copy of its bytes.
seen-get_bytes : (n : ℕ) (c : Cbs) → seen view (get_bytes n) c ≡ fixed n (take n) c
unfolding get_bytes
seen-get_bytes n c = elim (Bool-cases (ltb c.len n)) [
  | inl short ↦ rw short
  | inr enough ↦ rw enough
]

get_bytes-Agree :
    (n : ℕ) (c d : Cbs) → Alike c d → Agree (seen view (get_bytes n) c) (seen view (get_bytes n) d)
get_bytes-Agree n c d a =
    rw (seen-get_bytes n c, seen-get_bytes n d)
      (fixed-Agree n (take n) (λ p. take-take n n p (omega arith)) a)

seen-bind :
    (p : Parser ℕ) (c : Cbs)
    → seen view (p >>= λ n. get_bytes n) c ≡ (p >>= λ n. seen view (get_bytes n)) c
seen-bind p c = go (p c)
  where
    go :
        (r : Cbs × Option ℕ)
        → continue (continue r (λ n. get_bytes n)) (λ x e. (e, some (view x)))
          ≡ continue r (λ n. seen view (get_bytes n))
    go (e, none) = refl
    go (e, some n) = refl

prefixed-Agree :
    (p : Parser ℕ) (c d : Cbs)
    → Agree (p c) (p d)
    → Agree (seen view (p >>= λ n. get_bytes n) c) (seen view (p >>= λ n. get_bytes n) d)
prefixed-Agree p c d a =
    rw (seen-bind p c, seen-bind p d) (continue-Agree _ _ (p c) (p d) a get_bytes-Agree)

u8_local : (p : List ℕ) → byte_at (take 1 p) 0 ≡ byte_at p 0
u8_local [] = refl
u8_local (a ∷ p) = refl

u16_local : (p : List ℕ) → be16 (take 2 p) ≡ be16 p
unfolding be16
u16_local [] = refl
u16_local (a ∷ []) = refl
u16_local (a ∷ b ∷ p) = refl

u24_local : (p : List ℕ) → be24 (take 3 p) ≡ be24 p
unfolding be24
u24_local [] = refl
u24_local (a ∷ []) = refl
u24_local (a ∷ b ∷ []) = refl
u24_local (a ∷ b ∷ c ∷ p) = refl

u32_local : (p : List ℕ) → be32 (take 4 p) ≡ be32 p
unfolding be32
u32_local [] = refl
u32_local (a ∷ []) = refl
u32_local (a ∷ b ∷ []) = refl
u32_local (a ∷ b ∷ c ∷ []) = refl
u32_local (a ∷ b ∷ c ∷ d ∷ p) = refl

call-Agree : (k : Call) (c d : Cbs) → Alike c d → Agree (call k c) (call k d)
unfolding call get_u8 get_u16 get_u24 get_u32 skip copy_bytes get_u8_length_prefixed
    get_u16_length_prefixed get_u24_length_prefixed
call-Agree u8 c d a = seen-Agree number get_u8 c d (fixed-Agree 1 _ u8_local a)
call-Agree u16 c d a = seen-Agree number get_u16 c d (fixed-Agree 2 be16 u16_local a)
call-Agree u24 c d a = seen-Agree number get_u24 c d (fixed-Agree 3 be24 u24_local a)
call-Agree u32 c d a = seen-Agree number get_u32 c d (fixed-Agree 4 be32 u32_local a)
call-Agree (bytes n) c d a = get_bytes-Agree n c d a
call-Agree (skip_n n) c d a = seen-Agree _ (skip n) c d (fixed-Agree n (λ p. tt) (λ p. refl) a)
call-Agree (copy n) c d a =
    seen-Agree _ (copy_bytes n) c d (fixed-Agree n (take n) (λ p. take-take n n p (omega arith)) a)
call-Agree prefixed8 c d a = prefixed-Agree get_u8 c d (fixed-Agree 1 _ u8_local a)
call-Agree prefixed16 c d a = prefixed-Agree get_u16 c d (fixed-Agree 2 be16 u16_local a)
call-Agree prefixed24 c d a = prefixed-Agree get_u24 c d (fixed-Agree 3 be24 u24_local a)

calls-Alike :
    (ks : List Call) (c d : Cbs)
    → Alike c d
    → ((calls ks c).1 ≡ (calls ks d).1) × Alike (calls ks c).0 (calls ks d).0
unfolding calls
calls-Alike [] c d a = (refl, a)
calls-Alike (k ∷ ks) c d a =
    let step = call-Agree k c d a in
    let (same, after) = calls-Alike ks (call k c).0 (call k d).0 step.after in
    (cc (same, step.equal), after)

-- Two valid parsers whose views hold the same bytes, over objects that may differ beyond the view,
-- give the same results on every sequence of calls, failed calls included, and end with the same
-- bytes left: no call reads past its view.
pub calls_same_view :
    (ks : List Call) (c d : Cbs)
    → IsValid c
    → IsValid d
    → view c ≡ view d
    → ((calls ks c).1 ≡ (calls ks d).1) × (view (calls ks c).0 ≡ view (calls ks d).0)
calls_same_view ks c d hc hd e =
    let (same, after) = calls-Alike ks c d (record { left = hc; right = hd; same = e }) in
    (same, after.same)

-- Any sequence of calls, failed ones included, keeps the view inside its object.
pub calls-IsValid : (ks : List Call) (c : Cbs) → IsValid c → IsValid (calls ks c).0
calls-IsValid ks c h = ((calls-Alike ks c c (record { left = h; right = h; same = refl })).1).left

-- With one to three bytes left, get_u32 fails and leaves the parser as it was, and the get_u8 after
-- it succeeds: a failure is not sticky.
pub get_u8_after_get_u32 :
    (c : Cbs)
    → 1 ≤ c.len
    → c.len < 4
    → (get_u32 c ≡ (c, none)) × (get_u8 (get_u32 c).0 ≡ (advance 1 c, some (byte_at c.bytes 0)))
unfolding get_u32 get_u8
get_u8_after_get_u32 c h k = ground arith

-- A u16 prefix that claims more than is left: the call fails, and yet it has consumed the prefix.
pub get_u16_length_prefixed_short :
    (c : Cbs)
    → 2 ≤ c.len
    → c.len < be16 c.bytes + 2
    → get_u16_length_prefixed c ≡ (advance 2 c, none)
unfolding get_u16_length_prefixed get_u16 get_bytes
get_u16_length_prefixed_short c h k = ground arith
