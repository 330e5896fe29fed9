-- ===== src/Cbs/Bounds.antt =====
-- What every read of src/crypto/cbs.c does to the view, whatever value it computes.
use opssl.Base.{
  ℕ, ◌+◌, ◌-◌, ◌≤◌, ◌≡◌, sym, ap, ◌∙◌, List, ◌++◌, some, arith, length, take, drop, All,
  length-take, length-drop, take-append_split, drop-take, All-drop, drop-length, take-append_drop,
  length-append,
}
use opssl.Bytes.{IsByte}
use opssl.Cbs.{Cbs, advance, fixed, view, InBounds}

-- The object holds bytes, and the view lies inside it.
abbrev pub IsValid : Cbs → Type 0
IsValid c = InBounds c × All IsByte c.bytes

pub length-view : (c : Cbs) → InBounds c → length (view c) ≡ c.len
length-view c h = omega (arith, length-take c.len c.bytes)

pub view-advance : (n : ℕ) (c : Cbs) → view (advance n c) ≡ drop n (view c)
view-advance n c = sym (drop-take n c.len c.bytes)

pub view_split : (n : ℕ) (c : Cbs) → n ≤ c.len → view c ≡ take n c.bytes ++ view (advance n c)
view_split n c h =
    ap (λ k. take k c.bytes) {x = c.len} {y = n + (c.len - n)} (omega arith)
    ∙ take-append_split n (c.len - n) c.bytes

pub advance-IsValid : (n : ℕ) (c : Cbs) → n ≤ c.len → IsValid c → IsValid (advance n c)
advance-IsValid n c k (h, b) = (omega (arith, length-drop n c.bytes), All-drop IsByte n c.bytes b)

-- A successful read passed its test, and nothing else about it depends on the value.
pub fixed-some :
    {A : Type 0} (n : ℕ) (value : List ℕ → A) (c : Cbs) {c' : Cbs} {a : A}
    → fixed n value c ≡ (c', some a)
    → (n ≤ c.len) × (c' ≡ advance n c) × (a ≡ value c.bytes)
fixed-some n value c e = ground arith

pub fixed_enough :
    {A : Type 0} (n : ℕ) (value : List ℕ → A) (c : Cbs)
    → n ≤ c.len
    → fixed n value c ≡ (advance n c, some (value c.bytes))
fixed_enough n value c h = ground arith

-- The bytes of an object whose view is known.
pub bytes_of_view :
    (c : Cbs) (front rest : List ℕ)
    → view c ≡ front ++ rest
    → c.bytes ≡ (front ++ rest) ++ drop c.len c.bytes
bytes_of_view c front rest e =
    sym (take-append_drop c.len c.bytes) ∙ ap (λ v. v ++ drop c.len c.bytes) e

pub view_prefix :
    (c : Cbs) (front rest : List ℕ)
    → InBounds c
    → view c ≡ front ++ rest
    → (length front ≤ c.len) × (view (advance (length front) c) ≡ rest)
view_prefix c front rest h e = (
  omega (arith, ap length e, length-view c h, length-append front rest),
  view-advance (length front) c ∙ ap (λ v. drop (length front) v) e ∙ drop-length front rest,
)
