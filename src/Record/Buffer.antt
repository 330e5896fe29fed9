-- ===== src/Record/Buffer.antt =====
-- Buffers in parts: what a call finds in a buffer whose beginning is known, and what it leaves there.
use opssl.Base.{
  ℕ, ◌+◌, ◌-◌, ◌≤◌, ◌≡◌, sym, ap, ◌∙◌, List, ◌++◌, length, take, drop, take-take, drop-take,
  take-length, drop-length, arith,
}
use opssl.Bytes.{store}
use opssl.Bytes.Store.{take-store_at}

-- A beginning in two parts.
pub two_parts :
    (m : ℕ) (buf first second : List ℕ)
    → take (length first + m) buf ≡ first ++ second
    → (take (length first) buf ≡ first) × (take m (drop (length first) buf) ≡ second)
two_parts m buf first second e =
    let k = length first in
    let left : k + m - k ≡ m = omega arith in
    (
      sym (take-take k (k + m) buf (omega arith)) ∙ ap (take k) e ∙ take-length first second,
      ap (λ n. take n (drop k buf)) (sym left)
          ∙ sym (drop-take k (k + m) buf)
          ∙ ap (drop k) e
          ∙ drop-length first second,
    )

-- What is stored behind a known beginning continues it.
pub take-store_behind :
    (buf first bytes : List ℕ)
    → take (length first) buf ≡ first
    → length first + length bytes ≤ length buf
    → take (length first + length bytes) (store buf (length first) bytes) ≡ first ++ bytes
take-store_behind buf first bytes e h =
    take-store_at buf bytes (length first) h ∙ ap (λ l. l ++ bytes) e

-- A list with another behind it, cut at its own length.
pub take-append_exact : (n : ℕ) (xs ys : List ℕ) → length xs ≡ n → take n (xs ++ ys) ≡ xs
take-append_exact n xs ys e = ap (λ k. take k (xs ++ ys)) (sym e) ∙ take-length xs ys
