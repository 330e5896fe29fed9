-- ===== src/Bytes/Store.antt =====
-- `memcpy` into a buffer: what it changes, and that the length stays.
use opssl.Base.{
  ℕ, zero, suc, ◌+◌, ◌≤◌, ◌≡◌, refl, ap, ◌∙◌, List, [], ◌∷◌, ◌++◌, arith, length, set, take, drop,
  length-set, length-take, length-append, append_assoc, take-length, sym, drop-length,
}
use opssl.Bytes.{store}

pub length-store : (bs buf : List ℕ) (pos : ℕ) → length (store buf pos bs) ≡ length buf
unfolding store
length-store [] buf pos = refl
length-store (b ∷ bs) buf pos = length-store bs (set buf pos b) (pos + 1) ∙ length-set buf pos b

store-cons : (bs buf : List ℕ) (x pos : ℕ) → store (x ∷ buf) (suc pos) bs ≡ x ∷ store buf pos bs
unfolding store
store-cons [] buf x pos = refl
store-cons (b ∷ bs) buf x pos =
    ap (λ k. store (x ∷ set buf pos b) k bs) (omega arith)
    ∙ store-cons bs (set buf pos b) x (pos + 1)

-- A store that fits overwrites exactly its own bytes.
pub store_lem :
    (pos : ℕ) (bs buf : List ℕ)
    → pos + length bs ≤ length buf
    → store buf pos bs ≡ take pos buf ++ (bs ++ drop (pos + length bs) buf)
unfolding store
store_lem zero [] buf h = refl
store_lem zero (b ∷ bs) [] h = absurd (omega arith)
store_lem zero (b ∷ bs) (x ∷ buf) h =
    store-cons bs buf b 0
    ∙ ap (λ l. b ∷ l) (store_lem zero bs buf (omega arith))
    ∙ ap (λ k. b ∷ (bs ++ drop k (x ∷ buf))) {x = suc (0 + length bs)} {y = 0 + suc (length bs)}
        (omega arith)
store_lem (suc pos) bs [] h = absurd (omega arith)
store_lem (suc pos) bs (x ∷ buf) h =
    store-cons bs buf x pos
    ∙ ap (λ l. x ∷ l) (store_lem pos bs buf (omega arith))
    ∙ ap (λ k. x ∷ (take pos buf ++ (bs ++ drop k (x ∷ buf)))) {x = suc (pos + length bs)}
        {y = suc pos + length bs} (omega arith)

pub take-store_at :
    (body bytes : List ℕ) (offset : ℕ)
    → offset + length bytes ≤ length body
    → take (offset + length bytes) (store body offset bytes) ≡ take offset body ++ bytes
take-store_at body bytes offset h =
    let d = drop (offset + length bytes) body in
    let whole : store body offset bytes ≡ (take offset body ++ bytes) ++ d =
      store_lem offset bytes body h ∙ sym (append_assoc (take offset body) bytes d) in
    let size : length (take offset body ++ bytes) ≡ offset + length bytes =
      omega (arith, length-append (take offset body) bytes, length-take offset body) in
    let both = take offset body ++ bytes in
    ap (take (offset + length bytes)) whole
    ∙ ap (λ k. take k (both ++ d)) {x = offset + length bytes} {y = length both} (sym size)
    ∙ take-length both d

pub take-store_before :
    (body bytes : List ℕ) (offset : ℕ)
    → offset + length bytes ≤ length body
    → take offset (store body offset bytes) ≡ take offset body
take-store_before body bytes offset h =
    let size : length (take offset body) ≡ offset = omega (arith, length-take offset body) in
    let rest = bytes ++ drop (offset + length bytes) body in
    ap (take offset) (store_lem offset bytes body h)
    ∙ ap (λ k. take k (take offset body ++ rest)) {x = offset} {y = length (take offset body)}
        (sym size)
    ∙ take-length (take offset body) rest

-- What stands behind the stored bytes stays.
pub drop-store_after :
    (buf bytes : List ℕ) (offset : ℕ)
    → offset + length bytes ≤ length buf
    → drop (offset + length bytes) (store buf offset bytes) ≡ drop (offset + length bytes) buf
drop-store_after buf bytes offset h =
    let d = drop (offset + length bytes) buf in
    let both = take offset buf ++ bytes in
    let whole : store buf offset bytes ≡ both ++ d =
      store_lem offset bytes buf h ∙ sym (append_assoc (take offset buf) bytes d) in
    let size : length both ≡ offset + length bytes =
      omega (arith, length-append (take offset buf) bytes, length-take offset buf) in
    (λ i. drop (sym size i) (whole i)) ∙ drop-length both d

-- The stored bytes, and what stands behind them.
pub drop-store_at :
    (buf bytes : List ℕ) (offset : ℕ)
    → offset + length bytes ≤ length buf
    → drop offset (store buf offset bytes) ≡ bytes ++ drop (offset + length bytes) buf
drop-store_at buf bytes offset h =
    let rest = bytes ++ drop (offset + length bytes) buf in
    let size : length (take offset buf) ≡ offset = omega (arith, length-take offset buf) in
    (λ i. drop (sym size i) (store_lem offset bytes buf h i)) ∙ drop-length (take offset buf) rest
