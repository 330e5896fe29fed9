-- ===== src/Crypto/Sha256/Blocks.antt =====
-- The loop over blocks: one after another, and what stands behind them.
use opssl.Base.{
  drop-drop, drop-append, take-append_short, ℕ, zero, suc, ◌+◌, ◌*◌, ◌≤◌, ◌≡◌, refl, ap, ◌∙◌, List,
  ◌++◌, length, take, drop, length-drop, arith,
}
use opssl.Crypto.Sha256.{Vars, sha256_transform, transform_blocks}

transform_blocks-add :
    (n m : ℕ) (s : Vars) (p : List ℕ)
    → transform_blocks (n + m) s p ≡ transform_blocks m (transform_blocks n s p) (drop (n * 64) p)
unfolding transform_blocks
transform_blocks-add zero m s p =
    ap (λ k. transform_blocks k s p) {x = zero + m} {y = m} (omega arith)
transform_blocks-add (suc n) m s p =
    ap (λ k. transform_blocks k s p) {x = suc n + m} {y = suc (n + m)} (omega arith)
    ∙ transform_blocks-add n m (sha256_transform s (take 64 p)) (drop 64 p)
    ∙ ap (transform_blocks m (transform_blocks n (sha256_transform s (take 64 p)) (drop 64 p))) (
        drop-drop (n * 64) 64 p
        ∙ ap (λ k. drop k p) {x = 64 + n * 64} {y = suc n * 64} (omega arith))

transform_blocks-append :
    (n : ℕ) (s : Vars) (p q : List ℕ)
    → n * 64 ≤ length p
    → transform_blocks n s (p ++ q) ≡ transform_blocks n s p
unfolding transform_blocks
transform_blocks-append zero s p q h = refl
transform_blocks-append (suc n) s p q h =
    (λ i.
      transform_blocks n (sha256_transform s (take-append_short 64 p q (omega arith) i))
        (drop-append 64 p q (omega arith) i))
    ∙ transform_blocks-append n (sha256_transform s (take 64 p)) (drop 64 p) q
        (omega (arith, length-drop 64 p))

-- The blocks of a message that is `m` and then `p`: those of `m`, and then those of what is left of
-- `m` with `p` behind it.
pub transform_blocks_on :
    (n k : ℕ) (s : Vars) (m p : List ℕ)
    → n * 64 ≤ length m
    → transform_blocks (n + k) s (m ++ p)
      ≡ transform_blocks k (transform_blocks n s m) (drop (n * 64) m ++ p)
transform_blocks_on n k s m p h =
    transform_blocks-add n k s (m ++ p)
    ∙ (λ i. transform_blocks k (transform_blocks-append n s m p h i) (drop-append (n * 64) m p h i))
