-- ===== src/Record/Nonce.antt =====
-- The nonces of records: twelve bytes, and no two sequence numbers with the same one.
use opssl.Base.{
  ℕ, ◌^◌, ◌<◌, ◌≡◌, refl, sym, ap, ◌∙◌, List, [], ◌∷◌, ◌++◌, length, take, drop, Bool-cases, inl,
  inr, length-append, length-take, length-drop, drop-length, get_or, arith,
}
use opssl.Bytes.{put_be32, put_be64, be64}
use opssl.Bytes.Values.{be64-put_be64}
use opssl.Base.Xor.{bit_xor_cancel}
use opssl.Crypto.ChaCha20.{xor_bytes}
use opssl.Crypto.ChaCha20.Stream.{length-xor_bytes}
use opssl.Record.{RecordState, make_nonce}

pub length-put_be64 : (v : ℕ) → length (put_be64 v) ≡ 8
unfolding put_be64 put_be32
length-put_be64 v = refl

pub length-make_nonce : (st : RecordState) → length st.iv ≡ 12 → length (make_nonce st) ≡ 12
unfolding make_nonce
length-make_nonce st h = elim (Bool-cases st.is_tls13) [
  | inl e ↦ rw e (
      omega (
        arith,
        length-append (take 4 st.iv) (xor_bytes (take 8 (drop 4 st.iv)) (put_be64 st.seq)),
        length-take 4 st.iv,
        length-take 8 (drop 4 st.iv),
        length-drop 4 st.iv,
        length-put_be64 st.seq,
        length-xor_bytes (take 8 (drop 4 st.iv)) (put_be64 st.seq)
            (omega (arith, length-take 8 (drop 4 st.iv), length-put_be64 st.seq)),
      ))
  | inr e ↦ rw e (
      omega (
        arith,
        length-append (take 4 st.iv) (put_be64 st.seq),
        length-take 4 st.iv,
        length-put_be64 st.seq,
      ))
]

put_be64_injective : (a b : ℕ) → a < 2 ^ 64 → b < 2 ^ 64 → put_be64 a ≡ put_be64 b → a ≡ b
put_be64_injective a b ha hb e =
    sym (be64-put_be64 a [] ha) ∙ ap (λ l. be64 (l ++ [])) e ∙ be64-put_be64 b [] hb

xor_bytes_cancel :
    (xs ys zs : List ℕ)
    → length ys ≡ length xs
    → length zs ≡ length xs
    → xor_bytes xs ys ≡ xor_bytes xs zs
    → ys ≡ zs
unfolding xor_bytes
xor_bytes_cancel [] [] [] ha hb e = refl
xor_bytes_cancel [] (a ∷ ys) zs ha hb e = absurd (omega arith)
xor_bytes_cancel [] [] (b ∷ zs) ha hb e = absurd (omega arith)
xor_bytes_cancel (x ∷ xs) [] zs ha hb e = absurd (omega arith)
xor_bytes_cancel (x ∷ xs) (a ∷ ys) [] ha hb e = absurd (omega arith)
xor_bytes_cancel (x ∷ xs) (a ∷ ys) (b ∷ zs) ha hb e =
    let head : a ≡ b = bit_xor_cancel x a b (ap (λ l. get_or l 0 0) e) in
    let tail = xor_bytes_cancel xs ys zs (omega arith) (omega arith) (ap (drop 1) e) in
    (λ i. head i ∷ tail i)

behind : (ys zs us vs : List ℕ) → ys ++ zs ≡ us ++ vs → length ys ≡ length us → zs ≡ vs
behind ys zs us vs e h = sym (drop-length ys zs) ∙ (λ i. drop (h i) (e i)) ∙ drop-length us vs

-- Under one key and IV, in either version, the nonces of two records are the same only where their
-- sequence numbers, which are 64-bit numbers, are the same.
pub make_nonce_injective :
    (st : RecordState) (a b : ℕ)
    → length st.iv ≡ 12
    → a < 2 ^ 64
    → b < 2 ^ 64
    → make_nonce (record st { seq = a }) ≡ make_nonce (record st { seq = b })
    → a ≡ b
unfolding make_nonce
make_nonce_injective st a b h ha hb e = elim (Bool-cases st.is_tls13) [
  | inl t ↦
      let e1 = rw t at e in
      let x = take 8 (drop 4 st.iv) in
      let size : length x ≡ 8 = omega (arith, length-take 8 (drop 4 st.iv), length-drop 4 st.iv) in
      let e2 =
        behind (take 4 st.iv) (xor_bytes x (put_be64 a)) (take 4 st.iv) (xor_bytes x (put_be64 b))
          e1 refl in
      put_be64_injective a b ha hb (
        xor_bytes_cancel x (put_be64 a) (put_be64 b) (length-put_be64 a ∙ sym size)
          (length-put_be64 b ∙ sym size) e2)
  | inr t ↦
      let e1 = rw t at e in
      put_be64_injective a b ha hb
        (behind (take 4 st.iv) (put_be64 a) (take 4 st.iv) (put_be64 b) e1 refl)
]
