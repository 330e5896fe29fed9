-- ===== src/Conn/Keys.antt =====
-- What is stored at the start of a buffer is read back, and what the getters of keys return.
use opssl.Base.{
  ℕ, min, false, ◌+◌, ◌≤◌, ◌<◌, ◌^◌, ◌≡◌, refl, sym, none, some, List, length, take, drop, ltb,
  ◌==◌, inl, inr, Bool-cases, ltb→le, le→ltb, take-length, length-take, arith,
}
use mathlib.Core.Option
use opssl.Bytes.{store}
use opssl.Bytes.Store.{store_lem}
use opssl.Conn.{Conn, key_out}

-- The arrays have their sizes, and the lengths and numbers are in range.
pub record IsConn (c : Conn) : Type 0 where
  pub cipher_fits : c.cipher < 2 ^ 16
  pub read_key_size : length c.read_key ≡ 32
  pub write_key_size : length c.write_key ≡ 32
  pub read_iv_size : length c.read_iv ≡ 12
  pub write_iv_size : length c.write_iv ≡ 12
  pub read_seq_fits : c.read_seq < 2 ^ 64
  pub write_seq_fits : c.write_seq < 2 ^ 64

pub take-store :
    (bs buf : List ℕ) (n : ℕ) → length bs ≡ n → n ≤ length buf → take n (store buf 0 bs) ≡ bs
take-store bs buf n same h =
    rw (sym same, store_lem 0 bs buf (omega arith)) (take-length bs (drop (0 + length bs) buf))

pub key_out-store :
    (key buf : List ℕ)
    → length buf ≡ 32
    → 1 ≤ length key
    → length key ≤ 32
    → key_out (store buf 0 key) (length key) 32 ≡ some key
unfolding key_out
key_out-store key buf size l1 l2 =
    let s1 : (length key == 0) ≡ false = ground arith in
    let s2 : ltb 32 (length key) ≡ false = le→ltb 32 (length key) l2 in
    rw (s1, s2, take-store key buf (length key) refl (omega arith)) refl

pub key_out-some :
    (key : List ℕ) (len : ℕ) {k : List ℕ}
    → length key ≡ 32
    → key_out key len 32 ≡ some k
    → (1 ≤ length k) × (length k ≤ 32)
unfolding key_out
key_out-some key len {k} size e = elim (Bool-cases (len == 0)) [
  | inl z ↦ let absurd : none ≡ some k = rw z at e in cc
  | inr z ↦ elim (Bool-cases (ltb 32 len)) [
    | inl y ↦ let absurd : none ≡ some k = rw (z, y) at e in cc
    | inr y ↦
        let same : take len key ≡ k = Option.some-injective (take len key) k (rw (z, y) at e) in
        let size' : length k ≡ min len 32 = rw (sym same) (omega (arith, length-take len key)) in
        let pos : 1 ≤ len = ground arith in omega (arith, ltb→le 32 len y)
  ]
]
