-- ===== src/Session/Format.antt =====
-- The wire format of an export: what is written is read back, and only that is read.
use opssl.Base.{
  ℕ, ◌+◌, ◌%◌, ◌^◌, ◌≤◌, ◌<◌, ◌≡◌, refl, sym, ap, ◌∙◌, false, some, List, [], ◌∷◌, ◌++◌, length,
  drop, ltb, ◌==◌, arith, append_assoc, append-nil, length-append, drop-length, take-length, le→ltb,
}
use opssl.Bytes.{be16, be32, be64, put_be16, put_be32, put_be64}
use opssl.Bytes.Values.{be16-put_be16, be32-put_be32, be64-put_be64}
use opssl.Session.{
  Half, State, export_magic, export_version, write_half, write_state, read_half, read_state,
}

-- What one direction of an export can hold.
pub record IsHalf (h : Half) : Type 0 where
  pub key_some : 1 ≤ length h.key
  pub key_fits : length h.key ≤ 32
  pub iv_fits : length h.iv ≤ 16
  pub seq_fits : h.seq < 2 ^ 64

pub record IsState (s : State) : Type 0 where
  pub cipher_fits : s.cipher < 2 ^ 16
  pub flags_fit : s.flags < 2 ^ 32
  pub reading_fits : IsHalf s.reading
  pub writing_fits : IsHalf s.writing

read_half_at :
    (p key iv tail : List ℕ) (seq : ℕ) (rest : List ℕ)
    → be16 p ≡ length key
    → drop 2 p ≡ key ++ (length iv ∷ (iv ++ tail))
    → 2 ≤ length p
    → 1 ≤ length key
    → length key ≤ 32
    → length iv ≤ 16
    → 8 ≤ length tail
    → be64 tail ≡ seq
    → drop 8 tail ≡ rest
    → read_half p ≡ some (record { key = key; iv = iv; seq = seq }, rest)
unfolding read_half
read_half_at p key iv tail seq rest e1 e2 l1 l2 l3 l4 l5 e3 e4 =
    let after_key : drop (length key) (key ++ (length iv ∷ (iv ++ tail)))
        ≡ length iv ∷ (iv ++ tail) =
      drop-length key (length iv ∷ (iv ++ tail)) in
    let s1 : ltb (length p) 2 ≡ false = le→ltb (length p) 2 l1 in
    let s2 : (length key == 0) ≡ false = ground arith in
    let s3 : ltb 32 (length key) ≡ false = le→ltb 32 (length key) l3 in
    let s4 : ltb (length (key ++ (length iv ∷ (iv ++ tail)))) (length key) ≡ false =
      le→ltb _ _ (omega (arith, length-append key (length iv ∷ (iv ++ tail)))) in
    let s5 : ltb (length (length iv ∷ (iv ++ tail))) 1 ≡ false = le→ltb _ _ (omega arith) in
    let s6 : ltb 16 (length iv) ≡ false = le→ltb 16 (length iv) l4 in
    let s7 : ltb (length (iv ++ tail)) (length iv + 8) ≡ false =
      le→ltb _ _ (omega (arith, length-append iv tail)) in
    rw
      (
        e1,
        e2,
        after_key,
        s1,
        s2,
        s3,
        s4,
        s5,
        s6,
        s7,
        take-length key (length iv ∷ (iv ++ tail)),
        take-length iv tail,
        drop-length iv tail,
        e3,
        e4,
      )
      refl

eight : (v : ℕ) (rest : List ℕ) → 8 ≤ length (put_be64 v ++ rest)
unfolding put_be64 put_be32
eight v rest = omega arith

drop_eight : (v : ℕ) (rest : List ℕ) → drop 8 (put_be64 v ++ rest) ≡ rest
unfolding put_be64 put_be32
drop_eight v rest = refl

-- A direction that was written is read back, and what follows it is left.
pub read_half-write_half :
    (h : Half) (rest : List ℕ) → IsHalf h → read_half (write_half h ++ rest) ≡ some (h, rest)
unfolding write_half put_be16
read_half-write_half h rest ok =
    let n = length h.key in
    let body = h.key ++ ((length h.iv % 2 ^ 8) ∷ (h.iv ++ put_be64 h.seq)) in
    let small : n % 2 ^ 16 ≡ n = omega (arith, ok.key_fits) in
    let octet : length h.iv % 2 ^ 8 ≡ length h.iv = omega (arith, ok.iv_fits) in
    let inner : body ++ rest ≡ h.key ++ (length h.iv ∷ (h.iv ++ (put_be64 h.seq ++ rest))) =
      append_assoc h.key ((length h.iv % 2 ^ 8) ∷ (h.iv ++ put_be64 h.seq)) rest
      ∙ (λ i. h.key ++ (octet i ∷ append_assoc h.iv (put_be64 h.seq) rest i)) in
    read_half_at (write_half h ++ rest) h.key h.iv (put_be64 h.seq ++ rest) h.seq rest
      (be16-put_be16 (n % 2 ^ 16) (body ++ rest) (omega arith) ∙ small) inner (omega arith)
      ok.key_some ok.key_fits ok.iv_fits (eight h.seq rest) (be64-put_be64 h.seq rest ok.seq_fits)
      (drop_eight h.seq rest)

read_state_at :
    (p : List ℕ) (s : State) (rest : List ℕ)
    → 12 ≤ length p
    → be32 p ≡ export_magic
    → be16 (drop 4 p) ≡ export_version
    → be16 (drop 6 p) ≡ s.cipher
    → be32 (drop 8 p) ≡ s.flags
    → drop 12 p ≡ write_half s.reading ++ (write_half s.writing ++ rest)
    → IsState s
    → read_state p ≡ some s
unfolding read_state
read_state_at p s rest l e1 e2 e3 e4 e5 ok =
    let s1 : ltb (length p) 12 ≡ false = le→ltb (length p) 12 l in
    rw
      (
        s1,
        e1,
        e2,
        e3,
        e4,
        e5,
        read_half-write_half s.reading (write_half s.writing ++ rest) ok.reading_fits,
        read_half-write_half s.writing rest ok.writing_fits,
      )
      refl

-- Every state that the format can hold is read back from what is written for it.
pub read_state-write_state : (s : State) → IsState s → read_state (write_state s) ≡ some s
unfolding write_state put_be32 put_be16
read_state-write_state s ok =
    read_state_at (write_state s) s [] (omega arith) (be32-put_be32 export_magic _ (omega arith))
      (be16-put_be16 export_version _ (omega arith))
      (be16-put_be16 (s.cipher % 2 ^ 16) _ (omega arith) ∙ omega (arith, ok.cipher_fits))
      (be32-put_be32 s.flags _ ok.flags_fit)
      (ap (λ l. write_half s.reading ++ l) (sym (append-nil (write_half s.writing)))) ok
