-- ===== src/Conn/Flags.antt =====
-- The flags of an export: what is set is what was read.
use opssl.Base.{ℕ, ◌<◌, ◌^◌, ◌≡◌, refl, Bool, true, false, ◌&&◌, ltb, ltb→lt, ==_iff, ◌==◌}
use opssl.Conn.{flags_of, flag}

conj : (a b : Bool) → (a && b) ≡ true → (a ≡ true) × (b ≡ true)
conj true b h = (refl, h)
conj false b h = cc

-- What holds of both Booleans, as a test.
abbrev each : (Bool → Bool) → Bool
each p = p true && p false

each-at : (p : Bool → Bool) → each p ≡ true → (b : Bool) → p b ≡ true
each-at p h true = (conj (p true) (p false) h).0
each-at p h false = (conj (p true) (p false) h).1

abbrev pub again : ℕ → ℕ
again f = flags_of (flag f 0) (flag f 1) (flag f 2) (flag f 3) (flag f 4)

abbrev kept : Bool → Bool → Bool → Bool → Bool → Bool
kept a b c d e = let f = flags_of a b c d e in again f == f && ltb f (2 ^ 32)

all_kept : each (λ a. each (λ b. each (λ c. each (λ d. each (λ e. kept a b c d e))))) ≡ true
all_kept = refl

kept-all : (a b c d e : Bool) → kept a b c d e ≡ true
kept-all a b c d e =
    each-at (λ e. kept a b c d e)
      (each-at (λ d. each (λ e. kept a b c d e))
        (each-at (λ c. each (λ d. each (λ e. kept a b c d e)))
          (each-at (λ b. each (λ c. each (λ d. each (λ e. kept a b c d e))))
            (each-at (λ a. each (λ b. each (λ c. each (λ d. each (λ e. kept a b c d e))))) all_kept
              a)
            b)
          c)
        d)
      e

pub flags_back :
    (a b c d e : Bool)
    → (again (flags_of a b c d e) ≡ flags_of a b c d e) × (flags_of a b c d e < 2 ^ 32)
flags_back a b c d e =
    let f = flags_of a b c d e in
    let (same, small) = conj (again f == f) (ltb f (2 ^ 32)) (kept-all a b c d e) in
    ((==_iff (again f) f).0 same, ltb→lt f (2 ^ 32) small)
