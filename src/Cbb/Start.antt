-- ===== src/Cbb/Start.antt =====
-- opssl_cbb_init and opssl_cbb_init_fixed: the builder behind these calls.
use opssl.Base.{
  ℕ, ◌<◌, ◌≡◌, ◌==◌, refl, ap, true, [], ◌∷◌, length, arith, length-replicate, if◌then◌else◌,
}
use opssl.Cbb.{Builder, Store, blank, malloc, cbb_init, cbb_init_fixed}
use opssl.Cbb.Memory.{Ready, mem, ==-self, put_self}

-- A chain of one.
alone :
    (f : Builder → ℕ) (st : Store) (x p : ℕ)
    → mem x (p ∷ []) ≡ true
    → f (st.builder x) ≡ f (st.builder p)
alone f st x p h = ap (λ y. f (st.builder y)) {x = x} {y = p} (ground arith)

-- A store behind opssl_cbb_init.
pub init-Ready : (st : Store) (p cap : ℕ) → Ready (cbb_init st p cap) p [] []
unfolding cbb_init
init-Ready st p cap =
    let size = if cap == 0 then 256 else cap in
    let b = record blank { buf = st.next; cap = size } in
    let at : (cbb_init st p cap).builder p ≡ b = put_self (malloc st size) p b in
    record {
      chain = ap (λ y. y.is_child) at;
      buf = λ x k. alone (λ y. y.buf) (cbb_init st p cap) x p k;
      cap = λ x k. alone (λ y. y.cap) (cbb_init st p cap) x p k;
      size = rw (at, ==-self st.next) (length-replicate {A = ℕ} size 0);
      used = rw at (omega arith);
      fine = ap (λ y. y.error) at;
      settled = ap (λ y. y.child) at;
      fits = rw at (omega arith);
      count = rw at refl;
      written = rw at refl;
    }

pub init_fixed-Ready :
    (st : Store) (p m len : ℕ)
    → length (st.memory m) ≡ len
    → m < st.next
    → Ready (cbb_init_fixed st p m len) p [] []
unfolding cbb_init_fixed
init_fixed-Ready st p m len sized used =
    let b = record blank { buf = m; cap = len } in
    let at : (cbb_init_fixed st p m len).builder p ≡ b = put_self st p b in
    record {
      chain = ap (λ y. y.is_child) at;
      buf = λ x k. alone (λ y. y.buf) (cbb_init_fixed st p m len) x p k;
      cap = λ x k. alone (λ y. y.cap) (cbb_init_fixed st p m len) x p k;
      size = rw at sized;
      used = rw at used;
      fine = ap (λ y. y.error) at;
      settled = ap (λ y. y.child) at;
      fits = rw at (omega arith);
      count = rw at refl;
      written = rw at refl;
    }
