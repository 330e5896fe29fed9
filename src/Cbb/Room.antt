-- ===== src/Cbb/Room.antt =====
-- cbb_grow: the text, and the room behind it.
use opssl.Base.{
  ℕ, ◌+◌, ◌%◌, ◌^◌, ◌≤◌, ◌<◌, ◌≡◌, true, false, some, List, [], ◌∷◌, refl, sym, ap, ◌∙◌,
  if◌then◌else◌, Bool-cases, inl, inr, length, ltb, leb,
}
use native.Mathlib.Omega.{arith}
use opssl.Cbb.{Builder, Store, resized, root_of, first_cap, grow_self, grow_root}
use opssl.Cbb.Memory.{mem, kept, Chain, Frame, Ready, ==-self, Chain-same, Frame-self}
use opssl.Cbb.Grow.{
  doubled_enough, front, last, or-true, mem-last, root_of_lem, grown, grown-Chain, length-resized,
  take-resized, grown_fields,
}

grown_kept :
    {A : Type 0} (f : Builder → A)
    → ((b : Builder) (buf cap : ℕ) → f (record b { buf = buf; cap = cap }) ≡ f b)
    → (st : Store) (p : ℕ) (qs : List ℕ) (c x : ℕ)
    → f ((grown st p qs c).builder x) ≡ f (st.builder x)
unfolding grown
grown_kept f same st p qs c x = elim (Bool-cases (mem x (p ∷ qs))) [
  | inl e ↦ rw e (same (st.builder x) st.next c)
  | inr e ↦ rw e refl
]

grown-Frame : (st : Store) (p : ℕ) (qs : List ℕ) (c : ℕ) → Frame p st (grown st p qs c)
grown-Frame st p qs c = record {
  keeps = λ x h. grown_kept kept (λ b m n. refl) st p qs c x;
  children = λ x h. grown_kept (λ b. b.child) (λ b m n. refl) st p qs c x;
}

grown-Ready :
    (st : Store) (p : ℕ) (qs text : List ℕ) (c : ℕ)
    → Ready st p qs text
    → (st.builder p).cap ≤ c
    → Ready (grown st p qs c) p qs text
unfolding grown
grown-Ready st p qs text c r h =
    let first : mem p (p ∷ qs) ≡ true = rw (==-self p) refl in
    let at = grown_fields st p qs c p first in
    let block : (grown st p qs c).memory st.next ≡ resized c (st.memory (st.builder p).buf) =
      rw (==-self st.next) refl in
    let room = r.fits in
    record {
      chain = Chain-same st (grown st p qs c) p qs (grown-Frame st p qs c).keeps r.chain;
      buf = λ x k. ap (λ b. b.buf) (grown_fields st p qs c x k) ∙ ap (λ b. b.buf) (sym at);
      cap = λ x k. ap (λ b. b.cap) (grown_fields st p qs c x k) ∙ ap (λ b. b.cap) (sym at);
      size = rw (at, block) (length-resized c (st.memory (st.builder p).buf));
      used = rw at (omega arith);
      fine = rw at (r.fine);
      settled = rw at (r.settled);
      fits = rw at (omega arith);
      count = rw at (r.count);
      written =
          rw (at, block)
            (take-resized (st.builder p).len c (st.memory (st.builder p).buf) (omega arith)
                (omega (arith, r.size, r.fits))
              ∙ r.written);
    }

-- What a call that makes room leaves: the same text, with the room.
pub record Grows (st st' : Store) (p : ℕ) (qs text : List ℕ) (need : ℕ) : Type 0 where
  pub ready : Ready st' p qs text
  pub frame : Frame p st st'
  pub room : (st'.builder p).len + need ≤ (st'.builder p).cap

grow_root_lem :
    (fuel : ℕ) (st : Store) (p : ℕ) (qs text : List ℕ) (need : ℕ)
    → Ready st p qs text
    → length text + need ≤ 2 ^ 63
    → length qs < fuel
    → (st.builder p).cap < (st.builder p).len + need
    → (st' : Store) × (grow_root fuel st p ((st.builder p).len + need) (some (last p qs))
        ≡ (st', true))
      × Grows st st' p qs text need
grow_root_lem fuel st p qs text need r total deep short =
    let root = last p qs in
    let inside : mem root (p ∷ qs) ≡ true =
      rw (mem-last root p qs, ==-self root) (or-true (mem root (front p qs))) in
    let required = (st.builder p).len + need in
    let size = first_cap (st.builder root).cap in
    let capped : (st.builder root).cap ≡ (st.builder p).cap = r.cap root inside in
    let base : 1 ≤ size = ground arith in
    let (c, found, enough) =
      doubled_enough 64 size required base (omega (arith, r.count)) (omega (arith, r.count)) in
    let more : (st.builder p).cap ≤ c = omega arith in
    let first : mem p (p ∷ qs) ≡ true = rw (==-self p) refl in
    let step : grow_root fuel st p required (some root) ≡ (grown st p qs c, true) =
      rw (found, r.buf root inside, grown-Chain fuel st p qs c r.chain deep) refl in
    (
      grown st p qs c,
      step,
      record {
        ready = grown-Ready st p qs text c r more;
        frame = grown-Frame st p qs c;
        room = rw (grown_fields st p qs c p first) enough;
      },
    )

-- The root that the call finds.
grow_walk :
    (fuel : ℕ) (st : Store) (p : ℕ) (qs : List ℕ) (need : ℕ)
    → Chain st p qs
    → length qs < fuel
    → (if (st.builder p).is_child
        then grow_root fuel st p
            ((st.builder p).len + need)
            (root_of fuel st p (st.builder p).parent)
        else grow_root fuel st p ((st.builder p).len + need) (some p))
      ≡ grow_root fuel st p ((st.builder p).len + need) (some (last p qs))
grow_walk fuel st p [] need chain deep = rw chain refl
grow_walk fuel st p (q ∷ qs) need (lower, child, parent, rest) deep =
    rw (child, parent, root_of_lem fuel st p q qs rest (omega arith)) refl

pub grow_self_lem :
    (fuel : ℕ) (st : Store) (p : ℕ) (qs text : List ℕ) (need : ℕ)
    → Ready st p qs text
    → length text + need ≤ 2 ^ 63
    → length qs < fuel
    → (st' : Store) × (grow_self fuel st p need ≡ (st', true)) × Grows st st' p qs text need
unfolding grow_self
grow_self_lem fuel st p qs text need r total deep =
    let b = st.builder p in
    let sum : (b.len + need) % 2 ^ 64 ≡ b.len + need = omega (arith, r.count) in
    let up : ltb (b.len + need) b.len ≡ false = ground arith in
    elim (Bool-cases (leb (b.len + need) b.cap)) [
      | inl e ↦ (
        st,
        rw (sum, up, e) refl,
        record { ready = r; frame = Frame-self p st; room = ground arith },
      )
      | inr e ↦
          let short : b.cap < b.len + need = ground arith in
          let (st', step, grows) = grow_root_lem fuel st p qs text need r total deep short in
          (st', rw (sum, up, e) (grow_walk fuel st p qs need r.chain deep ∙ step), grows)
    ]
