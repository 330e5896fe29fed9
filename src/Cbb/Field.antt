-- ===== src/Cbb/Field.antt =====
-- The functions that open a length-prefixed field: the parent and the child behind the call.
use opssl.Base.{
  ℕ, ◌+◌, ◌^◌, ◌≤◌, ◌<◌, ◌≡◌, ◌≢◌, ◌==◌, true, false, Option, some, List, ◌∷◌, ◌++◌, refl, sym, ap,
  ◌∙◌, Bool-cases, inl, inr, length, take, replicate, arith, length-append, length-replicate,
}
use opssl.Cbb.{Builder, Store, put, write, blank, appended, opened, add_length_prefixed}
use opssl.Cbb.Memory.{
  mem, kept, Chain, Frame, Ready, put_self, put_ne, put_same_field, Chain-same, below, Frame-trans,
}
use opssl.Cbb.Append.{appended-Ready, appended-Frame, Settles, grow_lem}

-- The child's record.
abbrev child_of : Store → ℕ → ℕ → Builder
child_of st p k =
    let b = st.builder p in
    record blank {
      buf = b.buf;
      len = b.len + k;
      cap = b.cap;
      offset = b.len;
      parent = some p;
      prefix_len = k;
      is_child = true;
    }

opened_child : (st : Store) (p n k : ℕ) → p < n → (opened st p n k).builder n ≡ child_of st p k
opened_child st p n k h =
    let ne : n ≢ p = λ e. absurd (omega arith) in
    let st1 = appended st p (replicate k 0) in
    let st2 = put st1 n (child_of st p k) in
    put_ne st2 p (record (st2.builder p) { child = some n }) n ne ∙ put_self st1 n (child_of st p k)

-- A field of the builders that were there, but for `child` and the length.
opened_same :
    {A : Type 0} (f : Builder → A)
    → ((b : Builder) (c : Option ℕ) → f (record b { child = c }) ≡ f b)
    → (st : Store) (p n k x : ℕ) → x < n
    → f ((opened st p n k).builder x) ≡ f ((appended st p (replicate k 0)).builder x)
opened_same f same st p n k x h =
    let ne : x ≢ n = λ e. absurd (omega arith) in
    let st1 = appended st p (replicate k 0) in
    let st2 = put st1 n (child_of st p k) in
    put_same_field f st2 p (record (st2.builder p) { child = some n })
      (same (st2.builder p) (some n)) x
    ∙ ap f (put_ne st1 n (child_of st p k) x ne)

opened_other :
    (st : Store) (p n k x : ℕ)
    → x < p
    → p < n
    → ((opened st p n k).builder x).child ≡ ((appended st p (replicate k 0)).builder x).child
opened_other st p n k x h below =
    let ne : x ≢ n = λ e. absurd (omega arith) in
    let other : x ≢ p = λ e. absurd (omega arith) in
    let st1 = appended st p (replicate k 0) in
    let st2 = put st1 n (child_of st p k) in
    ap (λ b. b.child)
      (put_ne st2 p (record (st2.builder p) { child = some n }) x other
        ∙ put_ne st1 n (child_of st p k) x ne)

-- What holds of the ancestors and of the child holds of the chain.
member :
    (st : Store) (f : Builder → ℕ) (n p : ℕ) (qs : List ℕ) (x : ℕ) {m : ℕ}
    → f (st.builder n) ≡ m
    → p < n
    → Chain st p qs
    → ((y : ℕ) → y ≤ p → mem y (p ∷ qs) ≡ true → f (st.builder y) ≡ m)
    → mem x (n ∷ p ∷ qs) ≡ true
    → f (st.builder x) ≡ f (st.builder n)
member st f n p qs x self above chain rest inside = elim (Bool-cases (x == n)) [
  | inl e ↦ ap (λ y. f (st.builder y)) {x = x} {y = n} (ground arith)
  | inr e ↦
      let deep : mem x (p ∷ qs) ≡ true = rw e at inside in
      let low : x ≤ p = elim (Bool-cases (x == p)) [
        | inl same ↦ ground arith
        | inr other ↦
            let far : mem x qs ≡ true = rw other at deep in
            let k = below st p qs x chain far in omega arith
      ] in
      rest x low deep ∙ sym self
]

-- A field that is open: the child is ready behind the zeros, and the parent points to it.
pub record Opens (st : Store) (p : ℕ) (qs text : List ℕ) (n k : ℕ) (st' : Store) : Type 0 where
  pub ready : Ready st' n (p ∷ qs) (text ++ replicate k 0)
  pub frame : Frame p st st'
  pub fine : (st'.builder p).error ≡ false
  pub pending : (st'.builder p).child ≡ some n
  pub offset : (st'.builder n).offset ≡ length text
  pub prefix_len : (st'.builder n).prefix_len ≡ k

opened-Opens :
    (st : Store) (p : ℕ) (qs text : List ℕ) (n k : ℕ)
    → Ready st p qs text
    → (st.builder p).len + k ≤ (st.builder p).cap
    → p < n
    → Opens st p qs text n k (opened st p n k)
opened-Opens st p qs text n k r h above =
    let st1 = appended st p (replicate k 0) in
    let st2 = opened st p n k in
    let zeros : length (replicate {A = ℕ} k 0) ≡ k = length-replicate {A = ℕ} k 0 in
    let r1 : Ready st1 p qs (text ++ replicate k 0) =
      appended-Ready st p qs text (replicate k 0) r (omega arith) in
    let frame1 = appended-Frame st p (replicate k 0) in
    let at : st2.builder n ≡ child_of st p k = opened_child st p n k above in
    let self : st1.builder p
        ≡ record (st.builder p) { len = (st.builder p).len + length (replicate {A = ℕ} k 0) } =
      put_self (write st (st.builder p).buf (st.builder p).len (replicate k 0)) p
        (record (st.builder p) { len = (st.builder p).len + length (replicate {A = ℕ} k 0) }) in
    let frame2 : Frame p st st2 = record {
      keeps = λ x below_p.
          opened_same kept (λ b c. refl) st p n k x (omega arith) ∙ frame1.keeps x below_p;
      children = λ x below_p. opened_other st p n k x below_p above ∙ frame1.children x below_p;
    } in
    let chain2 : Chain st2 p qs = Chain-same st st2 p qs frame2.keeps r.chain in
    let buf1 : (st1.builder p).buf ≡ (st.builder p).buf = ap (λ b. b.buf) self in
    let cap1 : (st1.builder p).cap ≡ (st.builder p).cap = ap (λ b. b.cap) self in
    let len1 : (st1.builder p).len ≡ (st.builder p).len + k =
      ap (λ b. b.len) self ∙ ap (λ j. (st.builder p).len + j) zeros in
    record {
      ready = record {
        chain = (above, ap (λ b. b.is_child) at, ap (λ b. b.parent) at, chain2);
        buf = λ x inside.
            member st2 (λ b. b.buf) n p qs x (ap (λ b. b.buf) at) above chain2
              (λ y low deep.
                opened_same (λ b. b.buf) (λ b c. refl) st p n k y (omega arith)
                ∙ r1.buf y deep
                ∙ buf1)
              inside;
        cap = λ x inside.
            member st2 (λ b. b.cap) n p qs x (ap (λ b. b.cap) at) above chain2
              (λ y low deep.
                opened_same (λ b. b.cap) (λ b c. refl) st p n k y (omega arith)
                ∙ r1.cap y deep
                ∙ cap1)
              inside;
        size = rw at (ap (λ m. length (st1.memory m)) (sym buf1) ∙ r1.size ∙ cap1);
        used = rw at (r.used);
        fine = ap (λ b. b.error) at;
        settled = ap (λ b. b.child) at;
        fits = rw at h;
        count = rw at (omega (arith, length-append text (replicate k 0), r.count));
        written = rw at ((λ i. take (sym len1 i) (st1.memory (sym buf1 i))) ∙ r1.written);
      };
      frame = frame2;
      fine = ap (λ b. b.error) (frame2.keeps p (omega arith)) ∙ r.fine;
      pending =
          ap (λ b. b.child)
            (put_self (put st1 n (child_of st p k)) p
              (record ((put st1 n (child_of st p k)).builder p) { child = some n }));
      offset = ap (λ b. b.offset) at ∙ sym r.count;
      prefix_len = ap (λ b. b.prefix_len) at;
    }

pub add_length_prefixed_lem :
    (k fuel : ℕ) (st : Store) (p n : ℕ) (qs text : List ℕ) (depth : ℕ)
    → Settles st p qs text depth
    → p < n
    → length text + k ≤ 2 ^ 63
    → length qs < fuel
    → depth ≤ fuel
    → (st' : Store) × (add_length_prefixed k fuel st p n ≡ (st', true)) × Opens st p qs text n k st'
unfolding add_length_prefixed
add_length_prefixed_lem k fuel st p n qs text depth s above total deep enough =
    let (mid, step, grows) = grow_lem fuel st p qs text depth k s total deep enough in
    let opens = opened-Opens mid p qs text n k grows.ready grows.room above in
    (
      opened mid p n k,
      rw step refl,
      record {
        ready = opens.ready;
        frame = Frame-trans p st mid (opened mid p n k) grows.frame opens.frame;
        fine = opens.fine;
        pending = opens.pending;
        offset = opens.offset;
        prefix_len = opens.prefix_len;
      },
    )
