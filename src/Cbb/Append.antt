-- ===== src/Cbb/Append.antt =====
-- The calls that append: opssl_cbb_add_bytes and the integers, on a builder whose pending children
-- settle.
use opssl.Base.{
  ℕ, ◌+◌, ◌%◌, ◌^◌, ◌≤◌, ◌<◌, ◌≡◌, true, false, List, [], ◌++◌, refl, sym, ap, ◌∙◌, length, take,
  arith, length-append, ltb, leb,
}
use opssl.Bytes.{store}
use opssl.Bytes.Store.{length-store}
use opssl.Record.Buffer.{take-store_behind}
use opssl.Cbb.{Builder, Store, write, appended, grow, settle_with, flush, add_bytes}
use opssl.Cbb.{grow_self, and_then}
use opssl.Cbb.Memory.{
  kept, Frame, Ready, ==-self, put_self, put_same_field, Chain-same, Frame-self, Frame-trans,
}
use opssl.Cbb.Room.{Grows, grow_self_lem}

appended_same :
    {A : Type 0} (f : Builder → A)
    → ((b : Builder) (n : ℕ) → f (record b { len = n }) ≡ f b)
    → (st : Store) (p : ℕ) (bytes : List ℕ) (x : ℕ)
    → f ((appended st p bytes).builder x) ≡ f (st.builder x)
appended_same f same st p bytes x =
    let b = st.builder p in
    put_same_field f (write st b.buf b.len bytes) p (record b { len = b.len + length bytes })
      (same b (b.len + length bytes)) x

appended_memory :
    (st : Store) (p : ℕ) (bytes : List ℕ)
    → (appended st p bytes).memory (st.builder p).buf
      ≡ store (st.memory (st.builder p).buf) (st.builder p).len bytes
appended_memory st p bytes = rw (==-self (st.builder p).buf) refl

pub appended-Frame : (st : Store) (p : ℕ) (bytes : List ℕ) → Frame p st (appended st p bytes)
appended-Frame st p bytes = record {
  keeps = λ x h. appended_same kept (λ b n. refl) st p bytes x;
  children = λ x h. appended_same (λ b. b.child) (λ b n. refl) st p bytes x;
}

pub appended-Ready :
    (st : Store) (p : ℕ) (qs text bytes : List ℕ)
    → Ready st p qs text
    → (st.builder p).len + length bytes ≤ (st.builder p).cap
    → Ready (appended st p bytes) p qs (text ++ bytes)
appended-Ready st p qs text bytes r h =
    let st1 = appended st p bytes in
    let b = st.builder p in
    let at : st1.builder p ≡ record b { len = b.len + length bytes } =
      put_self (write st b.buf b.len bytes) p (record b { len = b.len + length bytes }) in
    let buf : (x : ℕ) → (st1.builder x).buf ≡ (st.builder x).buf =
      appended_same (λ y. y.buf) (λ y n. refl) st p bytes in
    let cap : (x : ℕ) → (st1.builder x).cap ≡ (st.builder x).cap =
      appended_same (λ y. y.cap) (λ y n. refl) st p bytes in
    let block : st1.memory b.buf ≡ store (st.memory b.buf) b.len bytes =
      appended_memory st p bytes in
    let known : take (length text) (st.memory b.buf) ≡ text =
      ap (λ n. take n (st.memory b.buf)) r.count ∙ r.written in
    let text1 =
      take-store_behind (st.memory b.buf) text bytes known (omega (arith, r.size, r.count)) in
    record {
      chain = Chain-same st st1 p qs (appended-Frame st p bytes).keeps r.chain;
      buf = λ x k. buf x ∙ r.buf x k ∙ sym (buf p);
      cap = λ x k. cap x ∙ r.cap x k ∙ sym (cap p);
      size = rw (at, block) (length-store bytes (st.memory b.buf) b.len ∙ r.size);
      used = rw at (r.used);
      fine = rw at (r.fine);
      settled = rw at (r.settled);
      fits = rw at h;
      count = rw at (omega (arith, length-append text bytes, r.count));
      written =
          rw (at, block)
            (ap (λ n. take (n + length bytes) (store (st.memory b.buf) n bytes)) (sym r.count)
              ∙ text1);
    }

-- A builder whose pending children write their lengths, with `depth` of them one below the other,
-- to leave `text`.
pub record Settles (st : Store) (p : ℕ) (qs text : List ℕ) (depth : ℕ) : Type 0 where
  pub now : Store
  pub settles :
      (fuel : ℕ) → depth ≤ fuel → settle_with (flush fuel) st p (st.builder p).child ≡ (now, true)
  pub ready : Ready now p qs text
  pub frame : Frame p st now

pub Ready-Settles :
    (st : Store) (p : ℕ) (qs text : List ℕ) (depth : ℕ)
    → Ready st p qs text
    → Settles st p qs text depth
Ready-Settles st p qs text depth r = record {
  now = st;
  settles = λ fuel h. rw (r.settled) refl;
  ready = r;
  frame = Frame-self p st;
}

pub grow_lem :
    (fuel : ℕ) (st : Store) (p : ℕ) (qs text : List ℕ) (depth need : ℕ)
    → Settles st p qs text depth
    → length text + need ≤ 2 ^ 63
    → length qs < fuel
    → depth ≤ fuel
    → (st' : Store) × (grow fuel st p need ≡ (st', true)) × Grows st st' p qs text need
unfolding grow
grow_lem fuel st p qs text depth need s total deep enough =
    let fine : (st.builder p).error ≡ false =
      ap (λ b. b.error) (sym (s.frame.keeps p (omega arith))) ∙ s.ready.fine in
    let (st', step, grows) = grow_self_lem fuel s.now p qs text need s.ready total deep in
    (
      st',
      rw (fine, s.settles fuel enough) step,
      record {
        ready = grows.ready;
        frame = Frame-trans p st s.now st' s.frame grows.frame;
        room = grows.room;
      },
    )

pub add_bytes_lem :
    (fuel : ℕ) (st : Store) (p : ℕ) (qs text : List ℕ) (depth : ℕ) (bytes : List ℕ)
    → Settles st p qs text depth
    → length text + length bytes ≤ 2 ^ 63
    → length qs < fuel
    → depth ≤ fuel
    → (st' : Store) × (add_bytes fuel st p bytes ≡ (st', true))
      × Ready st' p qs (text ++ bytes)
      × Frame p st st'
unfolding add_bytes
add_bytes_lem fuel st p qs text depth bytes s total deep enough =
    let (mid, step, grows) = grow_lem fuel st p qs text depth (length bytes) s total deep enough in
    (
      appended mid p bytes,
      rw step refl,
      appended-Ready mid p qs text bytes grows.ready grows.room,
      Frame-trans p st mid (appended mid p bytes) grows.frame (appended-Frame mid p bytes),
    )

-- Where there is room, an append writes into the block that is there.
pub add_bytes_fits :
    (fuel : ℕ) (st : Store) (p : ℕ) (text bytes : List ℕ)
    → Ready st p [] text
    → length text + length bytes ≤ (st.builder p).cap
    → (st.builder p).cap < 2 ^ 64
    → add_bytes fuel st p bytes ≡ (appended st p bytes, true)
unfolding add_bytes grow grow_self
add_bytes_fits fuel st p text bytes r room word =
    let b = st.builder p in
    let sum : (b.len + length bytes) % 2 ^ 64 ≡ b.len + length bytes = omega (arith, r.count) in
    let up : ltb (b.len + length bytes) b.len ≡ false = ground arith in
    let inside : b.len + length bytes ≤ b.cap = omega (arith, r.count) in
    let fits : leb (b.len + length bytes) b.cap ≡ true = ground arith in
    let stays : grow fuel st p (length bytes) ≡ (st, true) =
      rw (r.fine, r.settled, sum, up, fits) refl in
    ap (λ g. and_then g (λ s. (appended s p bytes, true))) stays

pub appended_shape :
    (st : Store) (p : ℕ) (bytes : List ℕ)
    → ((appended st p bytes).builder p).buf ≡ (st.builder p).buf
      × ((appended st p bytes).builder p).cap ≡ (st.builder p).cap
appended_shape st p bytes = (
  appended_same (λ y. y.buf) (λ y n. refl) st p bytes p,
  appended_same (λ y. y.cap) (λ y n. refl) st p bytes p,
)
