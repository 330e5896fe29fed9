-- ===== src/Cbb/Close.antt =====
-- opssl_cbb_flush of a child, and its parent behind the call.
use mathlib.Core.Path.{fun_ext}
use opssl.Base.{
  ℕ, zero, suc, ◌+◌, ◌-◌, ◌≤◌, ◌≡◌, true, false, not, none, some, List, ◌∷◌, ◌++◌, refl, sym, ap,
  ◌∙◌, if◌then◌else◌, length, replicate, ltb, arith, length-append, length-replicate, le→ltb,
}
use opssl.Cbb.{
  Builder, Store, put, prefix_bytes, prefix_limit, flush_into, flush_self, flush, settle_with,
}
use opssl.Cbb.Memory.{Ready, put_same_field, Frame-trans, Frame-weaken}
use opssl.Cbb.Append.{Settles}
use opssl.Cbb.Flush.{limit, prefix_limit_lem, closed, closed-Frame, closed-Ready}

into_lem :
    (st : Store) (n p : ℕ)
    → ltb (st.builder n).len ((st.builder n).offset + (st.builder n).prefix_len) ≡ false
    → prefix_limit
        (st.builder n).prefix_len
        ((st.builder n).len - ((st.builder n).offset + (st.builder n).prefix_len))
      ≡ false
    → flush_into st n (some p) ≡ (
      closed st n p (st.builder n).offset (
          prefix_bytes
            (st.builder n).prefix_len
            ((st.builder n).len - ((st.builder n).offset + (st.builder n).prefix_len))),
      true,
    )
into_lem st n p enough fine = rw (enough, fine) refl

flush_self_lem :
    (st : Store) (n p : ℕ) (qs text inner : List ℕ) (k : ℕ)
    → Ready st n (p ∷ qs) ((text ++ replicate k 0) ++ inner)
    → (st.builder n).offset ≡ length text
    → (st.builder n).prefix_len ≡ k
    → 1 ≤ k
    → k ≤ 3
    → length inner ≤ limit k
    → flush_self st n ≡ (closed st n p (length text) (prefix_bytes k (length inner)), true)
unfolding flush_self
flush_self_lem st n p qs text inner k r offset prefix low high small =
    let (above, child, parent, chain) = r.chain in
    let total : (st.builder n).len ≡ length text + k + length inner = omega (
      arith,
      length-append (text ++ replicate k 0) inner,
      length-append text (replicate k 0),
      length-replicate {A = ℕ} k 0,
      r.count,
    ) in
    let place : (st.builder n).offset + (st.builder n).prefix_len ≡ length text + k =
      (λ i. offset i + prefix i) in
    let rest : (st.builder n).len - ((st.builder n).offset + (st.builder n).prefix_len)
        ≡ length inner =
      omega (arith, place, total) in
    let enough =
      le→ltb (st.builder n).len ((st.builder n).offset + (st.builder n).prefix_len)
        (omega (arith, place, total)) in
    let (fine, _) = prefix_limit_lem k (length inner) low high small in
    let start : flush_self st n ≡ flush_into st n (some p) =
      λ i. if not (child i) then (st, true) else flush_into st n (parent i) in
    (start
      ∙ into_lem st n p enough ((λ i. prefix_limit (prefix i) (rest i)) ∙ fine)
      ∙ (λ i. (closed st n p (offset i) (prefix_bytes (prefix i) (rest i)), true)))

-- An update that changes nothing.
put-id : (st : Store) (p : ℕ) (b : Builder) → b ≡ st.builder p → put st p b ≡ st
put-id st p b e =
    let same : (x : ℕ) → (put st p b).builder x ≡ st.builder x = put_same_field (λ y. y) st p b e in
    λ i. record st { builder = fun_ext same i }

settle_child :
    (st : Store) (n p depth : ℕ) (mid end : Store)
    → (st.builder p).child ≡ some n
    → ((fuel : ℕ) → depth ≤ fuel → settle_with (flush fuel) st n (st.builder n).child ≡ (mid, true))
    → flush_self mid n ≡ (end, true)
    → (end.builder p).child ≡ none
    → (fuel : ℕ) → suc depth ≤ fuel
    → settle_with (flush fuel) st p (st.builder p).child ≡ (end, true)
unfolding flush
settle_child st n p depth mid end pending settles flushed done zero h = absurd (omega arith)
settle_child st n p depth mid end pending settles flushed done (suc fuel) h =
    let same : put end p (record (end.builder p) { child = none }) ≡ end =
      put-id end p (record (end.builder p) { child = none })
        (λ i. record (end.builder p) { child = sym done i }) in
    rw (pending, settles fuel (omega arith), flushed) (λ i. (same i, true))

-- A field whose child settles: the parent settles with the field written.
pub close_field :
    (st : Store) (n p : ℕ) (qs text inner : List ℕ) (k depth : ℕ)
    → Settles st n (p ∷ qs) ((text ++ replicate k 0) ++ inner) depth
    → (st.builder p).child ≡ some n
    → (st.builder p).error ≡ false
    → (st.builder n).offset ≡ length text
    → (st.builder n).prefix_len ≡ k
    → 1 ≤ k
    → k ≤ 3
    → length inner ≤ limit k
    → Settles st p qs (text ++ (prefix_bytes k (length inner) ++ inner)) (suc depth)
close_field st n p qs text inner k depth s pending fine offset prefix low high small =
    let bytes = prefix_bytes k (length inner) in
    let (_, sized) = prefix_limit_lem k (length inner) low high small in
    let (above, child, parent, chain) = s.ready.chain in
    let kept_n = s.frame.keeps n (omega arith) in
    let kept_p = s.frame.keeps p (omega arith) in
    let end = closed s.now n p (length text) bytes in
    let flushed : flush_self s.now n ≡ (end, true) =
      flush_self_lem s.now n p qs text inner k s.ready (ap (λ b. b.offset) kept_n ∙ offset)
        (ap (λ b. b.prefix_len) kept_n ∙ prefix) low high small in
    let ready =
      closed-Ready s.now n p qs text (replicate k 0) inner bytes s.ready
        (ap (λ b. b.error) kept_p ∙ fine) (length-replicate {A = ℕ} k 0 ∙ sym sized) in
    record {
      now = end;
      settles = settle_child st n p depth s.now end pending s.settles flushed ready.settled;
      ready = ready;
      frame =
          Frame-trans p st s.now end (Frame-weaken n p st s.now (omega arith) s.frame)
            (closed-Frame s.now n p (length text) bytes above);
    }
