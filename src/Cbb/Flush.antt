-- ===== src/Cbb/Flush.antt =====
-- opssl_cbb_flush: the length goes in front of what the child wrote, and the parent goes on behind it.
use opssl.Base.{
  ℕ, zero, suc, ◌+◌, ◌-◌, ◌≤◌, ◌<◌, ◌≡◌, ◌≢◌, ◌==◌, true, false, none, List, ◌∷◌, ◌++◌, refl, sym,
  ap, ◌∙◌, length, take, drop, arith, length-append, append_assoc, drop-drop, take-append_split,
  take-append_long, le→ltb,
}
use opssl.Bytes.{store, put_be16, put_be24}
use opssl.Bytes.Store.{length-store, take-store_before, drop-store_at}
use opssl.Record.Buffer.{two_parts}
use opssl.Cbb.{Builder, Store, put, write, prefix_bytes, prefix_limit, detach}
use opssl.Cbb.Memory.{
  mem, kept, Chain, Frame, Ready, ==-self, ==-ne, put_self, put_ne, put_same_field, Chain-same,
  below,
}

-- The bytes in the middle of a known beginning, replaced.
patched :
    (buf text old inner bytes : List ℕ)
    → length old ≡ length bytes
    → take (length text + (length bytes + length inner)) buf ≡ text ++ (old ++ inner)
    → length text + (length bytes + length inner) ≤ length buf
    → take (length text + (length bytes + length inner)) (store buf (length text) bytes)
      ≡ text ++ (bytes ++ inner)
patched buf text old inner bytes same e h =
    let n = length text in
    let k = length bytes in
    let m = length inner in
    let after = store buf n bytes in
    let (left, right) = two_parts (k + m) buf text (old ++ inner) e in
    let right1 : take (length old + m) (drop n buf) ≡ old ++ inner =
      ap (λ j. take (j + m) (drop n buf)) same ∙ right in
    let (zeros, tail) = two_parts m (drop n buf) old inner right1 in
    let tail1 : take m (drop (n + k) buf) ≡ inner =
      ap (λ l. take m l) (sym (drop-drop k n buf))
      ∙ ap (λ j. take m (drop j (drop n buf))) (sym same)
      ∙ tail in
    let rest = drop (n + k) buf in
    let behind : take (k + m) (bytes ++ rest) ≡ bytes ++ take m rest =
      take-append_long (k + m) bytes rest (omega arith)
      ∙ ap (λ j. bytes ++ take j rest) {x = k + m - k} {y = m} (omega arith) in
    take-append_split n (k + m) after
    ∙ (λ i.
        (take-store_before buf bytes n (omega arith) ∙ left) i
        ++ take (k + m) (drop-store_at buf bytes n (omega arith) i))
    ∙ ap (λ l. text ++ l) (behind ∙ ap (λ l. bytes ++ l) tail1)

-- The largest length that a field holds.
abbrev pub limit : ℕ → ℕ
limit (suc zero) = 0xFF
limit (suc (suc zero)) = 0xFFFF
limit (suc (suc (suc zero))) = 0xFFFFFF
limit _ = 0

pub prefix_limit_lem :
    (k n : ℕ)
    → 1 ≤ k
    → k ≤ 3
    → n ≤ limit k
    → (prefix_limit k n ≡ false) × (length (prefix_bytes k n) ≡ k)
unfolding put_be16 put_be24
prefix_limit_lem zero n low high h = absurd (omega arith)
prefix_limit_lem (suc zero) n low high h = (le→ltb 0xFF n h, refl)
prefix_limit_lem (suc (suc zero)) n low high h = (le→ltb 0xFFFF n h, refl)
prefix_limit_lem (suc (suc (suc zero))) n low high h = (le→ltb 0xFFFFFF n h, refl)
prefix_limit_lem (suc (suc (suc (suc k)))) n low high h = absurd (omega arith)

-- The store behind a flush.
abbrev pub closed : Store → ℕ → ℕ → ℕ → List ℕ → Store
closed st n p offset bytes = detach (write st (st.builder n).buf offset bytes) n p

closed_parent :
    (st : Store) (n p offset : ℕ) (bytes : List ℕ)
    → p < n
    → (closed st n p offset bytes).builder p
      ≡ record (st.builder p) { len = (st.builder n).len; child = none }
closed_parent st n p offset bytes h =
    let ne : p ≢ n = λ e. absurd (omega arith) in
    let st0 = write st (st.builder n).buf offset bytes in
    let st1 = put st0 p (record (st.builder p) { len = (st.builder n).len; child = none }) in
    put_ne st1 n (record (st1.builder n) { is_child = false; parent = none }) p ne
    ∙ put_self st0 p (record (st.builder p) { len = (st.builder n).len; child = none })

closed_same :
    {A : Type 0} (f : Builder → A)
    → ((b : Builder) (l : ℕ) → f (record b { len = l; child = none }) ≡ f b)
    → (st : Store) (n p offset : ℕ) (bytes : List ℕ) (x : ℕ) → x < n
    → f ((closed st n p offset bytes).builder x) ≡ f (st.builder x)
closed_same f same st n p offset bytes x h =
    let ne : x ≢ n = λ e. absurd (omega arith) in
    let st0 = write st (st.builder n).buf offset bytes in
    let b = record (st.builder p) { len = (st.builder n).len; child = none } in
    let st1 = put st0 p b in
    ap f (put_ne st1 n (record (st1.builder n) { is_child = false; parent = none }) x ne)
    ∙ put_same_field f st0 p b (same (st.builder p) (st.builder n).len) x

pub closed-Frame :
    (st : Store) (n p offset : ℕ) (bytes : List ℕ) → p < n → Frame p st (closed st n p offset bytes)
closed-Frame st n p offset bytes h = record {
  keeps = λ x k. closed_same kept (λ b l. refl) st n p offset bytes x (omega arith);
  children = λ x k.
      let ne : x ≢ n = λ e. absurd (omega arith) in
      let other : x ≢ p = λ e. absurd (omega arith) in
      let st0 = write st (st.builder n).buf offset bytes in
      let b = record (st.builder p) { len = (st.builder n).len; child = none } in
      let st1 = put st0 p b in
      ap (λ y. y.child)
        (put_ne st1 n (record (st1.builder n) { is_child = false; parent = none }) x ne
          ∙ put_ne st0 p b x other);
}

-- The ancestors share the block.
shared :
    (f : Builder → ℕ)
    → ((b : Builder) (l : ℕ) → f (record b { len = l; child = none }) ≡ f b)
    → (st : Store) (n p : ℕ) (qs : List ℕ) (offset : ℕ) (bytes : List ℕ) (x : ℕ)
    → Chain st n (p ∷ qs)
    → ((y : ℕ) → mem y (n ∷ p ∷ qs) ≡ true → f (st.builder y) ≡ f (st.builder n))
    → mem x (p ∷ qs) ≡ true
    → f ((closed st n p offset bytes).builder x) ≡ f (st.builder n)
shared f same st n p qs offset bytes x chain all inside =
    let low : x < n = below st n (p ∷ qs) x chain inside in
    let other : (x == n) ≡ false = ==-ne x n (λ e. absurd (omega arith)) in
    closed_same f same st n p offset bytes x low ∙ all x (rw other inside)

pub closed-Ready :
    (st : Store) (n p : ℕ) (qs text old inner bytes : List ℕ)
    → Ready st n (p ∷ qs) ((text ++ old) ++ inner)
    → (st.builder p).error ≡ false
    → length old ≡ length bytes
    → Ready (closed st n p (length text) bytes) p qs (text ++ (bytes ++ inner))
closed-Ready st n p qs text old inner bytes r fine same =
    let st1 = closed st n p (length text) bytes in
    let (above, child, parent, chain) = r.chain in
    let at = closed_parent st n p (length text) bytes above in
    let frame = closed-Frame st n p (length text) bytes above in
    let first : mem p (n ∷ p ∷ qs) ≡ true =
      rw (==-ne p n (λ e. absurd (omega arith)), ==-self p) refl in
    let ours : (st.builder p).buf ≡ (st.builder n).buf = r.buf p first in
    let sized : (st.builder p).cap ≡ (st.builder n).cap = r.cap p first in
    let block : st1.memory (st.builder n).buf
        ≡ store (st.memory (st.builder n).buf) (length text) bytes =
      rw (==-self (st.builder n).buf) refl in
    let total : length text + (length bytes + length inner) ≡ (st.builder n).len =
      omega (arith, length-append (text ++ old) inner, length-append text old, r.count, same) in
    let known : take (length text + (length bytes + length inner)) (st.memory (st.builder n).buf)
        ≡ text ++ (old ++ inner) =
      ap (λ j. take j (st.memory (st.builder n).buf)) total
      ∙ r.written
      ∙ append_assoc text old inner in
    let whole =
      patched (st.memory (st.builder n).buf) text old inner bytes same known
        (omega (arith, total, r.size, r.fits)) in
    record {
      chain = Chain-same st st1 p qs frame.keeps chain;
      buf = λ x k.
          shared (λ b. b.buf) (λ b l. refl) st n p qs (length text) bytes x r.chain r.buf k
          ∙ sym (ap (λ b. b.buf) at ∙ ours);
      cap = λ x k.
          shared (λ b. b.cap) (λ b l. refl) st n p qs (length text) bytes x r.chain r.cap k
          ∙ sym (ap (λ b. b.cap) at ∙ sized);
      size =
          rw (at, ours, block)
            (length-store bytes (st.memory (st.builder n).buf) (length text) ∙ r.size ∙ sym sized);
      used = rw (at, ours) (r.used);
      fine = rw at fine;
      settled = ap (λ b. b.child) at;
      fits = rw (at, sized) (r.fits);
      count =
          rw at
            (omega (arith, length-append text (bytes ++ inner), length-append bytes inner, total));
      written =
          rw (at, ours, block)
            (ap (λ j. take j (store (st.memory (st.builder n).buf) (length text) bytes)) (sym total)
              ∙ whole);
    }
