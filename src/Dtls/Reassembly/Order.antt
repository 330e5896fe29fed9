-- ===== src/Dtls/Reassembly/Order.antt =====
-- Fragments that come in order make up the message; a fragment that comes twice is counted twice.
use opssl.Base.{
  concat, ℕ, ◌+◌, ◌%◌, ◌^◌, ◌≤◌, ◌≡◌, refl, ap, ◌∙◌, true, List, [], ◌∷◌, ◌++◌, length, take, leb,
  le→ltb, length-append, append_assoc, append-nil, arith,
}
use opssl.Bytes.{store}
use opssl.Bytes.Store.{length-store, take-store_at, take-store_before}
use opssl.Dtls.Reassembly.{Entry, add_fragment, add_in_order, cover}

-- The entry has received `offset` bytes, which stand at the start of its body, and has room for all.
pub record IsAt (offset : ℕ) (start : List ℕ) (r : Entry) : Type 0 where
  pub count : r.bytes_received ≡ offset
  pub prefix : take offset r.body ≡ start
  pub size : length start ≡ offset
  pub limit : r.total_length ≤ 65536
  pub room : r.total_length ≤ length r.body

-- A fragment that fits is stored, and counted.
abbrev stored : ℕ → List ℕ → Entry → Entry
stored offset bytes r = record r {
  body = store r.body offset bytes;
  coverage = cover (length bytes) offset r.coverage;
  bytes_received = (r.bytes_received + length bytes) % 2 ^ 32;
}

add_fragment_fits :
    (offset : ℕ) (bytes : List ℕ) (r : Entry)
    → offset + length bytes ≤ r.total_length
    → r.total_length ≤ 65536
    → add_fragment offset bytes r
      ≡ (stored offset bytes r, leb r.total_length ((r.bytes_received + length bytes) % 2 ^ 32))
unfolding add_fragment
add_fragment_fits offset bytes r fits limit =
    let small : (offset + length bytes) % 2 ^ 32 ≡ offset + length bytes = omega arith in
    rw (small, le→ltb r.total_length (offset + length bytes) fits) refl

stored-IsAt :
    (offset : ℕ) (start bytes : List ℕ) (r : Entry)
    → IsAt offset start r
    → offset + length bytes ≤ r.total_length
    → IsAt (offset + length bytes) (start ++ bytes) (stored offset bytes r)
stored-IsAt offset start bytes r at fits = record {
  count = omega (arith, at.count, at.limit);
  prefix =
      take-store_at r.body bytes offset (omega (arith, at.room)) ∙ ap (λ l. l ++ bytes) at.prefix;
  size = omega (arith, length-append start bytes, at.size);
  limit = at.limit;
  room = omega (arith, length-store bytes r.body offset, at.room);
}

leb_same : (a b : ℕ) → b ≡ a → leb a b ≡ true
leb_same a b e = ground arith

leb_enough : (a b : ℕ) → a ≤ b → leb a b ≡ true
leb_enough a b e = ground arith

-- Fragments that arrive in order, and are what is missing of the message, complete it with the last
-- one, and its body is then what was there and the fragments.
pub add_in_order_lem :
    (offset : ℕ) (start first : List ℕ) (later : List (List ℕ)) (r : Entry)
    → IsAt offset start r
    → r.total_length ≡ offset + length (concat (first ∷ later))
    → ((add_in_order offset (first ∷ later) r).1 ≡ true)
      × (take r.total_length (add_in_order offset (first ∷ later) r).0.body
          ≡ start ++ concat (first ∷ later))
unfolding add_in_order
add_in_order_lem offset start first [] r at all =
    let size = length-append first [] in
    let fits : offset + length first ≤ r.total_length = omega arith in
    let next = stored-IsAt offset start first r at fits in
    let whole : leb r.total_length ((r.bytes_received + length first) % 2 ^ 32) ≡ true =
      leb_same _ _ (omega (arith, at.count, at.limit)) in
    rw (add_fragment_fits offset first r fits at.limit, whole, append-nil first)
      (
        refl,
        ap (λ k. take k (store r.body offset first)) {x = r.total_length}
              {y = offset + length first} (omega arith)
            ∙ next.prefix,
      )
add_in_order_lem offset start first (second ∷ later) r at all =
    let size = length-append first (concat (second ∷ later)) in
    let fits : offset + length first ≤ r.total_length = omega arith in
    let next = stored-IsAt offset start first r at fits in
    let (done, body) =
      add_in_order_lem (offset + length first) (start ++ first) second later (stored offset first r)
        next (omega arith) in
    let moved = ap (λ x. x.0) (add_fragment_fits offset first r fits at.limit) in
    rw (ap (add_in_order (offset + length first) (second ∷ later)) moved)
      (done, body ∙ append_assoc start first (concat (second ∷ later)))

-- A fragment that arrives twice is counted twice: where it is at least half of the message, the
-- second copy completes it, and the bytes of the body before the fragment are still the ones that
-- were there.
pub add_fragment_twice :
    (offset : ℕ) (bytes : List ℕ) (r : Entry)
    → IsAt 0 [] r
    → offset + length bytes ≤ r.total_length
    → r.total_length ≤ length bytes + length bytes
    → let once = (add_fragment offset bytes r).0 in
      ((add_fragment offset bytes once).1 ≡ true)
      × (take offset (add_fragment offset bytes once).0.body ≡ take offset r.body)
add_fragment_twice offset bytes r at fits half =
    let first = ap (λ x. x.0) (add_fragment_fits offset bytes r fits at.limit) in
    let second = add_fragment_fits offset bytes (stored offset bytes r) fits at.limit in
    let whole : leb r.total_length
          (((r.bytes_received + length bytes) % 2 ^ 32 + length bytes) % 2 ^ 32)
        ≡ true =
      leb_enough _ _ (omega (arith, at.count, at.limit)) in
    rw (first, second, whole)
      (
        refl,
        take-store_before (store r.body offset bytes) bytes offset
              (omega (arith, length-store bytes r.body offset, at.room))
            ∙ take-store_before r.body bytes offset (omega (arith, at.room)),
      )
