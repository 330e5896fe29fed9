-- ===== src/Cbb.antt =====
-- The builder half of src/crypto/cbs.c. The builders and the blocks of memory are a store: a builder
-- is known by the number of its `opssl_cbb_t`, and holds the number of the block that `buf` points
-- to, 0 for NULL. An allocation does not fail, and fresh memory is zero. The walks along the pointers have
-- `fuel` steps.
pub mod Memory
pub mod Grow
pub mod Room
pub mod Append
pub mod Start
pub mod Field
pub mod Flush
pub mod Close
pub mod Document
pub mod Parsed
use opssl.Base.{
  ◌||◌, ℕ, zero, suc, ◌+◌, ◌-◌, ◌*◌, ◌%◌, ◌^◌, Bool, true, false, not, Option, none, some, List, [],
  ◌∷◌, ◌++◌, length, take, replicate, ltb, leb, ◌==◌, if◌then◌else◌,
}
use opssl.Bytes.{store, put_be16, put_be24, put_be32}

-- struct opssl_cbb
pub record Builder : Type 0 where
  pub buf : ℕ
  pub len : ℕ
  pub cap : ℕ
  pub offset : ℕ
  pub parent : Option ℕ
  pub child : Option ℕ
  pub prefix_len : ℕ
  pub error : Bool
  pub is_child : Bool

pub record Store : Type 0 where
  pub builder : ℕ → Builder
  pub memory : ℕ → List ℕ
  pub next : ℕ

abbrev pub put : Store → ℕ → Builder → Store
put st p b = record st { builder = λ q. if q == p then b else st.builder q }

-- Bytes written at a place of a block.
abbrev pub write : Store → ℕ → ℕ → List ℕ → Store
write st m pos bytes = record st {
  memory = λ k. if k == m then store (st.memory m) pos bytes else st.memory k;
}

-- op_malloc and op_realloc: the new block is `next`, and the old one is gone.
abbrev pub resized : ℕ → List ℕ → List ℕ
resized cap bytes = take cap (bytes ++ replicate cap 0)

abbrev pub malloc : Store → ℕ → Store
malloc st cap = record st {
  memory = λ k. if k == st.next then replicate cap 0 else st.memory k;
  next = st.next + 1;
}

abbrev pub realloc : Store → ℕ → ℕ → Store
realloc st m cap = record st {
  memory =
      λ k. if k == st.next then resized cap (st.memory m) else if k == m then [] else st.memory k;
  next = st.next + 1;
}

-- The next call, where the one before did not return 0.
abbrev pub and_then : Store × Bool → (Store → Store × Bool) → Store × Bool
and_then (st, true) f = f st
and_then (st, false) f = (st, false)

abbrev pub fail : Store → ℕ → Store × Bool
fail st p = (put st p (record (st.builder p) { error = true }), false)

abbrev pub blank : Builder
blank = record {
  buf = 0;
  len = 0;
  cap = 0;
  offset = 0;
  parent = none;
  child = none;
  prefix_len = 0;
  error = false;
  is_child = false;
}

-- opssl_cbb_init
unfoldable pub cbb_init : Store → ℕ → ℕ → Store
cbb_init st p initial_cap =
    let cap = if initial_cap == 0 then 256 else initial_cap in
    put (malloc st cap) p (record blank { buf = st.next; cap = cap })

-- opssl_cbb_init_fixed, for a block of the caller's with `len` bytes
unfoldable pub cbb_init_fixed : Store → ℕ → ℕ → ℕ → Store
cbb_init_fixed st p m len = put st p (record blank { buf = m; cap = len })

-- The bytes of a length in a field of 1, 2 or 3 bytes.
abbrev pub prefix_bytes : ℕ → ℕ → List ℕ
prefix_bytes (suc zero) n = (n % 256) ∷ []
prefix_bytes (suc (suc zero)) n = put_be16 (n % 2 ^ 16)
prefix_bytes (suc (suc (suc zero))) n = put_be24 n
prefix_bytes _ n = []

abbrev pub prefix_limit : ℕ → ℕ → Bool
prefix_limit (suc zero) n = ltb 0xFF n
prefix_limit (suc (suc zero)) n = ltb 0xFFFF n
prefix_limit (suc (suc (suc zero))) n = ltb 0xFFFFFF n
prefix_limit _ n = false

-- The end of opssl_cbb_flush: the length goes into its place, the parent takes the child's length,
-- and the two are no longer linked.
abbrev pub detach : Store → ℕ → ℕ → Store
detach st p q =
    let b = st.builder p in
    let st1 = put st q (record (st.builder q) { len = b.len; child = none }) in
    put st1 p (record (st1.builder p) { is_child = false; parent = none })

abbrev pub flush_into : Store → ℕ → Option ℕ → Store × Bool
flush_into st p none = (st, true)
flush_into st p (some q) =
    let b = st.builder p in
    let child_len = b.len - (b.offset + b.prefix_len) in
    if ltb b.len (b.offset + b.prefix_len)
    then fail st p
    else if prefix_limit b.prefix_len child_len
    then fail st p
    else (detach (write st b.buf b.offset (prefix_bytes b.prefix_len child_len)) p q, true)

unfoldable pub flush_self : Store → ℕ → Store × Bool
flush_self st p =
    if not (st.builder p).is_child then (st, true) else flush_into st p (st.builder p).parent

-- A pending child is flushed, with this call, and forgotten.
abbrev pub settle_with : (Store → ℕ → Store × Bool) → Store → ℕ → Option ℕ → Store × Bool
settle_with flush st p none = (st, true)
settle_with flush st p (some c) =
    and_then (flush st c) (λ s. (put s p (record (s.builder p) { child = none }), true))

-- opssl_cbb_flush
unfoldable pub flush : ℕ → Store → ℕ → Store × Bool
flush zero st p = (st, false)
flush (suc fuel) st p =
    and_then (settle_with (flush fuel) st p (st.builder p).child) (λ s. flush_self s p)

-- The loop that doubles a capacity; `none` is the error of one that wraps.
unfoldable pub doubled : ℕ → ℕ → ℕ → Option ℕ
doubled zero new_cap required = if ltb new_cap required then none else some new_cap
doubled (suc fuel) new_cap required =
    let twice = new_cap * 2 % 2 ^ 64 in
    let rest = doubled fuel twice required in
    if ltb new_cap required then (if leb twice new_cap then none else rest) else some new_cap

-- The root that `parent` leads to.
unfoldable pub root_of : ℕ → Store → ℕ → Option ℕ → Option ℕ
root_of fuel st p none = none
root_of zero st p (some q) = none
root_of (suc fuel) st p (some q) =
    let rest = root_of fuel st q (st.builder q).parent in
    if (st.builder q).is_child then rest else some q

-- The loop that gives the children of the chain their new buffer.
abbrev pub moved : Store → ℕ → ℕ → ℕ → Store
moved st p buf cap = put st p (record (st.builder p) { buf = buf; cap = cap })

unfoldable pub move_chain : ℕ → Store → ℕ → ℕ → Option ℕ → Store
move_chain fuel st buf cap none = st
move_chain zero st buf cap (some p) = st
move_chain (suc fuel) st buf cap (some p) =
    let rest = move_chain fuel (moved st p buf cap) buf cap (st.builder p).parent in
    if (st.builder p).is_child then rest else st

abbrev pub first_cap : ℕ → ℕ
first_cap cap = if cap == 0 then 64 else cap

-- The root grows, and then the chain from `p` on follows.
abbrev pub grow_to : ℕ → Store → ℕ → ℕ → Option ℕ → Store × Bool
grow_to fuel st p r none = fail st p
grow_to fuel st p r (some new_cap) = (
  move_chain fuel (moved (realloc st (st.builder r).buf new_cap) r st.next new_cap) st.next new_cap
      (some p),
  true,
)

abbrev pub grow_root : ℕ → Store → ℕ → ℕ → Option ℕ → Store × Bool
grow_root fuel st p required none = fail st p
grow_root fuel st p required (some r) =
    grow_to fuel st p r (doubled 64 (first_cap (st.builder r).cap) required)

-- cbb_grow behind the flush of a pending child. For a builder that is its own root, the loop over the
-- chain does nothing.
unfoldable pub grow_self : ℕ → Store → ℕ → ℕ → Store × Bool
grow_self fuel st p need =
    let b = st.builder p in
    let required = (b.len + need) % 2 ^ 64 in
    if ltb required b.len
    then fail st p
    else if leb required b.cap
    then (st, true)
    else if b.is_child
    then grow_root fuel st p required (root_of fuel st p b.parent)
    else grow_root fuel st p required (some p)

-- cbb_grow
unfoldable pub grow : ℕ → Store → ℕ → ℕ → Store × Bool
grow fuel st p need =
    if (st.builder p).error
    then (st, false)
    else and_then (settle_with (flush fuel) st p (st.builder p).child)
        (λ s. grow_self fuel s p need)

-- Bytes at the end, once there is room.
abbrev pub appended : Store → ℕ → List ℕ → Store
appended st p bytes =
    let b = st.builder p in
    let st1 = write st b.buf b.len bytes in
    put st1 p (record (st1.builder p) { len = b.len + length bytes })

-- opssl_cbb_add_bytes; and the integers, as their bytes
unfoldable pub add_bytes : ℕ → Store → ℕ → List ℕ → Store × Bool
add_bytes fuel st p bytes =
    and_then (grow fuel st p (length bytes)) (λ s. (appended s p bytes, true))

unfoldable pub add_u8 : ℕ → Store → ℕ → ℕ → Store × Bool
add_u8 fuel st p val = add_bytes fuel st p ((val % 256) ∷ [])

unfoldable pub add_u16 : ℕ → Store → ℕ → ℕ → Store × Bool
add_u16 fuel st p val = add_bytes fuel st p (put_be16 (val % 2 ^ 16))

unfoldable pub add_u24 : ℕ → Store → ℕ → ℕ → Store × Bool
add_u24 fuel st p val = add_bytes fuel st p (put_be24 val)

unfoldable pub add_u32 : ℕ → Store → ℕ → ℕ → Store × Bool
add_u32 fuel st p val = add_bytes fuel st p (put_be32 (val % 2 ^ 32))

-- The child of a field: it starts behind the zeros that stand for the length.
abbrev pub opened : Store → ℕ → ℕ → ℕ → Store
opened st p child k =
    let b = st.builder p in
    let st1 = appended st p (replicate k 0) in
    let st2 = put st1 child (record blank {
      buf = b.buf;
      len = b.len + k;
      cap = b.cap;
      offset = b.len;
      parent = some p;
      prefix_len = k;
      is_child = true;
    }) in
    put st2 p (record (st2.builder p) { child = some child })

-- opssl_cbb_add_u8_length_prefixed, opssl_cbb_add_u16_length_prefixed and
-- opssl_cbb_add_u24_length_prefixed, for `k` of 1, 2 and 3
unfoldable pub add_length_prefixed : ℕ → ℕ → Store → ℕ → ℕ → Store × Bool
add_length_prefixed k fuel st p child =
    and_then (grow fuel st p k) (λ s. (opened s p child k, true))

-- opssl_cbb_finish: the bytes that the caller owns from then on.
abbrev pub finished : ℕ → Store × Bool → Store × Option (List ℕ)
finished p (st, false) = (st, none)
finished p (st, true) =
    let b = st.builder p in
    (put st p (record b { buf = 0; len = 0; cap = 0 }), some (take b.len (st.memory b.buf)))

unfoldable pub finish : ℕ → Store → ℕ → Store × Option (List ℕ)
finish fuel st p =
    let b = st.builder p in
    if b.error
    then (st, none)
    else if b.is_child
    then (st, none)
    else finished p (settle_with (flush fuel) st p b.child)

-- opssl_cbb_reserve, whose pointer is the block and the place; and opssl_cbb_did_write
unfoldable pub reserve : ℕ → Store → ℕ → ℕ → Store × Bool
reserve fuel st p len = grow fuel st p len

unfoldable pub did_write : Store → ℕ → ℕ → Store × Bool
did_write st p len =
    let b = st.builder p in
    if ltb b.cap ((b.len + len) % 2 ^ 64)
    then fail st p
    else (put st p (record b { len = b.len + len }), true)

-- opssl_cbb_cleanup
unfoldable pub cleanup : Store → ℕ → Store
cleanup st p =
    let b = st.builder p in
    let freed = record st { memory = λ k. if k == b.buf then [] else st.memory k } in
    put (if b.is_child || (b.buf == 0) then st else freed) p blank
