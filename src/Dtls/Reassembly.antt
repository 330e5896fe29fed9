-- ===== src/Dtls/Reassembly.antt =====
-- The reassembly of handshake messages: dtls_reassembly_get, dtls_reassembly_add_fragment,
-- dtls_reassembly_take and dtls_reassembly_purge. The queue is the list of its entries; memory is
-- there, so that no `body` and no `coverage` is NULL, and `garbage` is what malloc returns.
pub mod Order
pub mod Queue
use opssl.Base.{
  ℕ, zero, suc, ◌+◌, ◌-◌, ◌*◌, ◌/◌, ◌%◌, ◌^◌, Bool, true, false, Option, none, some, List, [], ◌∷◌,
  replicate, get_or, set, ltb, leb, ◌==◌, if◌then◌else◌, bit_or, length,
}
use opssl.Bytes.{store}

abbrev pub max_hs_msg_len : ℕ
max_hs_msg_len = 65536

-- dtls_reassembly_t, less the link
pub record Entry : Type 0 where
  pub type : ℕ
  pub msg_seq : ℕ
  pub total_length : ℕ
  pub body : List ℕ
  pub coverage : List ℕ
  pub bytes_received : ℕ

-- The first entry for a message.
unfoldable pub lookup : ℕ → List Entry → Option Entry
lookup msg_seq [] = none
lookup msg_seq (r ∷ rs) =
    let rest = lookup msg_seq rs in if r.msg_seq == msg_seq then some r else rest

-- A new entry; `garbage` has `total_length` bytes, or one.
unfoldable pub new_entry : ℕ → ℕ → ℕ → List ℕ → Entry
new_entry msg_seq type total_length garbage =
    let cov_bytes = (total_length + 7) / 8 in
    record {
      type = type;
      msg_seq = msg_seq;
      total_length = total_length;
      body = garbage;
      coverage = replicate (if ltb 0 cov_bytes then cov_bytes else 1) 0;
      bytes_received = 0;
    }

abbrev pub found_or_new : ℕ → ℕ → ℕ → List ℕ → List Entry → Option Entry → List Entry × Option Entry
found_or_new msg_seq type total_length garbage queue (some r) = (queue, some r)
found_or_new msg_seq type total_length garbage queue none =
    let r = new_entry msg_seq type total_length garbage in
    if ltb max_hs_msg_len total_length then (queue, none) else (r ∷ queue, some r)

-- dtls_reassembly_get
unfoldable pub reassembly_get : ℕ → ℕ → ℕ → List ℕ → List Entry → List Entry × Option Entry
reassembly_get msg_seq type total_length garbage queue =
    found_or_new msg_seq type total_length garbage queue (lookup msg_seq queue)

-- The loop that marks `n` bytes from `i` on.
unfoldable pub cover : ℕ → ℕ → List ℕ → List ℕ
cover zero i coverage = coverage
cover (suc n) i coverage =
    cover n (i + 1) (set coverage (i / 8) (bit_or (get_or coverage (i / 8) 0) (2 ^ (i % 8))))

-- dtls_reassembly_add_fragment, for the bytes `bytes` of the fragment: the entry that it leaves, and
-- whether it calls the message complete.
unfoldable pub add_fragment : ℕ → List ℕ → Entry → Entry × Bool
add_fragment frag_offset bytes r =
    let frag_length = length bytes in
    let received = (r.bytes_received + frag_length) % 2 ^ 32 in
    if ltb r.total_length ((frag_offset + frag_length) % 2 ^ 32) then (r, false) else (
      record r {
        body = store r.body frag_offset bytes;
        coverage = cover frag_length frag_offset r.coverage;
        bytes_received = received;
      },
      leb r.total_length received,
    )

abbrev pub behind : Entry → List Entry × Option Entry → List Entry × Option Entry
behind r (rs, out) = (r ∷ rs, out)

-- dtls_reassembly_take
unfoldable pub reassembly_take : ℕ → List Entry → List Entry × Option Entry
reassembly_take msg_seq [] = ([], none)
reassembly_take msg_seq (r ∷ rs) =
    let rest = reassembly_take msg_seq rs in
    if r.msg_seq == msg_seq then (rs, some r) else behind r rest

-- dtls_reassembly_purge
unfoldable pub reassembly_purge : List Entry → List Entry
reassembly_purge queue = []

-- Fragments that follow one another, from an offset on.
unfoldable pub add_in_order : ℕ → List (List ℕ) → Entry → Entry × Bool
add_in_order offset [] r = (r, false)
add_in_order offset (bytes ∷ []) r = add_fragment offset bytes r
add_in_order offset (bytes ∷ more ∷ rest) r =
    add_in_order (offset + length bytes) (more ∷ rest) (add_fragment offset bytes r).0
