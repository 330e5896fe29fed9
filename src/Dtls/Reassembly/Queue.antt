-- ===== src/Dtls/Reassembly/Queue.antt =====
-- The reassembly queue as a map from message numbers to entries.
use opssl.Base.{
  ℕ, ◌≡◌, ◌≢◌, refl, sym, ap, true, false, Option, none, some, List, [], ◌∷◌, ◌==◌, if◌then◌else◌,
  Bool-cases, inl, inr, arith, ltb, if-cases,
}
use opssl.Dtls.Reassembly.{Entry, lookup, new_entry, found_or_new, reassembly_get, reassembly_take}

-- dtls_reassembly_take returns the entry that the queue has for the message, and leaves the queue as
-- it was for every other message.
pub reassembly_take_lem :
    (msg_seq other : ℕ) (queue : List Entry)
    → other ≢ msg_seq
    → ((reassembly_take msg_seq queue).1 ≡ lookup msg_seq queue)
      × (lookup other (reassembly_take msg_seq queue).0 ≡ lookup other queue)
unfolding reassembly_take lookup
reassembly_take_lem msg_seq other [] differ = (refl, refl)
reassembly_take_lem msg_seq other (r ∷ rs) differ =
    let (out, left) = reassembly_take_lem msg_seq other rs differ in
    elim (Bool-cases (r.msg_seq == msg_seq)) [
      | inl e ↦ let away : (r.msg_seq == other) ≡ false = ground arith in rw (e, away) (refl, refl)
      | inr e ↦ rw e (out, ap (λ (x : Option Entry). if r.msg_seq == other then some r else x) left)
    ]

found_or_new_lem :
    (msg_seq other type total_length : ℕ) (garbage : List ℕ) (queue : List Entry) (o : Option Entry)
    → other ≢ msg_seq
    → lookup msg_seq queue ≡ o
    → let x = found_or_new msg_seq type total_length garbage queue o in
      (x.1 ≡ lookup msg_seq x.0) × (lookup other x.0 ≡ lookup other queue)
unfolding lookup new_entry
found_or_new_lem msg_seq other type total_length garbage queue (some r) differ e = (sym e, refl)
found_or_new_lem msg_seq other type total_length garbage queue none differ e =
    let same : (msg_seq == msg_seq) ≡ true = ground arith in
    let away : (msg_seq == other) ≡ false = ground arith in
    if-cases
      (λ (x : List Entry × Option Entry).
        (x.1 ≡ lookup msg_seq x.0) × (lookup other x.0 ≡ lookup other queue))
      (ltb 65536 total_length) (queue, none)
      (
        new_entry msg_seq type total_length garbage ∷ queue,
        some (new_entry msg_seq type total_length garbage),
      )
      (λ long. (sym e, refl)) (λ short. rw (same, away) (refl, refl))

-- dtls_reassembly_get returns the entry that the queue then has for the message, none where there is
-- none and the message would be too long, and leaves the queue as it was for every other message.
pub reassembly_get_lem :
    (msg_seq other type total_length : ℕ) (garbage : List ℕ) (queue : List Entry)
    → other ≢ msg_seq
    → let x = reassembly_get msg_seq type total_length garbage queue in
      (x.1 ≡ lookup msg_seq x.0) × (lookup other x.0 ≡ lookup other queue)
unfolding reassembly_get
reassembly_get_lem msg_seq other type total_length garbage queue differ =
    found_or_new_lem msg_seq other type total_length garbage queue (lookup msg_seq queue) differ
      refl
