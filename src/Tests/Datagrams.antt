-- ===== src/Tests/Datagrams.antt =====
-- The flight buffer, the timer and the reassembly of src/tls/dtls.c, at concrete inputs.
use opssl.Base.{ℕ, ◌≢◌, ◌-◌, ◌≤◌, ◌<◌, ◌≡◌, refl, true, false, some, List, [], ◌∷◌, take, arith}
use opssl.Dtls.Timer.{Timer, initial_timeout_ms, timeout_run, get_timeout}
use opssl.Dtls.Timer.Backoff.{sends, timeout_run-sends}
use opssl.Dtls.Flight.{Flight}
use opssl.Dtls.Reassembly.{Entry, add_fragment, add_in_order}
use opssl.Dtls.Reassembly.Order.{IsAt, add_in_order_lem, add_fragment_twice}

abbrev first_timer : Timer
first_timer = record {
  complete = false;
  retransmit_count = 0;
  retransmit_deadline_ms = 1000;
  current_timeout_ms = initial_timeout_ms;
  mtu = 1500;
  last_error = 0;
}

abbrev some_times : List ℕ
some_times = 500 ∷ 1000 ∷ 4000 ∷ 8000 ∷ []

timeout_run-sends_example : sends (timeout_run some_times (22 ∷ []) first_timer) ≤ 6 - 0
timeout_run-sends_example = timeout_run-sends some_times (22 ∷ []) first_timer

abbrev small_flight : Flight
small_flight = record { bytes = 1 ∷ 2 ∷ []; cap = 3 }

-- A message of four bytes that is expected, and nothing of it there.
abbrev expected : Entry
expected = record {
  type = 1;
  msg_seq = 0;
  total_length = 4;
  body = 99 ∷ 99 ∷ 99 ∷ 99 ∷ [];
  coverage = 0 ∷ [];
  bytes_received = 0;
}

expected-IsAt : IsAt 0 [] expected
expected-IsAt = record {
  count = refl;
  prefix = refl;
  size = refl;
  limit = omega arith;
  room = omega arith;
}

add_in_order_lem_example :
    ((add_in_order 0 ((1 ∷ []) ∷ (2 ∷ 3 ∷ 4 ∷ []) ∷ []) expected).1 ≡ true)
    × (take 4 (add_in_order 0 ((1 ∷ []) ∷ (2 ∷ 3 ∷ 4 ∷ []) ∷ []) expected).0.body
        ≡ 1 ∷ 2 ∷ 3 ∷ 4 ∷ [])
add_in_order_lem_example =
    add_in_order_lem 0 [] (1 ∷ []) ((2 ∷ 3 ∷ 4 ∷ []) ∷ []) expected expected-IsAt refl

add_fragment_twice_example :
    let once = (add_fragment 2 (3 ∷ 4 ∷ []) expected).0 in
    ((add_fragment 2 (3 ∷ 4 ∷ []) once).1 ≡ true)
    × (take 2 (add_fragment 2 (3 ∷ 4 ∷ []) once).0.body ≡ 99 ∷ 99 ∷ [])
add_fragment_twice_example =
    add_fragment_twice 2 (3 ∷ 4 ∷ []) expected expected-IsAt (omega arith) (omega arith)

wait_800 : get_timeout 200 first_timer ≡ some (0, 800000)
unfolding get_timeout
wait_800 = refl

abbrev later_entry : Entry
later_entry = record expected { msg_seq = 1 }

one_not_zero : (n : ℕ) → 0 < n → n ≢ 0
one_not_zero n h = ground arith

abbrev two_entries : List Entry
two_entries = later_entry ∷ expected ∷ []
