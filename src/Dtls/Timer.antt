-- ===== src/Dtls/Timer.antt =====
-- The retransmission timer: opssl_dtls_handle_timeout, opssl_dtls_get_timeout and the MTU. The
-- connection and the out parameter are not NULL; the clock is an argument of each call, and
-- `flight` is what the flight buffer holds.
pub mod Backoff
pub mod Wait
use opssl.Base.{
  ℕ, zero, suc, ◌+◌, ◌-◌, ◌*◌, ◌/◌, ◌%◌, ◌^◌, Bool, true, false, Option, none, some, List, [], ◌∷◌,
  length, ltb, leb, ◌==◌, if◌then◌else◌, min,
}
use opssl.Err.{tls, pack}

abbrev pub max_retransmit : ℕ
max_retransmit = 6

abbrev pub initial_timeout_ms : ℕ
initial_timeout_ms = 1000

abbrev pub max_timeout_ms : ℕ
max_timeout_ms = 60000

pub record Timer : Type 0 where
  pub complete : Bool
  pub retransmit_count : ℕ
  pub retransmit_deadline_ms : ℕ
  pub current_timeout_ms : ℕ
  pub mtu : ℕ
  pub last_error : ℕ

-- OPSSL_OK, OPSSL_WANT_READ, OPSSL_FATAL
pub data Outcome : Type 0 where
  ok want_read fatal : Outcome

-- `current_timeout_ms *= 2`, in 32 bits, with the upper limit.
abbrev pub doubled : ℕ → ℕ
doubled t = let twice = t * 2 % 2 ^ 32 in if ltb max_timeout_ms twice then max_timeout_ms else twice

-- opssl_dtls_handle_timeout at the time `current`: the timer that it leaves, what it returns, and
-- what it hands to send, if it does.
unfoldable pub handle_timeout : ℕ → List ℕ → Timer → Timer × (Outcome × Option (List ℕ))
handle_timeout current flight t =
    let next = doubled t.current_timeout_ms in
    let sent = if ltb 0 (length flight) then some flight else none in
    if t.complete
    then (t, (ok, none))
    else if ltb current t.retransmit_deadline_ms
    then (t, (want_read, none))
    else if leb max_retransmit t.retransmit_count
    then (record t { last_error = pack tls 0 }, (fatal, none))
    else (
      record t {
        retransmit_count = t.retransmit_count + 1;
        current_timeout_ms = next;
        retransmit_deadline_ms = (current + next) % 2 ^ 64;
      },
      (want_read, sent),
    )

-- opssl_dtls_get_timeout: the seconds and microseconds, `none` for the -1 seconds of a handshake
-- that is complete.
unfoldable pub get_timeout : ℕ → Timer → Option (ℕ × ℕ)
get_timeout current t =
    let r = t.retransmit_deadline_ms - current in
    if t.complete
    then none
    else if leb t.retransmit_deadline_ms current
    then some (0, 0)
    else some (r / 1000, r % 1000 * 1000)

-- opssl_dtls_set_mtu, opssl_dtls_get_mtu
unfoldable pub set_mtu : ℕ → Timer → Timer
set_mtu mtu t = if leb 256 mtu then record t { mtu = mtu } else t

unfoldable pub get_mtu : Timer → ℕ
get_mtu t = t.mtu

-- Calls at the given times, with one flight: what each returns.
unfoldable pub timeout_run : List ℕ → List ℕ → Timer → List (Outcome × Option (List ℕ))
timeout_run [] flight t = []
timeout_run (now ∷ later) flight t =
    let (t', out) = handle_timeout now flight t in out ∷ timeout_run later flight t'
