-- ===== src/Dtls/Timer/Wait.antt =====
-- opssl_dtls_get_timeout against opssl_dtls_handle_timeout.
use opssl.Base.{
  ℕ, ◌+◌, ◌-◌, ◌*◌, ◌/◌, ◌%◌, ◌≤◌, ◌<◌, ◌≡◌, refl, ap, false, Option, none, some, List, leb, arith,
  Bool-cases, inl, inr, lt→ltb,
}
use mathlib.Core.Option
use opssl.Dtls.Timer.{Timer, want_read, handle_timeout, get_timeout}

some_pair :
    (a b sec usec : ℕ)
    → ◌≡◌ {A = Option (ℕ × ℕ)} (some (a, b)) (some (sec, usec))
    → (a ≡ sec) × (b ≡ usec)
some_pair a b sec usec h =
    let same = Option.some-injective (a, b) (sec, usec) h in
    (ap (λ x. x.0) same, ap (λ x. x.1) same)

-- Where the handshake is not complete, opssl_dtls_get_timeout returns microseconds below a million;
-- with the time that it returns, in milliseconds, the deadline is reached, and while that time is
-- not zero, opssl_dtls_handle_timeout changes nothing, sends nothing and wants to read.
pub get_timeout-handle_timeout :
    (now : ℕ) (flight : List ℕ) (t : Timer) {sec usec : ℕ}
    → t.complete ≡ false
    → get_timeout now t ≡ some (sec, usec)
    → (usec < 1000000)
      × (t.retransmit_deadline_ms ≤ now + (sec * 1000 + usec / 1000))
      × (0 < sec + usec → handle_timeout now flight t ≡ (t, (want_read, none)))
unfolding get_timeout handle_timeout
get_timeout-handle_timeout now flight t {sec} {usec} going e =
    elim (Bool-cases (leb t.retransmit_deadline_ms now)) [
      | inl b ↦
          let (s, u) = some_pair 0 0 sec usec (rw (going, b) at e) in
          let due : t.retransmit_deadline_ms ≤ now = ground arith in
          (omega arith, omega arith, λ p. let wrong : ⊥ = omega arith in elim wrong [ ])
      | inr b ↦
          let left = t.retransmit_deadline_ms - now in
          let (s, u) = some_pair (left / 1000) (left % 1000 * 1000) sec usec (rw (going, b) at e) in
          let early : now < t.retransmit_deadline_ms = ground arith in
          (
            omega arith,
            omega arith,
            λ p. rw (going, lt→ltb now t.retransmit_deadline_ms early) refl,
          )
    ]
