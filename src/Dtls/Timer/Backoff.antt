-- ===== src/Dtls/Timer/Backoff.antt =====
-- How often and how long the timer lets a handshake try.
use opssl.Base.{
  ℕ, zero, suc, ◌+◌, ◌-◌, ◌*◌, ◌%◌, ◌^◌, ◌≤◌, ◌<◌, ◌≡◌, refl, ap, ◌∙◌, Option, none, some, List, [],
  ◌∷◌, ltb, leb, min, inl, inr, arith, ltb→lt, ◌⊎◌, if-cases, ltb→le,
}
use opssl.Base.Bits.{double_power}
use opssl.Dtls.Timer.{Timer, Outcome, doubled, handle_timeout, timeout_run}

-- How often something was sent.
abbrev pub sends : List (Outcome × Option (List ℕ)) → ℕ
sends [] = 0
sends ((o, none) ∷ rest) = sends rest
sends ((o, some flight) ∷ rest) = suc (sends rest)

-- A call sends nothing and changes nothing, or it was one of the first six, counts itself and doubles
-- the time-out.
abbrev Step : ℕ → ℕ → Timer × (Outcome × Option (List ℕ)) → Type 0
Step n m r =
    ((r.1.1 ≡ none) × (r.0.retransmit_count ≡ n) × (r.0.current_timeout_ms ≡ m))
    ⊎ ((n < 6) × (r.0.retransmit_count ≡ n + 1) × (r.0.current_timeout_ms ≡ doubled m))

handle_timeout-Step :
    (now : ℕ) (flight : List ℕ) (t : Timer)
    → Step t.retransmit_count t.current_timeout_ms (handle_timeout now flight t)
unfolding handle_timeout
handle_timeout-Step now flight t =
    let P = Step t.retransmit_count t.current_timeout_ms in
    if-cases P t.complete _ _ (λ a. inl (refl, refl, refl))
      (λ a.
        if-cases P (ltb now t.retransmit_deadline_ms) _ _ (λ b. inl (refl, refl, refl))
          (λ b.
            if-cases P (leb 6 t.retransmit_count) _ _ (λ c. inl (refl, refl, refl))
              (λ c. inr (ground arith, refl, refl))))

sends-step :
    (o : Outcome) (out : Option (List ℕ)) (rest : List (Outcome × Option (List ℕ)))
    → sends ((o, out) ∷ rest) ≤ suc (sends rest)
sends-step o none rest = omega arith
sends-step o (some f) rest = omega arith

sends-silent :
    (o : Outcome) (out : Option (List ℕ)) (rest : List (Outcome × Option (List ℕ)))
    → out ≡ none
    → sends ((o, out) ∷ rest) ≡ sends rest
sends-silent o out rest e = rw e refl

-- Whatever the clock says and however often it is called, a timer sends its flight at most six
-- times, less the times that it has sent it before.
pub timeout_run-sends :
    (times flight : List ℕ) (t : Timer)
    → sends (timeout_run times flight t) ≤ 6 - t.retransmit_count
unfolding timeout_run
timeout_run-sends [] flight t = omega arith
timeout_run-sends (now ∷ later) flight t =
    let r = handle_timeout now flight t in
    let after = timeout_run-sends later flight r.0 in
    let rest = timeout_run later flight r.0 in
    elim (handle_timeout-Step now flight t) [
      | inl (silent, same, slow) ↦ omega (arith, sends-silent r.1.0 r.1.1 rest silent)
      | inr (few, more, slow) ↦ omega (arith, sends-step r.1.0 r.1.1 rest)
    ]

abbrev pub doublings : ℕ → ℕ → ℕ
doublings zero t = t
doublings (suc n) t = doubled (doublings n t)

doubled_lem : (t : ℕ) → t ≤ 60000 → doubled t ≡ min (t * 2) 60000
doubled_lem t h =
    let small : t * 2 % 2 ^ 32 ≡ t * 2 = omega arith in
    rw small (
      if-cases (λ x. x ≡ min (t * 2) 60000) (ltb 60000 (t * 2)) 60000 (t * 2)
        (λ a. omega (arith, ltb→lt 60000 (t * 2) a)) (λ a. omega (arith, ltb→le 60000 (t * 2) a)))

pub doublings_lem : (n t : ℕ) → t ≤ 60000 → doublings n t ≡ min (t * 2 ^ n) 60000
doublings_lem zero t h = omega arith
doublings_lem (suc n) t h =
    let before = doublings_lem n t h in
    let step = doubled_lem (doublings n t) (omega arith) in
    let power : t * 2 ^ suc n ≡ t * 2 ^ n * 2 = omega (arith, double_power t n) in omega arith

doublings-doubled : (n t : ℕ) → doublings n (doubled t) ≡ doublings (suc n) t
doublings-doubled zero t = refl
doublings-doubled (suc n) t = ap doubled (doublings-doubled n t)

-- The timer after a sequence of calls.
unfoldable pub timeout_after : List ℕ → List ℕ → Timer → Timer
timeout_after [] flight t = t
timeout_after (now ∷ later) flight t = timeout_after later flight (handle_timeout now flight t).0

timeout_after-doublings :
    (times flight : List ℕ) (t : Timer)
    → let t' = timeout_after times flight t in
      (k : ℕ) × (t'.retransmit_count ≡ t.retransmit_count + k)
      × (t'.current_timeout_ms ≡ doublings k t.current_timeout_ms)
unfolding timeout_after
timeout_after-doublings [] flight t = (0, omega arith, refl)
timeout_after-doublings (now ∷ later) flight t =
    let r = handle_timeout now flight t in
    let (k, count, slow) = timeout_after-doublings later flight r.0 in
    elim (handle_timeout-Step now flight t) [
      | inl (silent, same, still) ↦ (k, omega arith, slow ∙ ap (doublings k) still)
      | inr (few, more, twice) ↦ (
        suc k,
        omega arith,
        slow ∙ ap (doublings k) twice ∙ doublings-doubled k t.current_timeout_ms,
      )
    ]

-- The back-off is exponential: after any sequence of calls, the time-out is the one at the start,
-- which is at most a minute, doubled as often as the flight was sent again, up to one minute.
pub timeout_after-backoff :
    (times flight : List ℕ) (t : Timer)
    → t.current_timeout_ms ≤ 60000
    → let t' = timeout_after times flight t in
      (k : ℕ) × (t'.retransmit_count ≡ t.retransmit_count + k)
      × (t'.current_timeout_ms ≡ min (t.current_timeout_ms * 2 ^ k) 60000)
timeout_after-backoff times flight t h =
    let (k, count, slow) = timeout_after-doublings times flight t in
    (k, count, slow ∙ doublings_lem k t.current_timeout_ms h)
