-- ===== src/Dtls/Replay/Refine.antt =====
-- The anti-replay window against the history of what was accepted.
use opssl.Base.{
  ℕ, ◌+◌, ◌-◌, ◌*◌, ◌/◌, ◌%◌, ◌≤◌, ◌<◌, ◌≡◌, refl, sym, ap, ◌∙◌, Bool, true, false, List, [], ◌∷◌,
  arith, ltb, leb, ◌==◌, if◌then◌else◌, ◌||◌, All, Bool-cases, inl, inr, ltb→lt, ltb→le,
}
use opssl.Dtls.Replay.{Window, advance_words, replay_check, replay_run, fresh}
use opssl.Dtls.Replay.Shift.{bit, bit-lt, shifted, IsWords}
use opssl.Dtls.Replay.Loop.{advance_words_lem, zeros-IsWords, bit-zeros}
use opssl.Dtls.Replay.Mark.{mark, mark-bit, mark-IsWords, mark-test}

-- The abstract state: the highest sequence number so far, and all that were accepted.
pub record History : Type 0 where
  pub top : ℕ
  pub accepted : List ℕ

abbrev pub contains : ℕ → List ℕ → Bool
contains x [] = false
contains x (y ∷ ys) = x == y || contains x ys

-- What RFC 6347 asks for: refuse what is too old to tell, and what was accepted before.
unfoldable pub judge : ℕ → History → History × Bool
judge s h =
    if ltb h.top s
    then (record { top = s; accepted = s ∷ h.accepted }, true)
    else if leb 256 (h.top - s)
    then (h, false)
    else if contains s h.accepted
    then (h, false)
    else (record h { accepted = s ∷ h.accepted }, true)

unfoldable pub judge_run : List ℕ → History → List Bool
judge_run [] h = []
judge_run (s ∷ ss) h = let (h', ok) = judge s h in ok ∷ judge_run ss h'

abbrev pub empty_history : History
empty_history = record { top = 0; accepted = [] }

-- The window shows the last 256 sequence numbers of the history.
record Models (w : Window) (h : History) : Type 0 where
  words : IsWords w.words
  same_top : w.max_seq ≡ h.top
  bounded : All (λ x. x ≤ h.top) h.accepted
  shows : (k : ℕ) → k < 256 → k ≤ h.top → (bit w.words k == 1) ≡ contains (h.top - k) h.accepted

absent_above : (x n : ℕ) (l : List ℕ) → All (λ y. y ≤ n) l → n < x → contains x l ≡ false
absent_above x n [] h k = refl
absent_above x n (y ∷ l) (hy, hl) k =
    let other : (x == y) ≡ false = ground arith in rw (other, absent_above x n l hl k)

All-le : (n m : ℕ) (l : List ℕ) → n ≤ m → All (λ y. y ≤ n) l → All (λ y. y ≤ m) l
All-le n m [] h a = tt
All-le n m (y ∷ l) h (hy, hl) = (omega arith, All-le n m l h hl)

ahead_shows :
    (s m : ℕ) (ws : List ℕ) (h : History)
    → Models (record { max_seq = m; words = ws }) h
    → m < s
    → (k : ℕ) → k < 256
    → k ≤ s
    → {d : ℕ} → d ≡ shifted ws (s - m) k
    → ((if k == 64 * 0 + 0 then 1 else d) == 1) ≡ contains (s - k) (s ∷ h.accepted)
ahead_shows s m ws h r lt k k_in k_le {d} e = elim (Bool-cases (k == 0)) [
  | inl newest ↦ let it : (s - k == s) ≡ true = ground arith in rw (newest, it)
  | inr older ↦
      let other : (s - k == s) ≡ false = ground arith in
      rw (older, other, e)
        (elim (Bool-cases (leb (s - m) k)) [
          | inl kept ↦
              let back : h.top - (k - (s - m)) ≡ s - k = ground (arith, r.same_top) in
              rw kept (
                r.shows (k - (s - m)) (omega arith) (ground (arith, r.same_top))
                ∙ ap (λ x. contains x h.accepted) back)
          | inr gap ↦
              rw gap
                (sym (absent_above (s - k) h.top h.accepted r.bounded (ground (arith, r.same_top))))
        ])
]

inside_shows :
    (s m : ℕ) (ws : List ℕ) (h : History)
    → Models (record { max_seq = m; words = ws }) h
    → s ≤ m
    → (k : ℕ) → k < 256
    → k ≤ h.top
    → ((if k == 64 * ((m - s) / 64) + (m - s) % 64 then 1 else bit ws k) == 1)
      ≡ contains (h.top - k) (s ∷ h.accepted)
inside_shows s m ws h r le k k_in k_le =
    let it : (h.top - k == s) ≡ (k == 64 * ((m - s) / 64) + (m - s) % 64) =
      ground (arith, r.same_top) in
    elim (Bool-cases (k == 64 * ((m - s) / 64) + (m - s) % 64)) [
      | inl this ↦ rw (it, this)
      | inr that ↦ rw (it, that) (r.shows k k_in k_le)
    ]

-- A sequence number above the window.
ahead_Models :
    (s m : ℕ) (ws : List ℕ) (h : History)
    → Models (record { max_seq = m; words = ws }) h
    → m < s
    → Models
        (record { max_seq = s; words = mark (advance_words (s - m) ws) 0 0 })
        (record { top = s; accepted = s ∷ h.accepted })
ahead_Models s m ws h r lt =
    let (ok, moved) = advance_words_lem (s - m) ws r.words in
    record {
      words = mark-IsWords (advance_words (s - m) ws) 0 0 ok (omega arith) (omega arith);
      same_top = refl;
      bounded = (omega arith, All-le h.top s h.accepted (omega (arith, r.same_top)) r.bounded);
      shows = λ k k_in k_le.
          ap (λ b. b == 1)
            (mark-bit (advance_words (s - m) ws) 0 0 k ok (omega arith) (omega arith) k_in)
          ∙ ahead_shows s m ws h r lt k k_in k_le (moved k k_in);
    }

-- One inside it that was not accepted before.
inside_Models :
    (s m : ℕ) (ws : List ℕ) (h : History)
    → Models (record { max_seq = m; words = ws }) h
    → s ≤ m
    → m - s < 256
    → Models
        (record { max_seq = m; words = mark ws ((m - s) / 64) ((m - s) % 64) })
        (record h { accepted = s ∷ h.accepted })
inside_Models s m ws h r le near = record {
  words = mark-IsWords ws ((m - s) / 64) ((m - s) % 64) r.words (omega arith) (omega arith);
  same_top = r.same_top;
  bounded = (omega (arith, r.same_top), r.bounded);
  shows = λ k k_in k_le.
      ap (λ b. b == 1)
        (mark-bit ws ((m - s) / 64) ((m - s) % 64) k r.words (omega arith) (omega arith) k_in)
      ∙ inside_shows s m ws h r le k k_in k_le;
}

seen :
    (s : ℕ) (w : Window) (h : History)
    → Models w h
    → s ≤ w.max_seq
    → w.max_seq - s < 256
    → (bit w.words (w.max_seq - s) == 1) ≡ contains s h.accepted
seen s w h r le near =
    let back : h.top - (w.max_seq - s) ≡ s = omega (arith, r.same_top) in
    r.shows (w.max_seq - s) near (omega (arith, r.same_top)) ∙ ap (λ x. contains x h.accepted) back

replay_check_step :
    (s : ℕ) (w : Window) (h : History)
    → Models w h
    → ((replay_check s w).1 ≡ (judge s h).1) × Models (replay_check s w).0 (judge s h).0
unfolding replay_check judge
replay_check_step s w h r = elim (Bool-cases (ltb w.max_seq s)) [
  | inl ahead ↦
      let ahead' : ltb h.top s ≡ true = rw (← r.same_top) ahead in
      rw (ahead, ahead') (refl, ahead_Models s w.max_seq w.words h r (ltb→lt _ _ ahead))
  | inr not_ahead ↦
      let not_ahead' : ltb h.top s ≡ false = rw (← r.same_top) not_ahead in
      rw (not_ahead, not_ahead')
        (elim (Bool-cases (leb 256 (w.max_seq - s))) [
          | inl old ↦
              let old' : leb 256 (h.top - s) ≡ true = rw (← r.same_top) old in
              rw (old, old') (refl, r)
          | inr near ↦
              let near' : leb 256 (h.top - s) ≡ false = rw (← r.same_top) near in
              let le = ltb→le _ _ not_ahead in
              let same = seen s w h r le (ground arith) in
              let small = bit-lt w.words (w.max_seq - s) in
              rw (near, near', mark-test w.words (w.max_seq - s))
                (elim (Bool-cases (contains s h.accepted)) [
                  | inl again ↦
                      let set : (bit w.words (w.max_seq - s) == 0) ≡ false =
                        ground (arith, same, again) in
                      rw (again, set) (refl, r)
                  | inr new ↦
                      let clear : (bit w.words (w.max_seq - s) == 0) ≡ true =
                        ground (arith, same, new) in
                      rw (new, clear)
                        (refl, inside_Models s w.max_seq w.words h r le (ground arith))
                ])
        ])
]

replay_run-Models :
    (ss : List ℕ) (w : Window) (h : History) → Models w h → replay_run ss w ≡ judge_run ss h
unfolding replay_run judge_run
replay_run-Models [] w h r = refl
replay_run-Models (s ∷ ss) w h r =
    let (same, after) = replay_check_step s w h r in
    cc (same, replay_run-Models ss (replay_check s w).0 (judge s h).0 after)

-- On every sequence of records of a new connection, the sliding window gives the verdicts that the
-- whole history of accepted sequence numbers gives: accept what lies above the highest so far,
-- refuse what lies 256 or more below it, and of the rest accept exactly what was not accepted
-- before.
pub replay_run_refines : (ss : List ℕ) → replay_run ss fresh ≡ judge_run ss empty_history
replay_run_refines ss = replay_run-Models ss fresh empty_history (record {
  words = zeros-IsWords;
  same_top = refl;
  bounded = tt;
  shows = λ k k_in k_le. ap (λ b. b == 1) (bit-zeros k);
})
