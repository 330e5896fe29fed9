-- ===== src/Dtls/Replay/Loop.antt =====
-- The in-place loops of dtls_replay_check as one step on the bits.
use opssl.Base.{
  ℕ, zero, suc, ◌+◌, ◌-◌, ◌*◌, ◌/◌, ◌%◌, ◌≤◌, ◌<◌, ◌≡◌, refl, sym, ap, ◌∙◌, false, List, [], ◌∷◌,
  arith, set, length, ltb, leb, ◌==◌, length-set, get_or-set_self, get_or-set_ne, get_or_beyond,
  Bool-cases, inl, inr, ltb→lt, ltb→le,
}
use opssl.Base.Digits.{digit, digit-zero}
use opssl.Dtls.Replay.{word, clear_words, moved, shift_words, advance_words}
use opssl.Dtls.Replay.Shift.{bit, shifted, IsWords, or_above, source, source-narrow, moved-bit}

-- A write at or above the word does not change what the word becomes.
moved-set :
    (ws bs : ℕ) (w : List ℕ) (n i v : ℕ) → i < n → moved ws bs (set w n v) i ≡ moved ws bs w i
unfolding moved
moved-set ws bs w n i v h =
    rw (
      get_or-set_ne w n (i - ws) v 0 (omega arith),
      get_or-set_ne w n (i - ws - 1) v 0 (omega arith),
    )

shift_words-above :
    (n ws bs : ℕ) (w : List ℕ) (i : ℕ) → n ≤ i → word (shift_words n ws bs w) i ≡ word w i
unfolding shift_words
shift_words-above zero ws bs w i h = refl
shift_words-above (suc n) ws bs w i h =
    shift_words-above n ws bs (set w n (moved ws bs w n)) i (omega arith)
    ∙ get_or-set_ne w n i (moved ws bs w n) 0 (omega arith)

-- Each word of the loop's result comes from the words before the loop.
shift_words-word :
    (n ws bs : ℕ) (w : List ℕ) (i : ℕ)
    → length w ≡ 4
    → n ≤ 4
    → i < n
    → word (shift_words n ws bs w) i ≡ moved ws bs w i
unfolding shift_words
shift_words-word zero ws bs w i l m h = absurd (omega arith)
shift_words-word (suc n) ws bs w i l m h =
    let v = moved ws bs w n in
    pick
      (λ k.
        shift_words-word n ws bs (set w n v) i (length-set w n v ∙ l) (omega arith) k
        ∙ moved-set ws bs w n i v k)
      (λ k.
        shift_words-above n ws bs (set w n v) i (omega arith)
        ∙ ap (λ x. word (set w n v) x) k
        ∙ get_or-set_self w n v 0 (omega arith)
        ∙ ap (moved ws bs w) (sym k))
  where
    pick : {P : Type 0} → (i < n → P) → (i ≡ n → P) → P
    pick f g = elim (Bool-cases (ltb i n)) [
      | inl below ↦ f (ltb→lt _ _ below)
      | inr above ↦ g (omega (arith, ltb→le _ _ above))
    ]

length-shift_words : (n ws bs : ℕ) (w : List ℕ) → length (shift_words n ws bs w) ≡ length w
unfolding shift_words
length-shift_words zero ws bs w = refl
length-shift_words (suc n) ws bs w =
    length-shift_words n ws bs (set w n (moved ws bs w n)) ∙ length-set w n (moved ws bs w n)

moved-narrow :
    (ws bs : ℕ) (w : List ℕ) (i j : ℕ)
    → IsWords w
    → bs < 64
    → 64 ≤ j
    → digit (moved ws bs w i) j ≡ 0
unfolding moved source
moved-narrow ws bs w i j v h k = elim (Bool-cases (bs == 0)) [
  | inl none_left ↦ rw none_left (source-narrow (leb ws i) w (i - ws) j v k)
  | inr some_left ↦
      rw some_left
        (or_above _ _ bs j h k (λ m q. source-narrow (leb (ws + 1) i) w (i - ws - 1) m v q))
]

abbrev zeros : List ℕ
zeros = 0 ∷ 0 ∷ 0 ∷ 0 ∷ []

clear_words-zeros : (w : List ℕ) → length w ≡ 4 → clear_words 4 w ≡ zeros
unfolding clear_words
clear_words-zeros [] h = absurd (omega arith)
clear_words-zeros (a ∷ []) h = absurd (omega arith)
clear_words-zeros (a ∷ b ∷ []) h = absurd (omega arith)
clear_words-zeros (a ∷ b ∷ c ∷ []) h = absurd (omega arith)
clear_words-zeros (a ∷ b ∷ c ∷ d ∷ []) h = refl
clear_words-zeros (a ∷ b ∷ c ∷ d ∷ e ∷ w) h = absurd (omega arith)

word-zeros : (i : ℕ) → word zeros i ≡ 0
word-zeros zero = refl
word-zeros (suc zero) = refl
word-zeros (suc (suc zero)) = refl
word-zeros (suc (suc (suc zero))) = refl
word-zeros (suc (suc (suc (suc i)))) = refl

digit-zeros : (i j : ℕ) → digit (word zeros i) j ≡ 0
digit-zeros i j = rw (word-zeros i) (digit-zero j)

pub zeros-IsWords : IsWords zeros
zeros-IsWords = record { four = refl; narrow = λ i j h. digit-zeros i j }

pub bit-zeros : (k : ℕ) → bit zeros k ≡ 0
bit-zeros k = digit-zeros (k / 64) (k % 64)

shift_words-narrow :
    (ws bs : ℕ) (w : List ℕ) (i j : ℕ)
    → IsWords w
    → bs < 64
    → 64 ≤ j
    → digit (word (shift_words 4 ws bs w) i) j ≡ 0
shift_words-narrow ws bs w i j v h k = elim (Bool-cases (ltb i 4)) [
  | inl inside ↦
      rw (shift_words-word 4 ws bs w i v.four (omega arith) (ltb→lt _ _ inside))
        (moved-narrow ws bs w i j v h k)
  | inr outside ↦
      rw
        (get_or_beyond (shift_words 4 ws bs w) i 0
          (omega (arith, length-shift_words 4 ws bs w, v.four, ltb→le _ _ outside)))
        (digit-zero j)
]

-- Moving the window by `s` moves each of its 256 bits by `s`, and brings in zeros.
pub advance_words_lem :
    (s : ℕ) (w : List ℕ)
    → IsWords w
    → IsWords (advance_words s w) × ((k : ℕ) → k < 256 → bit (advance_words s w) k ≡ shifted w s k)
unfolding advance_words
advance_words_lem s w v = elim (Bool-cases (leb 256 s)) [
  | inl far ↦
      rw (far, clear_words-zeros w v.four)
        (
          zeros-IsWords,
          λ k h. bit-zeros k ∙ (let behind : leb s k ≡ false = ground arith in rw behind),
        )
  | inr near ↦ rw near (
    record {
      four = length-shift_words 4 (s / 64) (s % 64) w ∙ v.four;
      narrow = λ i j h. shift_words-narrow (s / 64) (s % 64) w i j v (omega arith) h;
    },
    λ k h.
        ap (λ x. digit x (k % 64))
          (shift_words-word 4 (s / 64) (s % 64) w (k / 64) v.four (omega arith) (omega arith))
        ∙ moved-bit (s / 64) (s % 64) w (k / 64) (k % 64) v (omega arith) (omega arith)
        ∙ (λ t. shifted w (whole s t) (whole k t)),
  )
]
  where
    whole : (n : ℕ) → 64 * (n / 64) + n % 64 ≡ n
    whole n = omega arith
