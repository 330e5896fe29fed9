-- ===== src/Dtls/Replay.antt =====
-- dtls_replay_check of src/tls/dtls.c: a window of 256 bits in four 64-bit words; bit `k` stands for
-- the sequence number `max_seq - k`.
pub mod Shift
pub mod Loop
pub mod Mark
pub mod Refine
use opssl.Base.{
  ℕ, zero, suc, ◌+◌, ◌-◌, ◌*◌, ◌/◌, ◌%◌, ◌^◌, Bool, true, false, List, [], ◌∷◌, bit_and, bit_or,
  get_or, set, ltb, leb, ◌==◌, if◌then◌else◌,
}
use opssl.Bytes.{shl64}

abbrev pub window_words : ℕ
window_words = 4

abbrev pub window_bits : ℕ
window_bits = 256

-- dtls_replay_window_t
pub record Window : Type 0 where
  pub max_seq : ℕ
  pub words : List ℕ

abbrev pub word : List ℕ → ℕ → ℕ
word w i = get_or w i 0

-- opssl_dtls_set_replay_window, and the state of a new connection
abbrev pub fresh : Window
fresh = record { max_seq = 0; words = 0 ∷ 0 ∷ 0 ∷ 0 ∷ [] }

-- The loop that clears the words.
unfoldable pub clear_words : ℕ → List ℕ → List ℕ
clear_words zero w = w
clear_words (suc n) w = clear_words n (set w n 0)

-- The new value of word `i`: `src` is `i - word_shift`, as a signed number.
unfoldable pub moved : ℕ → ℕ → List ℕ → ℕ → ℕ
moved word_shift bit_shift w i =
    let hi = if leb word_shift i then word w (i - word_shift) else 0 in
    let lo = if leb (word_shift + 1) i then word w (i - word_shift - 1) else 0 in
    if bit_shift == 0 then hi else bit_or (shl64 hi bit_shift) (lo / 2 ^ (64 - bit_shift))

-- The loops from the last word down, in place: `n` words are left.
unfoldable pub shift_words : ℕ → ℕ → ℕ → List ℕ → List ℕ
shift_words zero word_shift bit_shift w = w
shift_words (suc n) word_shift bit_shift w =
    shift_words n word_shift bit_shift (set w n (moved word_shift bit_shift w n))

-- The window moved up by `shift`.
unfoldable pub advance_words : ℕ → List ℕ → List ℕ
advance_words shift w =
    if leb window_bits shift
    then clear_words window_words w
    else shift_words window_words (shift / 64) (shift % 64) w

-- dtls_replay_check: the window that it leaves, and whether it accepts.
unfoldable pub replay_check : ℕ → Window → Window × Bool
replay_check seq w =
    let ahead = advance_words (seq - w.max_seq) w.words in
    let diff = w.max_seq - seq in
    let here = word w.words (diff / 64) in
    let mask = 2 ^ (diff % 64) in
    if ltb w.max_seq seq
    then (record { max_seq = seq; words = set ahead 0 (bit_or (word ahead 0) 1) }, true)
    else if leb window_bits diff
    then (w, false)
    else if bit_and here mask == 0
    then (record w { words = set w.words (diff / 64) (bit_or here mask) }, true)
    else (w, false)

-- A sequence of checks: what each returns.
unfoldable pub replay_run : List ℕ → Window → List Bool
replay_run [] w = []
replay_run (s ∷ ss) w = let (w', ok) = replay_check s w in ok ∷ replay_run ss w'
