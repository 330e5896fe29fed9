-- ===== src/Crypto/ChaCha20/Stream.antt =====
-- ChaCha20 is the exclusive or of its input with a stream of blocks, and so undoes itself.
use opssl.Base.{
  ℕ, zero, suc, ◌*◌, ◌≤◌, ◌≡◌, refl, sym, ap, ◌∙◌, List, [], ◌∷◌, ◌++◌, bit_xor, length, take, drop,
  length-append, length-drop, length-set, arith,
}
use opssl.Base.Xor.{bit_xor_twice}
use opssl.Crypto.LittleEndian.{store32_le}
use opssl.Crypto.ChaCha20.{
  half_step, quarter_round, double_round, double_rounds, add_words, chacha20_block, store_words,
  xor_bytes, initial_state, next_state, chacha20_loop, chacha20,
}

-- The stream of the blocks with the counters that follow one another.
unfoldable pub key_stream : ℕ → List ℕ → List ℕ
key_stream zero state = []
key_stream (suc n) state = store_words (chacha20_block state) ++ key_stream n (next_state state)

length-half_step : (a b d n : ℕ) (x : List ℕ) → length (half_step a b d n x) ≡ length x
unfolding half_step
length-half_step a b d n x = length-set _ d _ ∙ length-set _ d _ ∙ length-set x a _

length-quarter_round : (a b c d : ℕ) (x : List ℕ) → length (quarter_round a b c d x) ≡ length x
unfolding quarter_round
length-quarter_round a b c d x =
    length-half_step c d b 7 _
    ∙ length-half_step a b d 8 _
    ∙ length-half_step c d b 12 _
    ∙ length-half_step a b d 16 x

length-double_round : (x : List ℕ) → length (double_round x) ≡ length x
unfolding double_round
length-double_round x =
    length-quarter_round 3 4 9 14 _
    ∙ length-quarter_round 2 7 8 13 _
    ∙ length-quarter_round 1 6 11 12 _
    ∙ length-quarter_round 0 5 10 15 _
    ∙ length-quarter_round 3 7 11 15 _
    ∙ length-quarter_round 2 6 10 14 _
    ∙ length-quarter_round 1 5 9 13 _
    ∙ length-quarter_round 0 4 8 12 x

length-double_rounds : (n : ℕ) (x : List ℕ) → length (double_rounds n x) ≡ length x
unfolding double_rounds
length-double_rounds zero x = refl
length-double_rounds (suc n) x = length-double_rounds n (double_round x) ∙ length-double_round x

length-add_words : (xs ys : List ℕ) → length xs ≡ length ys → length (add_words xs ys) ≡ length ys
unfolding add_words
length-add_words [] [] e = refl
length-add_words [] (y ∷ ys) e = absurd (omega arith)
length-add_words (x ∷ xs) [] e = absurd (omega arith)
length-add_words (x ∷ xs) (y ∷ ys) e = ap suc (length-add_words xs ys (omega arith))

length-store_words : (ws : List ℕ) → length (store_words ws) ≡ 4 * length ws
unfolding store_words store32_le
length-store_words [] = refl
length-store_words (w ∷ ws) = omega (arith, length-store_words ws)

-- A block has 64 bytes.
length-block : (s : List ℕ) → length s ≡ 16 → length (store_words (chacha20_block s)) ≡ 64
unfolding chacha20_block
length-block s e =
    let words = length-add_words (double_rounds 10 s) s (length-double_rounds 10 s) in
    omega (arith, length-store_words (add_words (double_rounds 10 s) s))

length-next_state : (s : List ℕ) → length (next_state s) ≡ length s
unfolding next_state
length-next_state s = length-set s 12 _

pub length-xor_bytes :
    (xs ks : List ℕ) → length xs ≤ length ks → length (xor_bytes xs ks) ≡ length xs
unfolding xor_bytes
length-xor_bytes [] ks h = refl
length-xor_bytes (x ∷ xs) [] h = absurd (omega arith)
length-xor_bytes (x ∷ xs) (k ∷ ks) h = ap suc (length-xor_bytes xs ks (omega arith))

xor_bytes_twice : (xs ks : List ℕ) → length xs ≤ length ks → xor_bytes (xor_bytes xs ks) ks ≡ xs
unfolding xor_bytes
xor_bytes_twice [] ks h = refl
xor_bytes_twice (x ∷ xs) [] h = absurd (omega arith)
xor_bytes_twice (x ∷ xs) (k ∷ ks) h =
    (λ i. bit_xor_twice x k i ∷ xor_bytes_twice xs ks (omega arith) i)

-- A stream in two parts does its work in two parts.
xor_bytes-append :
    (xs ks later : List ℕ)
    → xor_bytes (take (length ks) xs) ks ++ xor_bytes (drop (length ks) xs) later
      ≡ xor_bytes xs (ks ++ later)
unfolding xor_bytes
xor_bytes-append xs [] later = refl
xor_bytes-append [] (k ∷ ks) later = refl
xor_bytes-append (x ∷ xs) (k ∷ ks) later = ap (λ l. bit_xor x k ∷ l) (xor_bytes-append xs ks later)

pub length-key_stream : (n : ℕ) (s : List ℕ) → length s ≡ 16 → length (key_stream n s) ≡ 64 * n
unfolding key_stream
length-key_stream zero s e = refl
length-key_stream (suc n) s e =
    let rest = length-key_stream n (next_state s) (length-next_state s ∙ e) in
    omega (
      arith,
      length-block s e,
      length-append (store_words (chacha20_block s)) (key_stream n (next_state s)),
    )

-- The loop, with a round for each byte or more, is the exclusive or with the stream.
loop_lem :
    (fuel : ℕ) (s input : List ℕ)
    → length s ≡ 16
    → length input ≤ fuel
    → chacha20_loop fuel s input ≡ xor_bytes input (key_stream fuel s)
unfolding chacha20_loop key_stream xor_bytes
loop_lem zero s [] e h = refl
loop_lem zero s (x ∷ xs) e h = absurd (omega arith)
loop_lem (suc fuel) s [] e h = refl
loop_lem (suc fuel) s (x ∷ xs) e h =
    let size = length-block s e in
    let later =
      loop_lem fuel (next_state s) (drop 64 (x ∷ xs)) (length-next_state s ∙ e)
        (omega (arith, length-drop 64 (x ∷ xs))) in
    let ks = store_words (chacha20_block s) in
    ap (λ l. xor_bytes (take 64 (x ∷ xs)) ks ++ l) later
    ∙ ap
        (λ k.
          xor_bytes (take k (x ∷ xs)) ks
          ++ xor_bytes (drop k (x ∷ xs)) (key_stream fuel (next_state s)))
        {x = 64} {y = length ks} (sym size)
    ∙ xor_bytes-append (x ∷ xs) ks (key_stream fuel (next_state s))

pub length-initial_state :
    (key nonce : List ℕ) (counter : ℕ) → length (initial_state key nonce counter) ≡ 16
unfolding initial_state
length-initial_state key nonce counter = refl

-- The output of opssl_chacha20 is, byte by byte, the exclusive or of its input with the blocks of
-- the states whose counters start at `counter` and go up by one; it has the length of the input.
pub chacha20-key_stream :
    (input key nonce : List ℕ) (counter : ℕ)
    → (chacha20 input key nonce counter
        ≡ xor_bytes input (key_stream (length input) (initial_state key nonce counter)))
      × (length (chacha20 input key nonce counter) ≡ length input)
unfolding chacha20
chacha20-key_stream input key nonce counter =
    let s = initial_state key nonce counter in
    let size = length-initial_state key nonce counter in
    let same = loop_lem (length input) s input size (omega arith) in
    (
      same,
      ap length same
          ∙ length-xor_bytes input (key_stream (length input) s)
              (omega (arith, length-key_stream (length input) s size)),
    )

-- Applied twice with the same key, nonce and counter, opssl_chacha20 gives back its input.
pub chacha20_twice :
    (input key nonce : List ℕ) (counter : ℕ)
    → chacha20 (chacha20 input key nonce counter) key nonce counter ≡ input
chacha20_twice input key nonce counter =
    let s = initial_state key nonce counter in
    let (out, size) = chacha20-key_stream input key nonce counter in
    let (again, _) = chacha20-key_stream (chacha20 input key nonce counter) key nonce counter in
    let enough = length-key_stream (length input) s (length-initial_state key nonce counter) in
    again
    ∙ ap (λ n. xor_bytes (chacha20 input key nonce counter) (key_stream n s)) size
    ∙ ap (λ l. xor_bytes l (key_stream (length input) s)) out
    ∙ xor_bytes_twice input (key_stream (length input) s) (omega arith)
