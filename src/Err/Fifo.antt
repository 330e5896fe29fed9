-- ===== src/Err/Fifo.antt =====
-- The error ring of src/err.c is a queue of at most eight codes that drops its oldest code.
use opssl.Base.{
  ℕ, zero, suc, ◌+◌, ◌-◌, ◌%◌, ◌≤◌, ◌<◌, ◌≡◌, refl, sym, ap, ◌∙◌, ◌≢◌, Bool, false, Option, List,
  [], ◌∷◌, ◌++◌, arith, ltb, ◌==◌, if◌then◌else◌, length, get_or, set, length-set, get_or-set_self,
  get_or-set_ne, length-append, Bool-cases, inl, inr, ltb→lt, ltb→le,
}
use opssl.Err.{
  Category, Entry, ErrState, blank, pack, detect_category, write_entry, push, set_error, get, peek,
  clear,
}

-- The abstract queue, oldest code first.
abbrev Queue : Type 0
Queue = List ℕ

-- What holds of every state that the functions reach.
pub record IsValid (s : ErrState) : Type 0 where
  pub slots : length s.ring ≡ 8
  pub head_in : s.head < 8
  pub count_in : s.count ≤ 8

abbrev code_at : List Entry → ℕ → ℕ
code_at ring i = (get_or ring i blank).code

-- The codes of the `n` slots before `h`, oldest first.
abbrev pub before : List Entry → ℕ → ℕ → Queue
before ring h zero = []
before ring h (suc n) = before ring ((h + 7) % 8) n ++ (code_at ring ((h + 7) % 8) ∷ [])

abbrev pub contents : ErrState → Queue
contents s = before s.ring s.head s.count

before-oldest :
    (ring : List Entry) (h n : ℕ)
    → h < 8
    → n < 8
    → before ring h (suc n) ≡ code_at ring ((h + 7 - n) % 8) ∷ before ring h n
before-oldest ring h zero hh hn =
    ap (λ i. code_at ring i ∷ []) {x = (h + 7) % 8} {y = (h + 7 - 0) % 8} (omega arith)
before-oldest ring h (suc n) hh hn =
    ap (λ q. q ++ (code_at ring ((h + 7) % 8) ∷ []))
      (before-oldest ring ((h + 7) % 8) n (omega arith) (omega arith))
    ∙ ap (λ i. code_at ring i ∷ before ring h (suc n)) {x = ((h + 7) % 8 + 7 - n) % 8}
        {y = (h + 7 - suc n) % 8} (omega arith)

-- A write ahead of the slots that count does not show.
before-set :
    (ring : List Entry) (e : Entry) (h d n i : ℕ)
    → h < 8
    → i ≡ (h + d) % 8
    → d + n < 8
    → before (set ring i e) h n ≡ before ring h n
before-set ring e h d zero i hh hi hd = refl
before-set ring e h d (suc n) i hh hi hd =
    let other : i ≢ (h + 7) % 8 = omega arith in
    ap (λ x. before (set ring i e) ((h + 7) % 8) n ++ (x.code ∷ []))
      (get_or-set_ne ring i ((h + 7) % 8) e blank other)
    ∙ ap (λ q. q ++ (code_at ring ((h + 7) % 8) ∷ []))
        (before-set ring e ((h + 7) % 8) (d + 1) n i (omega arith) (omega arith) (omega arith))

before-write :
    (ring : List Entry) (e : Entry) (h n : ℕ)
    → length ring ≡ 8
    → h < 8
    → n < 8
    → before (set ring h e) ((h + 1) % 8) (suc n) ≡ before ring h n ++ (e.code ∷ [])
before-write ring e h n hr hh hn =
    let back : ((h + 1) % 8 + 7) % 8 ≡ h = omega arith in
    rw back (
      ap (λ x. before (set ring h e) h n ++ (x.code ∷ []))
        (get_or-set_self ring h e blank (omega arith))
      ∙ ap (λ q. q ++ (e.code ∷ [])) (before-set ring e h 0 n h hh (omega arith) (omega arith)))

-- Adding to the queue: the oldest code goes where eight are there.
abbrev pub dequeue : Queue → Queue
dequeue [] = []
dequeue (x ∷ q) = q

abbrev pub enqueue : ℕ → Queue → Queue
enqueue code q = if ltb (length q) 8 then q ++ (code ∷ []) else dequeue q ++ (code ∷ [])

abbrev pub oldest : Queue → ℕ
oldest [] = 0
oldest (x ∷ q) = x

length-before : (ring : List Entry) (h n : ℕ) → length (before ring h n) ≡ n
length-before ring h zero = refl
length-before ring h (suc n) = omega (
  arith,
  length-append (before ring ((h + 7) % 8) n) (code_at ring ((h + 7) % 8) ∷ []),
  length-before ring ((h + 7) % 8) n,
)

write_entry-IsValid : (e : Entry) (s : ErrState) → IsValid s → IsValid (write_entry e s)
unfolding write_entry
write_entry-IsValid e s v = ground (arith, length-set s.ring s.head e)

write_entry_refines :
    (e : Entry) (s : ErrState)
    → IsValid s
    → contents (write_entry e s) ≡ enqueue e.code (contents s)
unfolding write_entry
write_entry_refines e s v = elim (Bool-cases (ltb s.count 8)) [
  | inl room ↦
      rw (length-before s.ring s.head s.count, room, one_more)
        (before-write s.ring e s.head s.count v.slots v.head_in (ltb→lt _ _ room))
  | inr full ↦
      rw (length-before s.ring s.head s.count, full, eight (ltb→le _ _ full))
        (before-write s.ring e s.head 7 v.slots v.head_in (omega arith)
          ∙ ap (λ q. dequeue q ++ (e.code ∷ []))
              (sym (before-oldest s.ring s.head 7 v.head_in (omega arith))))
]
  where
    one_more : s.count + 1 ≡ suc s.count
    one_more = omega arith

    eight : 8 ≤ s.count → s.count ≡ 8
    eight h = omega arith

abbrev state : List Entry → ℕ → ℕ → ErrState
state ring h n = record { ring = ring; head = h; count = n }

get_at :
    (ring : List Entry) (h n : ℕ)
    → IsValid (state ring h n)
    → let s = state ring h n in
      ((get s).1 ≡ oldest (contents s))
      × (contents (get s).0 ≡ dequeue (contents s))
      × (peek s ≡ oldest (contents s))
      × IsValid (get s).0
unfolding get peek
get_at ring h zero v = (refl, refl, refl, v)
get_at ring h (suc n) v =
    let split = before-oldest ring h n v.head_in (omega arith) in
    let index = ap (code_at ring) {x = (h + 8 - suc n) % 8} {y = (h + 7 - n) % 8} (omega arith) in
    let some_left : (suc n == 0) ≡ false = ground arith in
    rw some_left (
      index ∙ sym (ap oldest split),
      ap (before ring h) {x = suc n - 1} {y = n} (omega arith) ∙ sym (ap dequeue split),
      index ∙ sym (ap oldest split),
      omega arith,
    )

-- The calls of one thread.
pub data Call : Type 0 where
  push_call : Bool → Category → ℕ → List ℕ → ℕ → Call
  set_error_call : Bool → List ℕ → ℕ → ℕ → Option (List ℕ) → Call
  get_call peek_call clear_call : Call

-- The calls in order, with what opssl_err_get and opssl_err_peek return.
unfoldable pub run : List Call → ErrState → List ℕ
run [] s = []
run (push_call b c r f l ∷ ks) s = run ks (push b c r f l s)
run (set_error_call b f l r m ∷ ks) s = run ks (set_error b f l r m s)
run (get_call ∷ ks) s = let (s', e) = get s in e ∷ run ks s'
run (peek_call ∷ ks) s = peek s ∷ run ks s
run (clear_call ∷ ks) s = run ks (clear s)

unfoldable pub run_queue : List Call → Queue → List ℕ
run_queue [] q = []
run_queue (push_call b c r f l ∷ ks) q = run_queue ks (enqueue (pack c r) q)
run_queue (set_error_call b f l r m ∷ ks) q = run_queue ks (enqueue (pack (detect_category r) r) q)
run_queue (get_call ∷ ks) q = oldest q ∷ run_queue ks (dequeue q)
run_queue (peek_call ∷ ks) q = oldest q ∷ run_queue ks q
run_queue (clear_call ∷ ks) q = run_queue ks []

-- From every valid state, and so from the zeroed one of a new thread, any sequence of calls returns
-- what a queue of at most eight codes returns that drops its oldest code to take a ninth, and gives
-- 0 where it is empty.
pub run_refines : (ks : List Call) (s : ErrState) → IsValid s → run ks s ≡ run_queue ks (contents s)
unfolding run run_queue push set_error clear
run_refines [] s v = refl
run_refines (push_call b c r f l ∷ ks) s v =
    run_refines ks (push b c r f l s) (write_entry-IsValid _ s v)
    ∙ ap (run_queue ks) (write_entry_refines _ s v)
run_refines (set_error_call b f l r m ∷ ks) s v =
    run_refines ks (set_error b f l r m s) (write_entry-IsValid _ s v)
    ∙ ap (run_queue ks) (write_entry_refines _ s v)
run_refines (get_call ∷ ks) s v =
    let (code, rest, same, ok) = get_at s.ring s.head s.count v in
    cc (code, run_refines ks (get s).0 ok, rest)
run_refines (peek_call ∷ ks) s v =
    let (code, rest, same, ok) = get_at s.ring s.head s.count v in cc (same, run_refines ks s v)
run_refines (clear_call ∷ ks) s v = run_refines ks (clear s) (omega arith)
