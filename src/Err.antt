-- ===== src/Err.antt =====
-- src/err.c and the macros of include/opssl/err.h: the error ring of one thread. `release` says
-- whether the build defines NDEBUG. An entry's message is the text before its NUL.
pub mod Fifo
pub mod Codes
use opssl.Base.{
  ℕ, ◌+◌, ◌-◌, ◌*◌, ◌/◌, ◌%◌, ◌^◌, Bool, Option, none, some, List, [], ◌∷◌, bit_or, bit_and, get_or,
  set, take, replicate, ltb, leb, ◌==◌, if◌then◌else◌, ◌&&◌,
}

-- opssl_err_category_t
pub data Category : Type 0 where
  no_error tls crypto x509 io memory internal : Category

unfoldable pub category_code : Category → ℕ
category_code no_error = 0
category_code tls = 1
category_code crypto = 2
category_code x509 = 3
category_code io = 4
category_code memory = 5
category_code internal = 6

-- OPSSL_ERR_PACK
unfoldable pub pack : Category → ℕ → ℕ
unfolding category_code
pack cat reason =
    bit_or (category_code cat * 2 ^ 24 % 2 ^ 32) (bit_and (reason % 2 ^ 32) 0x00FFFFFF)

-- OPSSL_ERR_GET_CATEGORY, OPSSL_ERR_GET_REASON
unfoldable pub get_category : ℕ → ℕ
get_category e = e / 2 ^ 24

unfoldable pub get_reason : ℕ → ℕ
get_reason e = bit_and e 0x00FFFFFF

abbrev pub ring_size : ℕ
ring_size = 8

abbrev pub msg_size : ℕ
msg_size = 128

-- struct err_entry
pub record Entry : Type 0 where
  pub code : ℕ
  pub file : Option (List ℕ)
  pub line : ℕ
  pub msg : List ℕ

-- struct err_state
pub record ErrState : Type 0 where
  pub ring : List Entry
  pub head : ℕ
  pub count : ℕ

abbrev pub blank : Entry
blank = record { code = 0; file = none; line = 0; msg = [] }

-- `err_tls = {0}`
abbrev pub fresh : ErrState
fresh = record { ring = replicate ring_size blank; head = 0; count = 0 }

unfoldable pub detect_category : ℕ → Category
detect_category reason =
    if leb 1000 reason && ltb reason 2000
    then tls
    else if leb 2000 reason && ltb reason 3000
    then crypto
    else if leb 3000 reason && ltb reason 4000
    then x509
    else if leb 4000 reason && ltb reason 5000
    then io
    else if leb 5000 reason && ltb reason 6000
    then memory
    else if leb 6000 reason && ltb reason 7000
    then internal
    else internal

-- The write at `head` and the advance that opssl_err_push and opssl_set_error share.
unfoldable pub write_entry : Entry → ErrState → ErrState
write_entry e s = record {
  ring = set s.ring s.head e;
  head = (s.head + 1) % ring_size;
  count = if ltb s.count ring_size then s.count + 1 else s.count;
}

-- opssl_err_push
unfoldable pub push : Bool → Category → ℕ → List ℕ → ℕ → ErrState → ErrState
unfolding write_entry
push release cat reason file line s =
    write_entry
      (record {
        code = pack cat reason;
        file = if release then none else some file;
        line = if release then 0 else line;
        msg = [];
      })
      s

-- opssl_set_error; `file` and `line` are __FILE__ and __LINE__ of err.c. snprintf cuts the message
-- to what the field holds.
unfoldable pub set_error : Bool → List ℕ → ℕ → ℕ → Option (List ℕ) → ErrState → ErrState
unfolding write_entry
set_error release file line reason msg s =
    write_entry
      (record {
        code = pack (detect_category reason) reason;
        file = if release then none else some file;
        line = if release then 0 else line;
        msg = elim msg [ some m ↦ take (msg_size - 1) m | none ↦ [] ];
      })
      s

-- The index of the oldest entry.
abbrev pub tail : ErrState → ℕ
tail s = (s.head + ring_size - s.count) % ring_size

-- opssl_err_get
unfoldable pub get : ErrState → ErrState × ℕ
get s =
    if s.count == 0
    then (s, 0)
    else (record s { count = s.count - 1 }, (get_or s.ring (tail s) blank).code)

-- opssl_err_peek
unfoldable pub peek : ErrState → ℕ
peek s = if s.count == 0 then 0 else (get_or s.ring (tail s) blank).code

-- opssl_err_clear
unfoldable pub clear : ErrState → ErrState
clear s = record s { count = 0; head = 0 }
