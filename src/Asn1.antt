-- ===== src/Asn1.antt =====
-- src/x509/asn1.c: the DER reader. A reader works on a parser and on the thread's error ring; it
-- returns both as the call leaves them, beside what goes through the out parameter (`none` for the
-- return value 0). The build is a release build, whose entries keep no file and line, and no pointer
-- argument is NULL.
pub mod Length
pub mod Element
pub mod Values
use opssl.Base.{
  ℕ, zero, suc, ◌+◌, ◌-◌, ◌*◌, ◌/◌, ◌^◌, Bool, true, false, not, Option, none, some, List, [], ◌∷◌,
  ◌++◌, bit_and, bit_or, ltb, leb, ◌==◌, if◌then◌else◌, ◌&&◌, ◌||◌,
}
use opssl.Bytes.{shl64}
use opssl.Cbs
use opssl.Cbs.{Cbs, Parser, is_empty, get_u8, peek_u8, get_bytes, copy_bytes}
use opssl.Err.{Category, internal, x509, ErrState, push}

pub record Input : Type 0 where
  pub cbs : Cbs
  pub errors : ErrState

abbrev pub Reader : Type 0 → Type 0
Reader A = Input → Input × Option A

abbrev pub resume : {A B : Type 0} → Input × Option A → (A → Reader B) → Input × Option B
resume (i, none) f = (i, none)
resume (i, some a) f = f a i

infixl 5 ◌>>=◌
abbrev pub ◌>>=◌ : {A B : Type 0} → Reader A → (A → Reader B) → Reader B
◌>>=◌ m f i = resume (m i) f

abbrev pub return : {A : Type 0} → A → Reader A
return a i = (i, some a)

-- OPSSL_ERR(cat, reason)
abbrev pub record_error : Category → ℕ → ErrState → ErrState
record_error cat reason = push true cat reason [] 0

-- `OPSSL_ERR(OPSSL_ERR_X509, reason); return 0;`
abbrev pub raise : {A : Type 0} → ℕ → Reader A
raise reason i = (record i { errors = record_error x509 reason i.errors }, none)

-- A call of the parser whose failure is returned as it is.
abbrev pub lifted : {A : Type 0} → Input → Cbs × Option A → Input × Option A
lifted i (c, r) = (record i { cbs = c }, r)

abbrev pub lift : {A : Type 0} → Parser A → Reader A
lift p i = lifted i (p i.cbs)

-- A call of the parser whose failure raises a reason.
abbrev pub expected : {A : Type 0} → ℕ → Input → Cbs × Option A → Input × Option A
expected reason i (c, none) = raise reason (record i { cbs = c })
expected reason i (c, some a) = (record i { cbs = c }, some a)

abbrev pub expect : {A : Type 0} → ℕ → Parser A → Reader A
expect reason p i = expected reason i (p i.cbs)

-- The same on a parser that is a local variable of the caller, which gets it back.
abbrev pub local : {A : Type 0} → ℕ → Cbs × Option A → Reader (Cbs × A)
local reason (c, none) = raise reason
local reason (c, some a) = return (c, a)

-- ASN1_…
abbrev pub asn1_boolean : ℕ
asn1_boolean = 0x01

abbrev asn1_integer : ℕ
asn1_integer = 0x02

abbrev pub asn1_bit_string : ℕ
asn1_bit_string = 0x03

abbrev asn1_octet_string : ℕ
asn1_octet_string = 0x04

abbrev asn1_oid : ℕ
asn1_oid = 0x06

abbrev asn1_utf8string : ℕ
asn1_utf8string = 0x0C

abbrev asn1_printablestring : ℕ
asn1_printablestring = 0x13

abbrev asn1_t61string : ℕ
asn1_t61string = 0x14

abbrev asn1_ia5string : ℕ
asn1_ia5string = 0x16

abbrev asn1_sequence : ℕ
asn1_sequence = 0x30

abbrev asn1_set : ℕ
asn1_set = 0x31

-- opssl_asn1_get_tag
unfoldable pub get_tag : Reader ℕ
get_tag = lift get_u8

-- The loop over the octets of a long length; SIZE_MAX >> 8 is 2 ^ 56 - 1.
unfoldable pub length_octets : ℕ → ℕ → Reader ℕ
length_octets zero len = return len
length_octets (suc n) len = do
  byte ← expect 4 get_u8
  if ltb (2 ^ 56 - 1) len then raise 5 else length_octets n (bit_or (shl64 len 8) byte)

-- opssl_asn1_get_length from the long form's number of octets on.
unfoldable pub long_length : ℕ → Reader ℕ
long_length num_octets =
    if num_octets == 0
    then raise 2
    else if ltb 8 num_octets
    then raise 3
    else (length_octets num_octets 0 >>= λ len.
        if ltb 1 num_octets && ltb len (2 ^ (8 * (num_octets - 1))) then raise 6 else return len)

-- What opssl_asn1_get_length does after the first octet.
unfoldable pub after_initial : ℕ → Reader ℕ
after_initial initial =
    if bit_and initial 0x80 == 0 then return initial else long_length (bit_and initial 0x7F)

-- opssl_asn1_get_length
unfoldable pub get_length : Reader ℕ
get_length = do initial ← expect 1 get_u8; after_initial initial

-- opssl_asn1_get_element
unfoldable pub get_element : ℕ → Reader Cbs
get_element expected_tag = do
  tag ← get_tag
  len ← get_length
  if not (tag == expected_tag) then raise 7 else lift (get_bytes len)

-- opssl_asn1_get_integer
unfoldable pub get_integer : Reader Cbs
get_integer = do
  content ← get_element asn1_integer
  if is_empty content then raise 8 else return content

-- opssl_asn1_get_sequence
unfoldable pub get_sequence : Reader Cbs
get_sequence = get_element asn1_sequence

-- opssl_asn1_get_set
unfoldable pub get_set : Reader Cbs
get_set = get_element asn1_set

-- The checks of opssl_asn1_get_bit_string on the unused-bits octet and what follows it.
unfoldable pub check_unused : Cbs × ℕ → Reader (Cbs × ℕ)
check_unused (content, unused) =
    if ltb 7 unused
    then raise 10
    else if is_empty content && not (unused == 0)
    then raise 11
    else return (content, unused)

-- opssl_asn1_get_bit_string
unfoldable pub get_bit_string : Reader (Cbs × ℕ)
get_bit_string = do
  raw_content ← get_element asn1_bit_string
  rest ← local 9 (get_u8 raw_content)
  check_unused rest

-- opssl_asn1_get_octet_string
unfoldable pub get_octet_string : Reader Cbs
get_octet_string = get_element asn1_octet_string

-- opssl_asn1_get_oid
unfoldable pub get_oid : Reader Cbs
get_oid = do content ← get_element asn1_oid; if is_empty content then raise 12 else return content

-- The checks of opssl_asn1_get_boolean on the content octet.
unfoldable pub check_boolean : Cbs × ℕ → Reader Bool
check_boolean (content, byte) =
    if not (byte == 0x00) && not (byte == 0xFF) then raise 15 else return (not (byte == 0x00))

-- opssl_asn1_get_boolean
unfoldable pub get_boolean : Reader Bool
get_boolean = do
  content ← get_element asn1_boolean
  if not (content.len == 1)
      then raise 13
      else (local 14 (get_u8 content) >>= λ rest. check_boolean rest)

-- A peek that raises where nothing is left.
abbrev peeked : ℕ → Option ℕ → Reader ℕ
peeked reason none = raise reason
peeked reason (some tag) = return tag

abbrev copied : Cbs × Option (List ℕ) → Reader (List ℕ)
copied (c, none) i = (i, none)
copied (c, some text) i = (i, some (text ++ (0 ∷ [])))

-- opssl_asn1_get_string: what is written to `out`, the terminating NUL included.
unfoldable pub get_string : ℕ → Reader (List ℕ)
get_string out_len i =
    if out_len == 0
    then (record i { errors = record_error internal 0 i.errors }, none)
    else resume (peeked 21 (peek_u8 i.cbs) i) λ tag.
      if not (tag == asn1_utf8string)
        && not (tag == asn1_printablestring)
        && not (tag == asn1_ia5string)
        && not (tag == asn1_t61string)
      then raise 22
      else (get_element tag >>= λ content.
          if leb out_len content.len then raise 23 else copied (copy_bytes content.len content))

-- opssl_asn1_skip_element
unfoldable pub skip_element : Reader (Unit {0})
skip_element = do _ ← get_tag; len ← get_length; lift (Cbs.skip len)
