-- ===== src/Session.antt =====
-- opssl_session_export and opssl_session_import of src/io/export.c. No pointer is NULL but the
-- buffer of an export, which then only asks for the size. The codes that both record in the error
-- ring are left out.
pub mod Format
pub mod Roundtrip
pub mod Refusals
pub mod Wrapped
use opssl.Base.{
  ℕ, ◌+◌, ◌-◌, ◌*◌, ◌/◌, ◌%◌, ◌^◌, Bool, true, false, not, ◌&&◌, ◌||◌, Option, none, some, List, [],
  ◌∷◌, ◌++◌, length, take, drop, ltb, ◌==◌, if◌then◌else◌,
}
use mathlib.Core.Option
use opssl.Bytes.{byte_at, be16, be32, be64, put_be16, put_be32, put_be64}
use opssl.Conn.{
  Conn, get_read_key, get_write_key, get_read_iv, get_write_iv, get_flags, set_cipher, set_read_key,
  set_write_key, set_read_iv, set_write_iv, set_read_seq, set_write_seq, set_flags,
}

abbrev pub export_magic : ℕ
export_magic = 0x4F505353

abbrev pub export_version : ℕ
export_version = 1

-- write_be16, write_be32, write_be64, read_be16, read_be32, read_be64: the code of the functions in
-- include/opssl/platform.h once more.
abbrev pub write_be16 : ℕ → List ℕ
write_be16 = put_be16

abbrev pub write_be32 : ℕ → List ℕ
write_be32 = put_be32

abbrev pub write_be64 : ℕ → List ℕ
write_be64 = put_be64

abbrev pub read_be16 : List ℕ → ℕ
read_be16 = be16

abbrev pub read_be32 : List ℕ → ℕ
read_be32 = be32

abbrev pub read_be64 : List ℕ → ℕ
read_be64 = be64

-- One direction of a connection, on its way out or in.
pub record Half : Type 0 where
  pub key : List ℕ
  pub iv : List ℕ
  pub seq : ℕ

-- What an export is made of.
pub record State : Type 0 where
  pub cipher : ℕ
  pub flags : ℕ
  pub reading : Half
  pub writing : Half

abbrev both : Option (List ℕ) → Option (List ℕ) → ℕ → Option Half
both none iv seq = none
both (some k) none seq = none
both (some k) (some v) seq = some (record { key = k; iv = v; seq = seq })

abbrev gathered : ℕ → ℕ → Option Half → Option Half → Option State
gathered cipher flags none w = none
gathered cipher flags (some r) none = none
gathered cipher flags (some r) (some w) =
    some (record { cipher = cipher; flags = flags; reading = r; writing = w })

-- The first part of opssl_session_export: the state, in local buffers.
unfoldable pub gather : Conn → Option State
gather c =
    gathered c.cipher (get_flags c) (both (get_read_key c 32) (get_read_iv c 16) c.read_seq)
      (both (get_write_key c 32) (get_write_iv c 16) c.write_seq)

-- `required_len`
unfoldable pub required_len : State → ℕ
required_len s =
    4
    + 2
    + 2
    + 4
    + 2
    + length s.reading.key
    + 1
    + length s.reading.iv
    + 8
    + 2
    + length s.writing.key
    + 1
    + length s.writing.iv
    + 8

-- The bytes of one direction, and of the whole.
unfoldable pub write_half : Half → List ℕ
write_half h =
    write_be16 (length h.key % 2 ^ 16)
    ++ (h.key ++ ((length h.iv % 2 ^ 8) ∷ (h.iv ++ write_be64 h.seq)))

unfoldable pub write_state : State → List ℕ
write_state s =
    write_be32 export_magic
    ++ (write_be16 export_version
        ++ (write_be16 (s.cipher % 2 ^ 16)
            ++ (write_be32 s.flags ++ (write_half s.reading ++ write_half s.writing))))

-- How an export ends: refused for the state of the connection, the size that is asked for, the
-- size that was not there, or the bytes.
pub data Exported : Type 0 where
  refused : Exported
  size too_small : ℕ → Exported
  written : List ℕ → Exported

abbrev pub put_out : Option State → Option ℕ → ℕ → Exported
put_out none buf_len max_len = refused
put_out (some s) none max_len = size (required_len s)
put_out (some s) (some buf_len) max_len =
    if ltb buf_len (required_len s) || ltb max_len (required_len s)
    then too_small (required_len s)
    else written (write_state s)

-- opssl_session_export: `buf_len` is `none` where `buf` is NULL.
unfoldable pub session_export : Conn → Option ℕ → ℕ → Exported
session_export c buf_len max_len = put_out (gather c) buf_len max_len

-- One direction read back, and what follows it.
unfoldable pub read_half : List ℕ → Option (Half × List ℕ)
read_half p =
    let n = read_be16 p in
    let p1 = drop 2 p in
    let p2 = drop n p1 in
    let m = byte_at p2 0 in
    let p3 = drop 1 p2 in
    if ltb (length p) 2
    then none
    else if n == 0 || ltb 32 n || ltb (length p1) n
    then none
    else if ltb (length p2) 1
    then none
    else if ltb 16 m || ltb (length p3) (m + 8)
    then none
    else some (
      record { key = take n p1; iv = take m p3; seq = read_be64 (drop m p3) },
      drop 8 (drop m p3),
    )

abbrev pub with_writing : ℕ → ℕ → Half → Option (Half × List ℕ) → Option State
with_writing cipher flags r none = none
with_writing cipher flags r (some (w, rest)) =
    some (record { cipher = cipher; flags = flags; reading = r; writing = w })

abbrev pub with_reading : ℕ → ℕ → Option (Half × List ℕ) → Option State
with_reading cipher flags none = none
with_reading cipher flags (some (r, rest)) = with_writing cipher flags r (read_half rest)

-- The parser of opssl_session_import. Each test `ptr + n > end` asks how much is left; what follows
-- the second direction is not looked at.
unfoldable pub read_state : List ℕ → Option State
read_state p =
    if ltb (length p) 12
    then none
    else if not (read_be32 p == export_magic)
    then none
    else if not (read_be16 (drop 4 p) == export_version)
    then none
    else with_reading (read_be16 (drop 6 p)) (read_be32 (drop 8 p)) (read_half (drop 12 p))

-- `f(…) < 0 ||`: the next call is made where this one did not fail.
abbrev pub and_then : Conn × Bool → (Conn → Conn × Bool) → Conn × Bool
and_then (c, true) f = f c
and_then (c, false) f = (c, false)

-- The setters, in order, up to the first that fails.
unfoldable pub apply_state : State → Conn → Conn × Bool
apply_state s c =
    let cs =
      and_then
        (and_then
          (and_then (set_read_key s.reading.key (set_cipher s.cipher c))
            (set_write_key s.writing.key))
          (set_read_iv s.reading.iv))
        (set_write_iv s.writing.iv) in
    and_then cs
      (λ d. (set_flags s.flags (set_write_seq s.writing.seq (set_read_seq s.reading.seq d)), true))

abbrev pub applied : Option State → Conn → Conn × Bool
applied none c = (c, false)
applied (some s) c = apply_state s c

-- opssl_session_import: `false` is the return value -1.
unfoldable pub session_import : List ℕ → Conn → Conn × Bool
session_import p c = applied (read_state p) c
