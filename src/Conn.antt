-- ===== src/Conn.antt =====
-- The part of a connection that src/io/export.c reads and writes, with its accessors in
-- src/tls/handshake.c and the AEAD context of src/crypto/aes_gcm.c. No pointer is NULL, and
-- memory is there: opssl_aead_new returns a context.
pub mod Flags
pub mod Keys
use opssl.Base.{
  ℕ, ◌+◌, ◌^◌, ◌%◌, Bool, true, false, not, ◌&&◌, ◌||◌, Option, none, some, List, [], ◌∷◌, take,
  replicate, length, ltb, ◌==◌, if◌then◌else◌, bit_and, bit_or,
}
use opssl.Bytes.{store}
use opssl.Ciphersuite.{Params, get_params}
use opssl.Ciphersuite.Table.{Aead}

-- struct opssl_aead_ctx
pub record AeadCtx : Type 0 where
  pub algo : Aead
  pub key : List ℕ
  pub key_len : ℕ

-- The fields of struct opssl_conn that the accessors touch.
pub record Conn : Type 0 where
  pub cipher : ℕ
  pub read_cipher : Option AeadCtx
  pub write_cipher : Option AeadCtx
  pub read_iv : List ℕ
  pub write_iv : List ℕ
  pub read_seq : ℕ
  pub write_seq : ℕ
  pub read_encrypted : Bool
  pub write_encrypted : Bool
  pub is_tls13 : Bool
  pub write_key : List ℕ
  pub write_key_len : ℕ
  pub read_key : List ℕ
  pub read_key_len : ℕ
  pub shutdown_sent : Bool
  pub postquantum : Bool

abbrev pub max_key_len : ℕ
max_key_len = 32

abbrev pub conn_iv_len : ℕ
conn_iv_len = 12

-- opssl_aead_new
unfoldable pub aead_new : Aead → AeadCtx
aead_new algo = record { algo = algo; key = replicate max_key_len 0; key_len = 0 }

-- opssl_aead_set_key: `false` is the return value 0.
unfoldable pub aead_set_key : List ℕ → AeadCtx → AeadCtx × Bool
aead_set_key key ctx =
    if not (length key == 16) && not (length key == 32)
    then (ctx, false)
    else (record ctx { key = store ctx.key 0 key; key_len = length key }, true)

-- opssl_conn_get_read_key, opssl_conn_get_write_key with room for `cap` bytes: `none` is the return
-- value -1.
unfoldable pub key_out : List ℕ → ℕ → ℕ → Option (List ℕ)
key_out key len cap = if len == 0 then none else if ltb cap len then none else some (take len key)

unfoldable pub get_read_key : Conn → ℕ → Option (List ℕ)
get_read_key c cap = key_out c.read_key c.read_key_len cap

unfoldable pub get_write_key : Conn → ℕ → Option (List ℕ)
get_write_key c cap = key_out c.write_key c.write_key_len cap

-- opssl_conn_get_read_iv, opssl_conn_get_write_iv
unfoldable pub get_read_iv : Conn → ℕ → Option (List ℕ)
get_read_iv c cap = if ltb cap conn_iv_len then none else some (take conn_iv_len c.read_iv)

unfoldable pub get_write_iv : Conn → ℕ → Option (List ℕ)
get_write_iv c cap = if ltb cap conn_iv_len then none else some (take conn_iv_len c.write_iv)

-- opssl_conn_set_cipher, opssl_conn_set_read_seq, opssl_conn_set_write_seq
unfoldable pub set_cipher : ℕ → Conn → Conn
set_cipher cipher c = record c { cipher = cipher }

unfoldable pub set_read_seq : ℕ → Conn → Conn
set_read_seq seq c = record c { read_seq = seq }

unfoldable pub set_write_seq : ℕ → Conn → Conn
set_write_seq seq c = record c { write_seq = seq }

-- The context that a setter of a key makes. Where the cipher suite is unknown, the old context is
-- freed, and the pointer to it stays.
abbrev pub keyed : List ℕ → Option Params → Option AeadCtx → Option AeadCtx
keyed key none old = old
keyed key (some p) old = some (aead_set_key key (aead_new p.aead)).0

abbrev pub is_some {ℓ} : {A : Type ℓ} → Option A → Bool
is_some none = false
is_some (some a) = true

-- opssl_conn_set_read_key, opssl_conn_set_write_key: `false` is the return value -1. The other two,
-- 1 and the 0 of a key that the context did not take, the callers do not tell apart.
unfoldable pub set_read_key : List ℕ → Conn → Conn × Bool
set_read_key key c = if ltb max_key_len (length key) then (c, false) else (
  record c {
    read_key = store c.read_key 0 key;
    read_key_len = length key;
    read_cipher = keyed key (get_params c.cipher) c.read_cipher;
  },
  is_some (get_params c.cipher),
)

unfoldable pub set_write_key : List ℕ → Conn → Conn × Bool
set_write_key key c = if ltb max_key_len (length key) then (c, false) else (
  record c {
    write_key = store c.write_key 0 key;
    write_key_len = length key;
    write_cipher = keyed key (get_params c.cipher) c.write_cipher;
  },
  is_some (get_params c.cipher),
)

-- opssl_conn_set_read_iv, opssl_conn_set_write_iv
unfoldable pub set_read_iv : List ℕ → Conn → Conn × Bool
set_read_iv iv c =
    if ltb conn_iv_len (length iv)
    then (c, false)
    else (record c { read_iv = store c.read_iv 0 iv }, true)

unfoldable pub set_write_iv : List ℕ → Conn → Conn × Bool
set_write_iv iv c =
    if ltb conn_iv_len (length iv)
    then (c, false)
    else (record c { write_iv = store c.write_iv 0 iv }, true)

-- `if (b) flags |= (1u << k)`
abbrev with_flag : Bool → ℕ → ℕ → ℕ
with_flag b k flags = if b then bit_or flags (2 ^ k) else flags

-- opssl_conn_get_flags
abbrev pub flags_of : Bool → Bool → Bool → Bool → Bool → ℕ
flags_of a b c d e = with_flag e 4 (with_flag d 3 (with_flag c 2 (with_flag b 1 (with_flag a 0 0))))

unfoldable pub get_flags : Conn → ℕ
get_flags c = flags_of c.is_tls13 c.read_encrypted c.write_encrypted c.shutdown_sent c.postquantum

-- `(flags & (1u << k)) != 0`
abbrev pub flag : ℕ → ℕ → Bool
flag flags k = not (bit_and flags (2 ^ k) == 0)

-- opssl_conn_set_flags
unfoldable pub set_flags : ℕ → Conn → Conn
set_flags flags c = record c {
  is_tls13 = flag flags 0;
  read_encrypted = flag flags 1;
  write_encrypted = flag flags 2;
  shutdown_sent = flag flags 3;
  postquantum = flag flags 4;
}
