-- ===== src/Cbs.antt =====
-- The parser half of src/crypto/cbs.c and include/opssl/cbs.h. An `opssl_cbs_t` is the bytes from
-- its pointer to the end of the object that it points into, with the length of the view. Each
-- function returns the parser as the call leaves it, beside what went through its out parameter
-- (`none` for the return value 0).
pub mod Bounds
pub mod Reads
pub mod Views
use opssl.Base.{
  ℕ, ◌+◌, ◌-◌, ◌≤◌, Bool, Option, none, some, List, length, drop, take, ltb, if◌then◌else◌, ◌==◌,
}
use opssl.Bytes.{byte_at, be16, be24, be32}

pub record Cbs : Type 0 where
  pub bytes : List ℕ
  pub len : ℕ

abbrev pub Parser : Type 0 → Type 0
Parser A = Cbs → Cbs × Option A

-- A failed step returns at once, with the parser as that step left it.
abbrev pub continue : {A B : Type 0} → Cbs × Option A → (A → Parser B) → Cbs × Option B
continue (c, none) f = (c, none)
continue (c, some a) f = f a c

infixl 5 ◌>>=◌
abbrev pub ◌>>=◌ : {A B : Type 0} → Parser A → (A → Parser B) → Parser B
◌>>=◌ p f c = continue (p c) f

-- `data += n; len -= n`, behind the test that the view has `n` bytes.
abbrev pub advance : ℕ → Cbs → Cbs
advance n c = record { bytes = drop n c.bytes; len = c.len - n }

-- opssl_cbs_init
unfoldable pub init : List ℕ → ℕ → Cbs
init bytes len = record { bytes = bytes; len = len }

-- opssl_cbs_is_empty
unfoldable pub is_empty : Cbs → Bool
is_empty c = c.len == 0

-- The shape of each read: `if (cbs->len < n) return 0;`, then the value, then `advance`.
abbrev pub fixed : {A : Type 0} → ℕ → (List ℕ → A) → Parser A
fixed n value c = if ltb c.len n then (c, none) else (advance n c, some (value c.bytes))

unfoldable pub get_u8 : Parser ℕ
get_u8 = fixed 1 (λ p. byte_at p 0)

unfoldable pub get_u16 : Parser ℕ
get_u16 = fixed 2 be16

unfoldable pub get_u24 : Parser ℕ
get_u24 = fixed 3 be24

unfoldable pub get_u32 : Parser ℕ
get_u32 = fixed 4 be32

-- The view that goes through `out` starts where the parser stood.
unfoldable pub get_bytes : ℕ → Parser Cbs
get_bytes n = fixed n (λ p. record { bytes = p; len = n })

unfoldable pub skip : ℕ → Parser (Unit {0})
skip n = fixed n (λ p. tt)

unfoldable pub get_u8_length_prefixed : Parser Cbs
get_u8_length_prefixed = do n ← get_u8; get_bytes n

unfoldable pub get_u16_length_prefixed : Parser Cbs
get_u16_length_prefixed = do n ← get_u16; get_bytes n

unfoldable pub get_u24_length_prefixed : Parser Cbs
get_u24_length_prefixed = do n ← get_u24; get_bytes n

-- The parser is `const` here.
unfoldable pub peek_u8 : Cbs → Option ℕ
peek_u8 c = if ltb c.len 1 then none else some (byte_at c.bytes 0)

-- The bytes that are copied to `out`.
unfoldable pub copy_bytes : ℕ → Parser (List ℕ)
copy_bytes n = fixed n (take n)

-- The bytes that a parser still has to read.
abbrev pub view : Cbs → List ℕ
view c = take c.len c.bytes

-- The view lies inside the object.
abbrev pub InBounds : Cbs → Type 0
InBounds c = c.len ≤ length c.bytes
