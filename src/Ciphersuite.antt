-- ===== src/Ciphersuite.antt =====
-- The registry of src/tls/ciphersuite.c: the table, in the source's order, and the reads of it. A
-- C string is the list of its bytes before the NUL.
pub mod Lookup
pub mod Defaults
pub mod ParseList
pub mod ParseNames
pub mod Table
use opssl.Base.{
  ℕ, zero, suc, ◌+◌, ◌-◌, Bool, true, false, not, Option, none, some, List, [], ◌∷◌, ◌++◌, length,
  take, drop, ltb, leb, ◌==◌, if◌then◌else◌, ◌&&◌, ◌||◌,
}
use mathlib.Core.Option
use opssl.Ciphersuite.Table.{Suite, Aead, Hash, cipher_suites, same_text}

-- opssl_ciphersuite_find
unfoldable pub find_in : List Suite → ℕ → Option Suite
find_in [] id = none
find_in (s ∷ ss) id = if s.id == id then some s else find_in ss id

unfoldable pub find : ℕ → Option Suite
find = find_in cipher_suites

-- opssl_ciphersuite_find_by_name; a name that is not NULL
unfoldable pub find_by_name_in : List Suite → List ℕ → Option Suite
find_by_name_in [] name = none
find_by_name_in (s ∷ ss) name = if same_text s.name name then some s else find_by_name_in ss name

unfoldable pub find_by_name : List ℕ → Option Suite
find_by_name = find_by_name_in cipher_suites

-- The loop of the two default lists: `room` is `max - filled`.
unfoldable pub collect : (Suite → Bool) → List Suite → ℕ → List ℕ
collect keep [] room = []
collect keep (s ∷ ss) zero = []
collect keep (s ∷ ss) (suc room) =
    let taken = collect keep ss room in
    let passed = collect keep ss (suc room) in if keep s then s.id ∷ taken else passed

-- opssl_ciphersuite_tls13_default, opssl_ciphersuite_tls12_default: `none` is the return value -1.
-- On that of an empty result, `*count` is 0.
abbrev pub filled : List ℕ → Option (List ℕ)
filled ids = if ltb 0 (length ids) then some ids else none

unfoldable pub tls13_default : ℕ → Option (List ℕ)
tls13_default max = if max == 0 then none else filled (collect (λ s. s.is_tls13) cipher_suites max)

unfoldable pub tls12_default : ℕ → Option (List ℕ)
tls12_default max =
    if max == 0 then none else filled (collect (λ s. not s.is_tls13) cipher_suites max)

abbrev pub tls_1_2 : ℕ
tls_1_2 = 0x0303

abbrev pub tls_1_3 : ℕ
tls_1_3 = 0x0304

abbrev pub supports : ℕ → Option Suite → Bool
supports version none = false
supports version (some s) =
    if version == tls_1_3 then s.is_tls13 else if version == tls_1_2 then not s.is_tls13 else false

-- opssl_ciphersuite_is_supported
unfoldable pub is_supported : ℕ → ℕ → Bool
is_supported id version = supports version (find id)

-- opssl_ciphersuite_name
unfoldable pub name : ℕ → Option (List ℕ)
name id = Option.map (λ s. s.name) (find id)

-- What opssl_ciphersuite_get_params hands out, all out parameters being there.
pub record Params : Type 0 where
  pub aead : Aead
  pub hash : Hash
  pub key_len : ℕ
  pub iv_len : ℕ
  pub tag_len : ℕ

abbrev pub params_of : Suite → Params
params_of s = record {
  aead = s.aead;
  hash = s.hash;
  key_len = s.key_len;
  iv_len = s.iv_len;
  tag_len = s.tag_len;
}

-- opssl_ciphersuite_get_params
unfoldable pub get_params : ℕ → Option Params
get_params id = Option.map params_of (find id)

abbrev pub is_blank : ℕ → Bool
is_blank c = c == b' ' || c == 9

-- The bytes up to the end of a name, and the rest.
unfoldable pub name_end : List ℕ → List ℕ × List ℕ
name_end [] = ([], [])
name_end (c ∷ cs) =
    let (n, rest) = name_end cs in if c == b':' || is_blank c then ([], c ∷ cs) else (c ∷ n, rest)

unfoldable pub skip_blanks : List ℕ → List ℕ
skip_blanks [] = []
skip_blanks (c ∷ cs) = if is_blank c then skip_blanks cs else c ∷ cs

-- `start = (*end == ':') ? end + 1 : end`
abbrev pub after_name : List ℕ → List ℕ
after_name [] = []
after_name (c ∷ cs) = if c == b':' then cs else c ∷ cs

abbrev pub known : Option Suite → List ℕ → List ℕ
known none ids = ids
known (some s) ids = s.id ∷ ids

-- The loop of opssl_ciphersuite_parse_list: `room` is `max - parsed`, the result the identifiers
-- that are stored. `none` means that the fuel ran out.
unfoldable pub parse_loop : ℕ → List ℕ → ℕ → Option (List ℕ)
parse_loop zero text room = none
parse_loop (suc fuel) text room =
    let start = skip_blanks text in
    let (n, rest) = name_end start in
    let found = if leb 256 (length n) then none else find_by_name n in
    let more = Option.map (known found) (
      parse_loop fuel (after_name rest)
        (if leb 256 (length n) then room else elim found [ none ↦ room | some s ↦ room - 1 ])) in
    if length text == 0 || room == 0
    then some []
    else if length start == 0
    then some []
    else if length n == 0
    then some []
    else more

-- opssl_ciphersuite_parse_list, for pointers that are not NULL: the inner `none` is the return
-- value -1, and otherwise it is the length of the list, an int, for fewer than 2^31 names.
unfoldable pub parse_list : List ℕ → ℕ → Option (Option (List ℕ))
parse_list text max =
    if max == 0 then some none else Option.map filled (parse_loop (suc (length text)) text max)
