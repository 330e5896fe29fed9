-- ===== src/Tls13/Negotiation.antt =====
-- What the server of src/tls/tls13.c picks from a ClientHello: the cipher suite, in its own order of
-- preference, and the first key share that it can use. The loops over the parsers have `fuel` rounds.
pub mod Suites
pub mod Shares
use opssl.Base.{
  ℕ, zero, suc, ◌==◌, ◌&&◌, ◌||◌, Bool, true, false, Option, none, some, List, [], ◌∷◌, take, ltb,
  leb, if◌then◌else◌,
}
use opssl.Cbs.{Cbs, get_u16, get_u16_length_prefixed}

-- tls13_cipher_preference
abbrev pub cipher_preference : List ℕ
cipher_preference =
    0x1302 ∷ 0x1303 ∷ 0x1301 ∷ 0xC0B3 ∷ 0xC0B2 ∷ 0xC0B0 ∷ 0x1304 ∷ 0xC0B1 ∷ 0x1305 ∷ []

-- The inner loop of tls13_select_cipher_suite, on the copy of the list: is this suite on it?
abbrev pub compared : ℕ → (Cbs → Bool) → Cbs × Option ℕ → Bool
compared wanted again (c, none) = false
compared wanted again (c, some suite) = if suite == wanted then true else again c

unfoldable pub offered : ℕ → ℕ → Cbs → Bool
offered zero wanted c = false
offered (suc fuel) wanted c =
    let rest = compared wanted (offered fuel wanted) (get_u16 c) in
    if leb 2 c.len then rest else false

-- tls13_select_cipher_suite, for a list of preferences
unfoldable pub select_cipher_suite : ℕ → List ℕ → Cbs → Option ℕ
select_cipher_suite fuel [] c = none
select_cipher_suite fuel (wanted ∷ later) c =
    let rest = select_cipher_suite fuel later c in
    if offered fuel wanted c then some wanted else rest

-- What the loop of tls13_parse_key_share_extension does: it returns -1, it takes a share of a group, or
-- it has not ended.
pub data Share : Type 0 where
  no_share : Share
  looping : Share
  taken : ℕ → List ℕ → Share

-- The groups that are taken, each with the one size of its keys: X25519, secp256r1 and secp384r1.
abbrev pub usable : ℕ → ℕ → Bool
usable group klen =
    ((group == 0x001D) && (klen == 32))
    || (((group == 0x0017) && (klen == 65)) || ((group == 0x0018) && (klen == 97)))

abbrev pub with_key : (Cbs → Share) → ℕ → Cbs × Option Cbs → Share
with_key again group (c, none) = no_share
with_key again group (c, some key) =
    if usable group key.len then taken group (take key.len key.bytes) else again c

abbrev pub with_group : (Cbs → Share) → Cbs × Option ℕ → Share
with_group again (c, none) = no_share
with_group again (c, some group) = with_key again group (get_u16_length_prefixed c)

unfoldable pub share_loop : ℕ → Cbs → Share
share_loop zero c = looping
share_loop (suc fuel) c =
    let rest = with_group (share_loop fuel) (get_u16 c) in if c.len == 0 then no_share else rest

-- tls13_parse_key_share_extension
abbrev pub shares_of : ℕ → Cbs × Option Cbs → Share
shares_of fuel (c, none) = no_share
shares_of fuel (c, some shares) = share_loop fuel shares

unfoldable pub parse_key_share_extension : ℕ → Cbs → Share
parse_key_share_extension fuel c = shares_of fuel (get_u16_length_prefixed c)
