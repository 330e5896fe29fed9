-- ===== src/Tls13/Negotiation/Shares.antt =====
-- The choice of the key share, as a choice on the list of the client's shares.
use opssl.Base.{
  ℕ, zero, suc, Bool, Bool-cases, inl, inr, ◌&&◌, ◌||◌, ◌+◌, ◌^◌, ◌<◌, ◌≡◌, ◌==◌, refl, sym, ap,
  ◌∙◌, false, List, [], ◌∷◌, ◌++◌, length, All, if◌then◌else◌, arith, append_assoc,
}
use opssl.Bytes.{put_be16}
use opssl.Cbs.{Cbs, view, get_u16, advance}
use opssl.Cbs.Bounds.{IsValid, length-view}
use opssl.Cbs.Reads.{
  two, u16-Codec, fixed_complete, fixed_sound, get_length_prefixed_complete,
  get_length_prefixed_sound,
}
use opssl.Tls13.Negotiation.{Share, no_share, taken, usable, share_loop, parse_key_share_extension}

-- KeyShareEntry: a group, and a key behind its length.
abbrev pub Entry : Type 0
Entry = ℕ × List ℕ

abbrev pub entry_bytes : Entry → List ℕ
entry_bytes (group, key) = put_be16 group ++ (put_be16 (length key) ++ key)

abbrev pub entries_bytes : List Entry → List ℕ
entries_bytes [] = []
entries_bytes (e ∷ entries) = entry_bytes e ++ entries_bytes entries

abbrev pub IsEntry : Entry → Type 0
IsEntry (group, key) = (group < 2 ^ 16) × (length key < 2 ^ 16)

-- The groups of the server, each with the size of its keys on the wire: X25519 with the 32 bytes of
-- RFC 7748, secp256r1 and secp384r1 with an uncompressed point.
abbrev pub server_groups : List (ℕ × ℕ)
server_groups = (0x001D, 32) ∷ (0x0017, 1 + 32 + 32) ∷ (0x0018, 1 + 48 + 48) ∷ []

abbrev pub listed : List (ℕ × ℕ) → ℕ → ℕ → Bool
listed [] group size = false
listed ((id, bytes) ∷ groups) group size =
    ((group == id) && (size == bytes)) || listed groups group size

usable-listed : (group size : ℕ) → usable group size ≡ listed server_groups group size
usable-listed group size = elim (Bool-cases ((group == 0x0018) && (size == 97))) [
  | inl e ↦ rw (e) refl
  | inr e ↦ rw (e) refl
]

abbrev pub first_usable : List Entry → Share
first_usable [] = no_share
first_usable ((group, key) ∷ entries) =
    if listed server_groups group (length key) then taken group key else first_usable entries

share_loop_lem :
    (fuel : ℕ) (c : Cbs) (entries : List Entry)
    → IsValid c
    → All IsEntry entries
    → view c ≡ entries_bytes entries
    → length entries < fuel
    → share_loop fuel c ≡ first_usable entries
unfolding share_loop get_u16 put_be16
share_loop_lem zero c entries ok small e enough = absurd (omega arith)
share_loop_lem (suc fuel) c [] ok small e enough =
    let len : c.len ≡ 0 = sym (length-view c ok.0) ∙ ap length e in rw len refl
share_loop_lem (suc fuel) c ((group, key) ∷ entries) ok ((word, sized), small) e enough =
    let behind = put_be16 (length key) ++ (key ++ entries_bytes entries) in
    let whole : view c ≡ put_be16 group ++ behind =
      e
      ∙ append_assoc (put_be16 group) (put_be16 (length key) ++ key) (entries_bytes entries)
      ∙ ap (λ l. put_be16 group ++ l)
          (append_assoc (put_be16 (length key)) key (entries_bytes entries)) in
    let (read, left) = fixed_complete u16-Codec c group behind ok word whole in
    let (_, _, okd, _) = fixed_sound u16-Codec c ok read in
    let (c', out, field, same, rest) =
      get_length_prefixed_complete two (advance 2 c) key (entries_bytes entries) okd sized left in
    let (_, oko, okc) = get_length_prefixed_sound two (advance 2 c) okd field in
    let size : out.len ≡ length key = sym (length-view out oko.0) ∙ ap length same in
    let len : c.len ≡ length (put_be16 group ++ behind) =
      sym (length-view c ok.0) ∙ ap length whole in
    let going : (c.len == 0) ≡ false = ground arith in
    let next = share_loop_lem fuel c' entries okc small rest (omega arith) in
    let known = ap (usable group) size ∙ usable-listed group (length key) in
    rw (going, read, field) (λ i. if known i then taken group (same i) else next i)

-- tls13_parse_key_share_extension, on the extension's list of shares, whatever stands behind it: it takes
-- the first share of X25519 with a key of 32 bytes, of secp256r1 with one of 65 or of secp384r1 with
-- one of 97, and there is none (the return value -1) where the list has no such share. Enough fuel is one round more than there are
-- shares.
pub parse_key_share_extension_lem :
    (fuel : ℕ) (c : Cbs) (entries : List Entry) (rest : List ℕ)
    → IsValid c
    → All IsEntry entries
    → length (entries_bytes entries) < 2 ^ 16
    → view c ≡ put_be16 (length (entries_bytes entries)) ++ (entries_bytes entries ++ rest)
    → length entries < fuel
    → parse_key_share_extension fuel c ≡ first_usable entries
unfolding parse_key_share_extension
parse_key_share_extension_lem fuel c entries rest ok small word e enough =
    let (c', out, field, same, left) =
      get_length_prefixed_complete two c (entries_bytes entries) rest ok word e in
    let (_, oko, okc) = get_length_prefixed_sound two c ok field in
    rw field (share_loop_lem fuel out entries oko small same enough)
