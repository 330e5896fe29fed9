-- ===== src/KeyUpdate/Rekeyed.antt =====
-- One side of a key update, beside the traffic keys of RFC 8446, section 7.2.
use opssl.Base.{
  ℕ, ◌+◌, ◌≤◌, ◌≡◌, ◌==◌, ◌⊎◌, inl, inr, true, false, refl, ap, ◌∙◌, some, List, [], length, arith,
}
use opssl.Bytes.{store}
use opssl.Conn.{AeadCtx, aead_set_key}
use opssl.Crypto.Hmac.{HmacAlgo, HashCalls, digest_size}
use opssl.Crypto.Hmac.Rfc2104.{IsHash}
use opssl.Crypto.Hkdf.{expanded}
use opssl.Crypto.Hkdf.Rfc5869.{hkdf_expand_lem}
use opssl.Crypto.Hkdf.Label.{hkdf_expand_label_lem, rfc_expand_label, rfc_label}
use opssl.KeySchedule.Label
use opssl.KeySchedule.Rfc8446.{Tls13Hash, hash_room}
use opssl.KeyUpdate.{
  Keys, ok, our_secret, peer_secret, set_our_secret, set_peer_secret, expand,
  apply_write_key_update, read_update,
}

abbrev pub next_secret : HashCalls → HmacAlgo → List ℕ → List ℕ
next_secret h hash secret = rfc_expand_label h hash secret Label.traffic_upd [] (digest_size hash)

-- The key and the IV that go with a traffic secret.
abbrev pub traffic_key : HashCalls → HmacAlgo → List ℕ → ℕ → List ℕ
traffic_key h hash secret len = rfc_expand_label h hash secret Label.key [] len

abbrev pub traffic_iv : HashCalls → HmacAlgo → List ℕ → List ℕ
traffic_iv h hash secret = rfc_expand_label h hash secret Label.iv [] 12

abbrev pub with_new_key : AeadCtx → List ℕ → ℕ → AeadCtx
with_new_key ctx key len = record ctx { key = store ctx.key 0 key; key_len = len }

abbrev pub IsKeyLen : ℕ → Type 0
IsKeyLen n = (n ≡ 16) ⊎ (n ≡ 32)

pub key_len_small : (n : ℕ) → IsKeyLen n → (1 ≤ n) × (n ≤ 32)
key_len_small n (inl e) = (omega arith, omega arith)
key_len_small n (inr e) = (omega arith, omega arith)

aead_set_key_lem :
    (key : List ℕ) (ctx : AeadCtx) (n : ℕ)
    → length key ≡ n
    → IsKeyLen n
    → aead_set_key key ctx ≡ (with_new_key ctx key n, true)
unfolding aead_set_key
aead_set_key_lem key ctx n size (inl e) =
    let right : length key ≡ 16 = size ∙ e in let same : n ≡ 16 = e in rw (right, same) refl
aead_set_key_lem key ctx n size (inr e) =
    let right : length key ≡ 32 = size ∙ e in let same : n ≡ 32 = e in rw (right, same) refl

expand_lem :
    (h : HashCalls) (st : Keys) (secret name : List ℕ) (len spare : ℕ)
    → Tls13Hash st.hash
    → IsHash h st.hash
    → length name ≤ 249
    → len ≤ 48
    → expand h (256 + spare) st secret name len
      ≡ expanded (rfc_expand_label h st.hash secret name [] len)
expand_lem h st secret name len spare t law few small =
    let room = hash_room t in
    hkdf_expand_label_lem h st.hash secret name [] len spare law (omega arith) few (omega arith)
      (omega (arith, room.0))

length-traffic_key :
    (h : HashCalls) (hash : HmacAlgo) (secret : List ℕ) (len : ℕ)
    → Tls13Hash hash
    → IsHash h hash
    → len ≤ 48
    → length (traffic_key h hash secret len) ≡ len
length-traffic_key h hash secret len t law small =
    let room = hash_room t in
    (hkdf_expand_lem h hash secret (rfc_label Label.key [] len) len 0 law (omega (arith, room.0))).1

-- A connection whose writing keys follow from its new secret.
abbrev pub writing : HashCalls → Keys → AeadCtx → Keys
writing h st ctx =
    let secret = next_secret h st.hash (our_secret st) in
    let key = traffic_key h st.hash secret st.write_key_len in
    record (set_our_secret st secret) {
      write_cipher = some (with_new_key ctx key st.write_key_len);
      write_iv = traffic_iv h st.hash secret;
      write_key = key;
      write_seq = 0;
    }

abbrev pub reading : HashCalls → Keys → AeadCtx → Keys
reading h st ctx =
    let secret = next_secret h st.hash (peer_secret st) in
    let key = traffic_key h st.hash secret st.read_key_len in
    record (set_peer_secret st secret) {
      read_cipher = some (with_new_key ctx key st.read_key_len);
      read_iv = traffic_iv h st.hash secret;
      read_key = key;
      read_seq = 0;
    }

module _ (h : HashCalls) (st : Keys) (ctx : AeadCtx) (spare : ℕ) (t : Tls13Hash st.hash)
    (law : IsHash h st.hash) (sized : st.secret_len ≡ digest_size st.hash) where
  secret_lem :
      (secret : List ℕ)
      → expand h (256 + spare) st secret Label.traffic_upd st.secret_len
        ≡ expanded (next_secret h st.hash secret)
  secret_lem secret =
      let room = hash_room t in
      ap (expand h (256 + spare) st secret Label.traffic_upd) sized
      ∙ expand_lem h st secret Label.traffic_upd (digest_size st.hash) spare t law (omega arith)
          (room.1)

  pub apply_write_key_update_lem :
      st.write_cipher ≡ some ctx
      → IsKeyLen st.write_key_len
      → apply_write_key_update h (256 + spare) st ≡ (writing h st ctx, ok)
  unfolding apply_write_key_update
  apply_write_key_update_lem cipher key_len =
      let room = hash_room t in
      let (low, high) = key_len_small st.write_key_len key_len in
      let secret = next_secret h st.hash (our_secret st) in
      let some_secret : (st.secret_len == 0) ≡ false = ground (arith, sized, room.0) in
      let some_key : (st.write_key_len == 0) ≡ false = ground arith in
      let first = secret_lem (our_secret st) in
      let second =
        expand_lem h st secret Label.key st.write_key_len spare t law (omega arith) (omega arith) in
      let third = expand_lem h st secret Label.iv 12 spare t law (omega arith) (omega arith) in
      let set =
        aead_set_key_lem (traffic_key h st.hash secret st.write_key_len) ctx st.write_key_len
          (length-traffic_key h st.hash secret st.write_key_len t law (omega arith)) key_len in
      rw (cipher, some_secret, some_key, first, second, third, set) refl

  pub read_update_lem :
      IsKeyLen st.read_key_len → read_update h (256 + spare) st ctx ≡ (reading h st ctx, ok)
  read_update_lem key_len =
      let (low, high) = key_len_small st.read_key_len key_len in
      let secret = next_secret h st.hash (peer_secret st) in
      let first = secret_lem (peer_secret st) in
      let second =
        expand_lem h st secret Label.key st.read_key_len spare t law (omega arith) (omega arith) in
      let third = expand_lem h st secret Label.iv 12 spare t law (omega arith) (omega arith) in
      let set =
        aead_set_key_lem (traffic_key h st.hash secret st.read_key_len) ctx st.read_key_len
          (length-traffic_key h st.hash secret st.read_key_len t law (omega arith)) key_len in
      rw (first, second, third, set) refl
