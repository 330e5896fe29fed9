-- ===== src/Tests/Secrets.antt =====
-- The key schedule of TLS 1.3, and what a handshake decides, at concrete inputs.
use opssl.Base.{
  ℕ, ◌+◌, ◌≡◌, refl, none, some, true, false, List, [], ◌∷◌, ◌++◌, replicate, length, arith,
}
use opssl.Bytes.{store, put_be16, be32, put_be32, put_be64}
use opssl.Cbb.{cbb_init_fixed, add_bytes, add_u8, add_u16, grow, grow_self}
use opssl.Crypto.Sha256.{
  sha256_init, sha256, sha256_update, sha256_final, absorb_rest, transform_blocks, sha256_transform,
  digest_of, sha_rounds, sha_round, extend_words, block_words, ror32,
}
use opssl.Crypto.Hmac.{
  hmac_sha256, HashCalls, key_block, hmac_init, hmac_update, hmac_updates, hmac_final, hmac,
}
use opssl.Crypto.Hmac.Rfc2104.{rfc_hmac}
use opssl.Crypto.Hmac.OverSha256.{hash_calls, hash_calls-IsHash}
use opssl.Crypto.Hkdf.{hkdf_extract, next_t, expand_loop, hkdf_expand, expanded, refused}
use opssl.Crypto.Hkdf.Label.{
  hkdf_expand_label, write_label, rfc_expand_label, hkdf_expand_label_lem,
}
use opssl.KeySchedule.Label
use opssl.KeySchedule.{
  and_with, derive_secret, extract, early_secret, handshake_secret, master_secret,
  update_traffic_secret, finished_key, verify_data,
}
use opssl.KeySchedule.Rfc8446.{
  with_sha256, IsScheduleHash, rfc_derive_secret, rfc_early_secret, rfc_handshake_secret,
  rfc_master_secret, zeros,
}
use opssl.KeySchedule.Computed.{
  master_secret-handshake_secret-early_secret, verify_data-finished_key,
}
use opssl.Tls13.Secrets.{
  Handshake, get_transcript_hash, derive_handshake_secrets, derive_application_secrets,
  export_keying_material,
}
use opssl.Tls13.Secrets.Schedule.{
  derive_handshake_secrets_lem, derive_application_secrets_lem, export_keying_material_lem,
}
use opssl.Tls13.Secrets.Transcript.{updates, get_transcript_hash-updates}

-- SHA-256, beside functions that keep their input.
abbrev pub no_others : HashCalls
no_others = record {
  State = λ algo. List ℕ;
  start = λ algo. [];
  absorb = λ algo s bytes. s ++ bytes;
  finish = λ algo s. s;
  digest = λ algo message. message;
}

abbrev pub hashes : HashCalls
hashes = hash_calls no_others

hashes-IsScheduleHash : IsScheduleHash hashes hmac_sha256
unfolding sha256 sha256_update sha256_final absorb_rest transform_blocks sha256_transform digest_of
    sha_rounds sha_round extend_words block_words ror32 be32 put_be32 put_be64
hashes-IsScheduleHash = record { streams = hash_calls-IsHash no_others; empty = refl }

-- The early secret of RFC 8448, section 3, and the secret that is derived from it.
abbrev early_vector : List ℕ
early_vector =
    51 ∷ 173 ∷ 10 ∷ 28 ∷ 96 ∷ 126 ∷ 192 ∷ 59 ∷ 9 ∷ 230 ∷ 205 ∷ 152 ∷ 147 ∷ 104 ∷ 12 ∷ 226 ∷ 16 ∷ 173
    ∷ 243 ∷ 0 ∷ 170 ∷ 31 ∷ 38 ∷ 96 ∷ 225 ∷ 178 ∷ 46 ∷ 16 ∷ 241 ∷ 112 ∷ 249 ∷ 42 ∷ []

abbrev derived_vector : List ℕ
derived_vector =
    111 ∷ 38 ∷ 21 ∷ 161 ∷ 8 ∷ 199 ∷ 2 ∷ 197 ∷ 103 ∷ 143 ∷ 84 ∷ 252 ∷ 157 ∷ 186 ∷ 182 ∷ 151 ∷ 22
    ∷ 192 ∷ 118 ∷ 24 ∷ 156 ∷ 72 ∷ 37 ∷ 12 ∷ 235 ∷ 234 ∷ 195 ∷ 87 ∷ 108 ∷ 54 ∷ 17 ∷ 186 ∷ []

early_secret_vector : early_secret hashes [] 256 hmac_sha256 none ≡ expanded early_vector
unfolding early_secret extract hkdf_extract hmac hmac_init hmac_update hmac_updates hmac_final
    key_block sha256 sha256_update sha256_final absorb_rest transform_blocks sha256_transform
    digest_of sha_rounds sha_round extend_words block_words ror32 be32 put_be32 put_be64
early_secret_vector = refl

derived_secret_vector :
    derive_secret hashes [] 256 hmac_sha256 early_vector Label.derived none 32
    ≡ expanded derived_vector
unfolding derive_secret hkdf_expand_label write_label cbb_init_fixed add_u8 add_u16 add_bytes grow
    grow_self store put_be16 hkdf_expand expand_loop next_t hkdf_extract hmac hmac_init hmac_update
    hmac_updates hmac_final key_block sha256 sha256_update sha256_final absorb_rest transform_blocks
    sha256_transform digest_of sha_rounds sha_round extend_words block_words ror32 be32 put_be32
    put_be64
derived_secret_vector = refl

hkdf_expand_label_lem_example :
    hkdf_expand_label hashes hmac_sha256 early_vector Label.key [] 16 (256 + 0)
    ≡ expanded (rfc_expand_label hashes hmac_sha256 early_vector Label.key [] 16)
hkdf_expand_label_lem_example =
    hkdf_expand_label_lem hashes hmac_sha256 early_vector Label.key [] 16 0
      (hash_calls-IsHash no_others) (omega arith) (omega arith) (omega arith) (omega arith)

abbrev ecdhe : List ℕ
ecdhe = replicate 32 7

abbrev middle : List ℕ
middle = rfc_handshake_secret hashes hmac_sha256 (zeros hmac_sha256) ecdhe

master_secret-handshake_secret-early_secret_example :
    (early_secret hashes [] (256 + 0) hmac_sha256 none
      ≡ expanded (rfc_early_secret hashes hmac_sha256 (zeros hmac_sha256)))
    × (handshake_secret hashes []
          (256 + 0)
          hmac_sha256
          (rfc_early_secret hashes hmac_sha256 (zeros hmac_sha256))
          (some ecdhe)
        ≡ expanded middle)
    × (master_secret hashes [] (256 + 0) hmac_sha256 middle
        ≡ expanded (rfc_master_secret hashes hmac_sha256 (zeros hmac_sha256) ecdhe))
master_secret-handshake_secret-early_secret_example =
    master_secret-handshake_secret-early_secret hashes [] hmac_sha256 none (some ecdhe) 0
      with_sha256 hashes-IsScheduleHash

verify_data-finished_key_example :
    let transcript = hashes.digest hmac_sha256 (1 ∷ 2 ∷ []) in
    let key = rfc_expand_label hashes hmac_sha256 early_vector Label.finished [] 32 in
    (and_with
        (finished_key hashes [] (256 + 0) hmac_sha256 early_vector)
        (λ k. verify_data hashes [] (256 + 0) hmac_sha256 k transcript)
      ≡ expanded (rfc_hmac hashes hmac_sha256 key transcript))
    × (update_traffic_secret hashes [] (256 + 0) hmac_sha256 early_vector
        ≡ expanded (rfc_expand_label hashes hmac_sha256 early_vector Label.traffic_upd [] 32))
    × (length (rfc_expand_label hashes hmac_sha256 early_vector Label.traffic_upd [] 32) ≡ 32)
verify_data-finished_key_example =
    verify_data-finished_key hashes [] hmac_sha256 early_vector (1 ∷ 2 ∷ []) 0 with_sha256
      (hash_calls-IsHash no_others) refl

-- A handshake behind the messages 1, 2 and 3.
abbrev fresh_handshake : Handshake hashes
fresh_handshake = record {
  hash_algo = hmac_sha256;
  hash_len = 32;
  has_psk = false;
  psk = [];
  shared_secret = ecdhe;
  transcript_sha256 = sha256_init;
  transcript_sha384 = [];
  early_secret = [];
  handshake_secret = [];
  master_secret = [];
  client_hs_traffic = [];
  server_hs_traffic = [];
  client_ap_traffic = [];
  server_ap_traffic = [];
  exporter_master_secret = [];
}

abbrev messages : List (List ℕ)
messages = (1 ∷ 2 ∷ []) ∷ (3 ∷ []) ∷ []

abbrev behind_messages : Handshake hashes
behind_messages = record (updates hashes fresh_handshake messages) {
  hash_algo = hmac_sha256;
  hash_len = 32;
}

get_transcript_hash-updates_example :
    get_transcript_hash hashes behind_messages ≡ some (hashes.digest hmac_sha256 (1 ∷ 2 ∷ 3 ∷ []))
get_transcript_hash-updates_example =
    get_transcript_hash-updates hashes fresh_handshake hmac_sha256 32 messages with_sha256
      (hash_calls-IsHash no_others) refl refl

behind_hash :
    get_transcript_hash hashes behind_messages ≡ some (hashes.digest hmac_sha256 (1 ∷ 2 ∷ 3 ∷ []))
behind_hash =
    get_transcript_hash-updates hashes fresh_handshake hmac_sha256 32 messages with_sha256
      (hash_calls-IsHash no_others) refl refl

derive_handshake_secrets_lem_example :
    let hs = behind_messages in
    let psk = zeros hmac_sha256 in
    let secret = rfc_handshake_secret hashes hmac_sha256 psk hs.shared_secret in
    derive_handshake_secrets hashes [] (256 + 0) hs ≡ (
      record hs {
        early_secret = rfc_early_secret hashes hmac_sha256 psk;
        handshake_secret = secret;
        client_hs_traffic =
            rfc_derive_secret hashes hmac_sha256 secret Label.c_hs_traffic (1 ∷ 2 ∷ 3 ∷ []);
        server_hs_traffic =
            rfc_derive_secret hashes hmac_sha256 secret Label.s_hs_traffic (1 ∷ 2 ∷ 3 ∷ []);
      },
      true,
    )
unfolding updates opssl.Tls13.Secrets.update_transcript
derive_handshake_secrets_lem_example =
    derive_handshake_secrets_lem hashes [] behind_messages (1 ∷ 2 ∷ 3 ∷ []) 0 with_sha256
      hashes-IsScheduleHash refl behind_hash

abbrev with_secret : Handshake hashes
with_secret = record behind_messages { handshake_secret = middle }

derive_application_secrets_lem_example :
    let master = rfc_master_secret hashes hmac_sha256 (zeros hmac_sha256) ecdhe in
    derive_application_secrets hashes [] (256 + 0) with_secret ≡ (
      record with_secret {
        master_secret = master;
        client_ap_traffic =
            rfc_derive_secret hashes hmac_sha256 master Label.c_ap_traffic (1 ∷ 2 ∷ 3 ∷ []);
        server_ap_traffic =
            rfc_derive_secret hashes hmac_sha256 master Label.s_ap_traffic (1 ∷ 2 ∷ 3 ∷ []);
        exporter_master_secret =
            rfc_derive_secret hashes hmac_sha256 master Label.exp_master (1 ∷ 2 ∷ 3 ∷ []);
      },
      true,
    )
derive_application_secrets_lem_example =
    derive_application_secrets_lem hashes [] with_secret (zeros hmac_sha256) ecdhe (1 ∷ 2 ∷ 3 ∷ [])
      0 with_sha256 hashes-IsScheduleHash refl behind_hash refl

export_keying_material_lem_example :
    (export_keying_material hashes []
        (256 + 0)
        true
        true
        hmac_sha256
        (some early_vector)
        (65 ∷ [])
        (1 ∷ [])
        40
        (expanded (9 ∷ []))
      ≡ expanded (
          rfc_expand_label hashes hmac_sha256
            (rfc_derive_secret hashes hmac_sha256 early_vector (65 ∷ []) [])
            Label.exporter
            (hashes.digest hmac_sha256 (1 ∷ []))
            40))
    × (export_keying_material hashes []
          (256 + 0)
          true
          true
          hmac_sha256
          none
          (65 ∷ [])
          (1 ∷ [])
          40
          (expanded (9 ∷ []))
        ≡ refused)
    × (export_keying_material hashes []
          (256 + 0)
          true
          false
          hmac_sha256
          (some early_vector)
          (65 ∷ [])
          (1 ∷ [])
          40
          (expanded (9 ∷ []))
        ≡ expanded (9 ∷ []))
    × (export_keying_material hashes []
          (256 + 0)
          false
          true
          hmac_sha256
          (some early_vector)
          (65 ∷ [])
          (1 ∷ [])
          40
          (expanded (9 ∷ []))
        ≡ refused)
export_keying_material_lem_example =
    export_keying_material_lem hashes [] hmac_sha256 early_vector (65 ∷ []) (1 ∷ []) 40 0
      (expanded (9 ∷ [])) true with_sha256 hashes-IsScheduleHash refl (omega arith) (omega arith)
