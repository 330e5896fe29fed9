-- ===== src/Tests/Updates.antt =====
-- Key updates at concrete inputs.
use opssl.Base.{ℕ, ◌+◌, ◌≡◌, refl, inl, Bool, true, false, some, List, [], ◌∷◌, replicate}
use opssl.Conn.{AeadCtx}
use opssl.Ciphersuite.Table.{aes_128_gcm}
use opssl.Crypto.Hmac.{hmac_sha256}
use opssl.Crypto.Hmac.OverSha256.{hash_calls-IsHash}
use opssl.KeySchedule.Rfc8446.{with_sha256}
use opssl.KeyUpdate.{Keys, no_error, process_key_update, protocol_error, failed}
use opssl.KeyUpdate.Rounds.{first, second}
use opssl.KeyUpdate.Lockstep.{InStep, delivered}
use opssl.KeyUpdate.Rounds.{Side, rounds, rounds_lem}
use opssl.Tests.Secrets.{hashes, no_others}

abbrev key : List ℕ
key = replicate 16 3

abbrev back_key : List ℕ
back_key = replicate 16 4

abbrev context : AeadCtx
context = record { algo = aes_128_gcm; key = replicate 32 5; key_len = 16 }

abbrev back_context : AeadCtx
back_context = record { algo = aes_128_gcm; key = replicate 32 6; key_len = 16 }

abbrev client : Keys
client = record {
  is_server = false;
  is_tls13 = true;
  complete = true;
  key_update_apply_after_flush = false;
  hash = hmac_sha256;
  secret_len = 32;
  client_traffic_secret = replicate 32 1;
  server_traffic_secret = replicate 32 2;
  read_cipher = some back_context;
  read_key_len = 16;
  read_key = back_key;
  read_iv = replicate 12 8;
  read_seq = 9;
  write_cipher = some context;
  write_key_len = 16;
  write_key = key;
  write_iv = replicate 12 7;
  write_seq = 5;
  last_error = no_error;
}

abbrev server : Keys
server = record {
  is_server = true;
  is_tls13 = true;
  complete = true;
  key_update_apply_after_flush = false;
  hash = hmac_sha256;
  secret_len = 32;
  client_traffic_secret = replicate 32 1;
  server_traffic_secret = replicate 32 2;
  read_cipher = some context;
  read_key_len = 16;
  read_key = key;
  read_iv = replicate 12 7;
  read_seq = 5;
  write_cipher = some back_context;
  write_key_len = 16;
  write_key = back_key;
  write_iv = replicate 12 8;
  write_seq = 9;
  last_error = no_error;
}

start-InStep : InStep hashes hmac_sha256 client server
start-InStep = record {
  there = record {
    secret = refl;
    key_len = refl;
    key = refl;
    iv = refl;
    seq = refl;
    ctx = context;
    writer = refl;
    reader = refl;
  };
  back = record {
    secret = refl;
    key_len = refl;
    key = refl;
    iv = refl;
    seq = refl;
    ctx = back_context;
    writer = refl;
    reader = refl;
  };
  left = record {
    tls13 = refl;
    done = refl;
    idle = refl;
    algo = refl;
    size = refl;
    key_len = inl refl;
  };
  right = record {
    tls13 = refl;
    done = refl;
    idle = refl;
    algo = refl;
    size = refl;
    key_len = inl refl;
  };
}

abbrev events : List (Side × Bool)
events = (first, true) ∷ (second, false) ∷ (first, false) ∷ []

rounds_lem_example :
    (a : Keys) × (b : Keys) × (rounds hashes (256 + 0) events client server ≡ some (a, b))
    × InStep hashes hmac_sha256 a b
rounds_lem_example =
    rounds_lem hashes hmac_sha256 0 with_sha256 (hash_calls-IsHash no_others) events client server
      start-InStep

-- A KeyUpdate of two bytes is refused, and the keys stay.
two_bytes :
    process_key_update hashes 256 delivered server (0 ∷ 1 ∷ [])
    ≡ (record server { last_error = protocol_error }, failed)
unfolding process_key_update
two_bytes = refl
