-- ===== src/Tests/Migration.antt =====
-- An export and its import, at concrete inputs.
use opssl.Base.{
  length, List, ◌++◌, ◌-◌, take, ℕ, ◌≤◌, ◌≡◌, ◌≢◌, refl, true, false, none, some, replicate,
  length-replicate, ◌⊎◌, ◌<◌, ◌^◌, arith,
}
use opssl.Ciphersuite.{Params, get_params, find, find_in}
use opssl.Ciphersuite.Table.{chacha20_poly1305, sha256, cipher_suites}
use opssl.Conn.{
  Conn, aead_new, get_flags, get_read_key, get_write_key, get_read_iv, get_write_iv, key_out,
}
use opssl.Conn.Keys.{IsConn}
use opssl.Session.{
  Half, State, gather, required_len, write_state, session_export, session_import, written,
}
use opssl.Session.Format.{IsState}
use opssl.Session.Roundtrip.{session_import-session_export}
use opssl.Bytes.{store, put_be16, put_be32, put_be64}
use opssl.Record.{AeadCalls}
use opssl.Ciphersuite.Table.{aes_256_gcm}
use opssl.Conn.{AeadCtx, aead_set_key}
use opssl.Session.{write_half}
use opssl.Session.Wrapped.{wrap_context, wrap, export_encrypted}

abbrev chacha_params : Params
chacha_params = record {
  aead = chacha20_poly1305;
  hash = sha256;
  key_len = 32;
  iv_len = 12;
  tag_len = 16;
}

chacha_known : get_params 0x1303 ≡ some chacha_params
unfolding get_params find find_in cipher_suites
chacha_known = refl

suite_unknown : get_params 0x1234 ≡ none
unfolding get_params find find_in cipher_suites
suite_unknown = refl

-- A new connection, and one in use.
abbrev idle : Conn
idle = record {
  cipher = 0;
  read_cipher = none;
  write_cipher = none;
  read_iv = replicate 12 0;
  write_iv = replicate 12 0;
  read_seq = 0;
  write_seq = 0;
  read_encrypted = false;
  write_encrypted = false;
  is_tls13 = false;
  write_key = replicate 32 0;
  write_key_len = 0;
  read_key = replicate 32 0;
  read_key_len = 0;
  shutdown_sent = false;
  postquantum = false;
}

abbrev busy : Conn
busy = record idle {
  cipher = 0x1303;
  read_iv = replicate 12 7;
  write_iv = replicate 12 8;
  read_seq = 41;
  write_seq = 42;
  read_encrypted = true;
  write_encrypted = true;
  is_tls13 = true;
  write_key = replicate 32 9;
  write_key_len = 32;
  read_key = replicate 32 10;
  read_key_len = 32;
}

idle-IsConn : IsConn idle
idle-IsConn = record {
  cipher_fits = omega arith;
  read_key_size = refl;
  write_key_size = refl;
  read_iv_size = refl;
  write_iv_size = refl;
  read_seq_fits = omega arith;
  write_seq_fits = omega arith;
}

busy-IsConn : IsConn busy
busy-IsConn = record {
  cipher_fits = omega arith;
  read_key_size = refl;
  write_key_size = refl;
  read_iv_size = refl;
  write_iv_size = refl;
  read_seq_fits = omega arith;
  write_seq_fits = omega arith;
}

abbrev half : ℕ → Half
half n = record { key = replicate n 5; iv = replicate 12 6; seq = 3 }

abbrev state : ℕ → ℕ → State
state cipher n = record { cipher = cipher; flags = 7; reading = half n; writing = half 32 }

abbrev busy_state : State
busy_state = record {
  cipher = 0x1303;
  flags = 7;
  reading = record { key = replicate 32 10; iv = replicate 12 7; seq = 41 };
  writing = record { key = replicate 32 9; iv = replicate 12 8; seq = 42 };
}

busy_export : session_export busy (some 256) 256 ≡ written (write_state busy_state)
unfolding session_export gather get_flags get_read_key get_write_key get_read_iv get_write_iv
    key_out required_len
busy_export = refl

session_import-session_export_example :
    ((session_import (write_state busy_state) idle).1 ≡ true)
    × (gather (session_import (write_state busy_state) idle).0 ≡ gather busy)
session_import-session_export_example =
    session_import-session_export busy idle chacha_params 256 256 (write_state busy_state)
      busy-IsConn idle-IsConn chacha_known busy_export

-- In place of AES-256-GCM for a run: text is left as it is, with sixteen zeros for the tag.
abbrev stand_in : AeadCalls
stand_in = record {
  seal = λ ctx max_out nonce text aad. some (text ++ replicate 16 0);
  open_ = λ ctx room nonce text aad. some (take (length text - 16) text);
}

abbrev wrap_key : List ℕ
wrap_key = replicate 32 3

abbrev wrapping : AeadCtx
wrapping = record { algo = aes_256_gcm; key = wrap_key; key_len = 32 }

wrap_context_made : wrap_context wrap_key ≡ some wrapping
unfolding wrap_context aead_new aead_set_key store
wrap_context_made = refl

abbrev busy_wrapped : List ℕ
busy_wrapped = replicate 12 1 ++ (write_state busy_state ++ replicate 16 0)

busy-export_encrypted :
    export_encrypted stand_in busy wrap_key (some (replicate 12 1)) true 256 256
    ≡ written busy_wrapped
unfolding session_export gather get_flags get_read_key get_write_key get_read_iv get_write_iv
    key_out required_len export_encrypted wrap wrap_context aead_new aead_set_key store write_state
    write_half put_be16 put_be32 put_be64
busy-export_encrypted = refl

state-IsState : (cipher n : ℕ) → cipher < 2 ^ 16 → 1 ≤ n → n ≤ 32 → IsState (state cipher n)
state-IsState cipher n h l1 l2 = record {
  cipher_fits = h;
  flags_fit = omega arith;
  reading_fits = record {
    key_some = omega (arith, length-replicate {A = ℕ} n 5);
    key_fits = omega (arith, length-replicate {A = ℕ} n 5);
    iv_fits = omega arith;
    seq_fits = omega arith;
  };
  writing_fits = record {
    key_some = omega arith;
    key_fits = omega arith;
    iv_fits = omega arith;
    seq_fits = omega arith;
  };
}

twenty : (n : ℕ) → (20 < n) ⊎ (n < 20) → 20 ≢ n
twenty n h = ground arith
