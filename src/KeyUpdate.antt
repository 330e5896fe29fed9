-- ===== src/KeyUpdate.antt =====
-- The key update of TLS 1.3 in src/tls/handshake.c: opssl_conn_key_update, what finishes it once the
-- message is sent, and the KeyUpdate case of process_tls13_post_handshake. What the calls that send
-- return is an argument. They change the buffers of the connection, which are not modelled here; that
-- write_record counts the KeyUpdate record in write_seq is left out, as the new key sets it to 0.
pub mod Rekeyed
pub mod Lockstep
pub mod Rounds
use opssl.Base.{
  ℕ, ◌==◌, ◌&&◌, ◌||◌, not, Bool, true, false, Option, none, some, List, [], ◌∷◌, length, take,
  if◌then◌else◌,
}
use opssl.Conn.{AeadCtx, aead_set_key}
use opssl.Crypto.Hmac.{HmacAlgo, HashCalls}
use opssl.Crypto.Hkdf.{Expansion, expanded, refused, running}
use opssl.Crypto.Hkdf.Label.{hkdf_expand_label}
use opssl.KeySchedule.Label

-- opssl_result_t, and a call that has not ended.
pub data Result : Type 0 where
  ok failed want_read want_write unending : Result

-- conn->last_error, as far as it is set here.
pub data ErrorCode : Type 0 where
  no_error protocol_error crypto_error : ErrorCode

-- The fields of struct opssl_conn that a key update touches. A secret is the bytes that are in use.
pub record Keys : Type 0 where
  pub is_server : Bool
  pub is_tls13 : Bool
  pub complete : Bool
  pub key_update_apply_after_flush : Bool
  pub hash : HmacAlgo
  pub secret_len : ℕ
  pub client_traffic_secret : List ℕ
  pub server_traffic_secret : List ℕ
  pub read_cipher : Option AeadCtx
  pub read_key_len : ℕ
  pub read_key : List ℕ
  pub read_iv : List ℕ
  pub read_seq : ℕ
  pub write_cipher : Option AeadCtx
  pub write_key_len : ℕ
  pub write_key : List ℕ
  pub write_iv : List ℕ
  pub write_seq : ℕ
  pub last_error : ErrorCode

abbrev pub our_secret : Keys → List ℕ
our_secret st = if st.is_server then st.server_traffic_secret else st.client_traffic_secret

abbrev pub peer_secret : Keys → List ℕ
peer_secret st = if st.is_server then st.client_traffic_secret else st.server_traffic_secret

-- memcpy to the secret that the pointer stands for
abbrev pub set_our_secret : Keys → List ℕ → Keys
set_our_secret st secret = record st {
  server_traffic_secret = if st.is_server then secret else st.server_traffic_secret;
  client_traffic_secret = if st.is_server then st.client_traffic_secret else secret;
}

abbrev pub set_peer_secret : Keys → List ℕ → Keys
set_peer_secret st secret = record st {
  client_traffic_secret = if st.is_server then secret else st.client_traffic_secret;
  server_traffic_secret = if st.is_server then st.server_traffic_secret else secret;
}

abbrev pub fail_with : ErrorCode → Keys → Keys × Result
fail_with code st = (record st { last_error = code }, failed)

-- The next step, behind a derivation.
abbrev pub derived : Keys → Expansion → (List ℕ → Keys × Result) → Keys × Result
derived st refused f = fail_with crypto_error st
derived st running f = (st, unending)
derived st (expanded bytes) f = f bytes

abbrev pub rekey_writing : Keys → List ℕ → List ℕ → AeadCtx × Bool → Keys × Result
rekey_writing st key iv (ctx, false) =
    fail_with crypto_error (record st { write_cipher = some ctx })
rekey_writing st key iv (ctx, true) =
    (record st { write_cipher = some ctx; write_iv = iv; write_key = key; write_seq = 0 }, ok)

abbrev pub rekey_reading : Keys → List ℕ → List ℕ → List ℕ → AeadCtx × Bool → Keys × Result
rekey_reading st secret key iv (ctx, false) =
    fail_with crypto_error (record st { read_cipher = some ctx })
rekey_reading st secret key iv (ctx, true) = (
  record (set_peer_secret st secret) {
    read_cipher = some ctx;
    read_iv = iv;
    read_key = key;
    read_seq = 0;
  },
  ok,
)

-- What the calls that send return: whether bytes are waiting, opssl_conn_flush_write, write_record.
pub record Sending : Type 0 where
  pub waiting : Bool
  pub flushed : Result
  pub written : Result

-- The next step, behind a call that has to return OPSSL_OK.
abbrev pub when_ok : Keys → Result → Keys × Result → Keys × Result
when_ok st ok next = next
when_ok st failed next = (st, failed)
when_ok st want_read next = (st, want_read)
when_ok st want_write next = (st, want_write)
when_ok st unending next = (st, unending)

-- Behind write_record: what waits is applied when it is sent.
abbrev pub when_written : Keys → Result → Keys × Result → Keys × Result
when_written st want_read next = (record st { key_update_apply_after_flush = true }, want_read)
when_written st want_write next = (record st { key_update_apply_after_flush = true }, want_write)
when_written st ok next = next
when_written st failed next = (st, failed)
when_written st unending next = (st, unending)

-- The KeyUpdate message that opssl_conn_key_update writes.
abbrev pub key_update_message : Bool → List ℕ
key_update_message request = 24 ∷ 0 ∷ 0 ∷ 1 ∷ (if request then 1 else 0) ∷ []

module _ (h : HashCalls) (fuel : ℕ) where
  abbrev pub expand : Keys → List ℕ → List ℕ → ℕ → Expansion
  expand st secret name len = hkdf_expand_label h st.hash secret name [] len fuel

  abbrev pub apply_with : Keys → Option AeadCtx → Keys × Result
  apply_with st none = fail_with protocol_error st
  apply_with st (some ctx) =
      if (st.secret_len == 0) || (st.write_key_len == 0)
      then fail_with protocol_error st
      else derived st (expand st (our_secret st) Label.traffic_upd st.secret_len) λ new_secret.
        let st1 = set_our_secret st new_secret in
        derived st1 (expand st1 new_secret Label.key st1.write_key_len) λ new_key.
          derived st1 (expand st1 new_secret Label.iv 12)
            λ new_iv. rekey_writing st1 new_key new_iv (aead_set_key new_key ctx)

  -- apply_tls13_write_key_update
  unfoldable pub apply_write_key_update : Keys → Keys × Result
  apply_write_key_update st = apply_with st st.write_cipher

  -- finish_pending_key_update
  unfoldable pub finish_pending_key_update : Sending → Keys → Keys × Result
  finish_pending_key_update io st =
      when_ok st io.flushed
        (apply_write_key_update (record st { key_update_apply_after_flush = false }))

  abbrev pub send_with : Sending → Keys → Option AeadCtx → Keys × Result
  send_with io st none = fail_with protocol_error st
  send_with io st (some ctx) =
      if (st.secret_len == 0) || (st.write_key_len == 0)
      then fail_with protocol_error st
      else when_ok st (if io.waiting then io.flushed else ok)
          (when_written st io.written (apply_write_key_update st))

  -- opssl_conn_key_update
  unfoldable pub key_update : Sending → Keys → Keys × Result
  key_update io st =
      if not st.is_tls13 || not st.complete
      then (st, failed)
      else if st.key_update_apply_after_flush
      then finish_pending_key_update io st
      else send_with io st st.write_cipher

  -- Behind an update of the reading keys: an answer, where it is asked for.
  abbrev pub answered : Sending → ℕ → Keys × Result → Keys × Result
  answered io request (st, ok) = if request == 1 then key_update io st else (st, ok)
  answered io request (st, failed) = (st, failed)
  answered io request (st, want_read) = (st, want_read)
  answered io request (st, want_write) = (st, want_write)
  answered io request (st, unending) = (st, unending)

  abbrev pub read_update : Keys → AeadCtx → Keys × Result
  read_update st ctx =
      derived st (expand st (peer_secret st) Label.traffic_upd st.secret_len) λ new_secret.
        derived st (expand st new_secret Label.key st.read_key_len) λ new_key.
          derived st (expand st new_secret Label.iv 12)
            λ new_iv. rekey_reading st new_secret new_key new_iv (aead_set_key new_key ctx)

  abbrev pub read_with : Sending → ℕ → Keys → Option AeadCtx → Keys × Result
  read_with io request st none = fail_with protocol_error st
  read_with io request st (some ctx) =
      if (not (request == 0) && not (request == 1))
        || ((st.secret_len == 0) || (st.read_key_len == 0))
      then fail_with protocol_error st
      else answered io request (read_update st ctx)

  -- The KeyUpdate case of process_tls13_post_handshake, on the body of the message.
  unfoldable pub process_key_update : Sending → Keys → List ℕ → Keys × Result
  process_key_update io st (request ∷ []) = read_with io request st st.read_cipher
  process_key_update io st [] = fail_with protocol_error st
  process_key_update io st (a ∷ b ∷ body) = fail_with protocol_error st
