-- ===== src/Session/Wrapped.antt =====
-- src/io/export.c: the exports under a wrapping key, opssl_session_export_encrypted and
-- opssl_session_import_encrypted, over the AEAD calls. The random bytes are an argument.
use opssl.Base.{
  ℕ, ◌+◌, Bool, true, false, not, ◌||◌, Option, none, some, List, [], ◌++◌, length, take, drop, ltb,
  ◌==◌, if◌then◌else◌,
}
use opssl.Ciphersuite.Table.{aes_256_gcm}
use opssl.Conn.{Conn, AeadCtx, aead_new, aead_set_key}
use opssl.Record.{AeadCalls}
use opssl.Session.{Exported, refused, size, too_small, written, session_export, session_import}

-- The two calls of opssl_session_export: one for the size, and one with a buffer of that size.
abbrev pub exported_bytes : Exported → Option (List ℕ)
exported_bytes (written bytes) = some bytes
exported_bytes refused = none
exported_bytes (size n) = none
exported_bytes (too_small n) = none

abbrev pub export_sized : Conn → Exported → Option (List ℕ)
export_sized c (size n) = exported_bytes (session_export c (some n) n)
export_sized c refused = none
export_sized c (too_small n) = none
export_sized c (written bytes) = none

-- The AEAD context of AES-256-GCM with the wrapping key, where opssl_aead_set_key takes it.
abbrev pub keyed_context : AeadCtx × Bool → Option AeadCtx
keyed_context (ctx, true) = some ctx
keyed_context (ctx, false) = none

unfoldable pub wrap_context : List ℕ → Option AeadCtx
wrap_context wrap_key = keyed_context (aead_set_key wrap_key (aead_new aes_256_gcm))

module _ (aead : AeadCalls) where
  abbrev pub behind_nonce : List ℕ → Option (List ℕ) → Exported
  behind_nonce nonce none = refused
  behind_nonce nonce (some out) = written (nonce ++ out)

  abbrev pub sealed_by : Option AeadCtx → List ℕ → List ℕ → Exported
  sealed_by none nonce plaintext = refused
  sealed_by (some ctx) nonce plaintext =
      behind_nonce nonce (aead.seal ctx (length plaintext + 16) nonce plaintext [])

  -- From the nonce on. A `max_len` that is too small leaves `buf_len` as it was.
  unfoldable pub wrap : List ℕ → List ℕ → List ℕ → Bool → ℕ → ℕ → Exported
  wrap wrap_key plaintext nonce with_buf buf_len max_len =
      let required_len = 12 + length plaintext + 16 in
      if ltb buf_len required_len
      then too_small required_len
      else if ltb max_len required_len
      then refused
      else if not with_buf
      then size required_len
      else sealed_by (wrap_context wrap_key) nonce plaintext

  abbrev pub with_nonce : List ℕ → Option (List ℕ) → Option (List ℕ) → Bool → ℕ → ℕ → Exported
  with_nonce wrap_key none random with_buf buf_len max_len = refused
  with_nonce wrap_key (some plaintext) none with_buf buf_len max_len = refused
  with_nonce wrap_key (some plaintext) (some nonce) with_buf buf_len max_len =
      wrap wrap_key plaintext nonce with_buf buf_len max_len

  -- opssl_session_export_encrypted: `random` is what opssl_random_bytes gives, `none` for its failure;
  -- `with_buf` tells that `buf` is not NULL, and `buf_len` is what `*buf_len` is before the call.
  unfoldable pub export_encrypted : Conn → List ℕ → Option (List ℕ) → Bool → ℕ → ℕ → Exported
  export_encrypted c wrap_key random with_buf buf_len max_len =
      if not (length wrap_key == 32)
      then refused
      else with_nonce wrap_key (export_sized c (session_export c none 0)) random with_buf buf_len
          max_len

  abbrev pub import_opened : Option (List ℕ) → Conn → Conn × Bool
  import_opened none c = (c, false)
  import_opened (some plaintext) c = session_import plaintext c

  abbrev pub opened_by : Option AeadCtx → List ℕ → Option (List ℕ)
  opened_by none buf = none
  opened_by (some ctx) buf = aead.open_ ctx (length (drop 12 buf)) (take 12 buf) (drop 12 buf) []

  -- opssl_session_import_encrypted: `false` is the return value -1.
  unfoldable pub import_encrypted : List ℕ → List ℕ → Conn → Conn × Bool
  import_encrypted wrap_key buf c =
      if not (length wrap_key == 32) || ltb (length buf) 29
      then (c, false)
      else import_opened (opened_by (wrap_context wrap_key) buf) c
