-- ===== src/Session/Refusals.antt =====
-- What opssl_session_import makes of a state that the registry or the AEAD context does not take.
use opssl.Base.{ℕ, ◌≤◌, ◌≡◌, ◌≢◌, refl, true, false, none, some, length, ◌==◌, le→ltb, arith}
use opssl.Ciphersuite.{Params, get_params}
use opssl.Conn.{Conn, aead_new, aead_set_key, set_cipher, set_read_key}
use opssl.Session.{State, write_state, apply_state, session_import}
use opssl.Session.Format.{IsState, read_state-write_state}
use opssl.Session.Roundtrip.{apply_state_lem}

not_equal : (a b : ℕ) → a ≢ b → (a == b) ≡ false
not_equal a b h = ground arith

-- An export whose reading key is neither 16 nor 32 bytes long is accepted, and the connection is
-- left with an AEAD context that took no key: its key is all zeros, of length 0.
pub import_unkeyed :
    (s : State) (p : Params) (d : Conn)
    → IsState s
    → length s.reading.iv ≤ 12
    → length s.writing.iv ≤ 12
    → get_params s.cipher ≡ some p
    → length s.reading.key ≢ 16
    → length s.reading.key ≢ 32
    → ((session_import (write_state s) d).1 ≡ true)
      × ((session_import (write_state s) d).0.read_cipher ≡ some (aead_new p.aead))
unfolding session_import aead_set_key
import_unkeyed s p d ok l1 l2 known k16 k32 =
    rw
      (
        read_state-write_state s ok,
        apply_state_lem s p d ok l1 l2 known,
        not_equal _ 16 k16,
        not_equal _ 32 k32,
      )
      (refl, refl)

-- An export for a cipher suite that the registry does not know is refused, but the connection has
-- been changed: it has the cipher suite of the export and the length of its reading key.
pub import_unknown_suite :
    (s : State) (d : Conn)
    → IsState s
    → get_params s.cipher ≡ none
    → ((session_import (write_state s) d).1 ≡ false)
      × ((session_import (write_state s) d).0.cipher ≡ s.cipher)
      × ((session_import (write_state s) d).0.read_key_len ≡ length s.reading.key)
unfolding session_import apply_state set_cipher set_read_key
import_unknown_suite s d ok unknown =
    rw
      (
        read_state-write_state s ok,
        le→ltb 32 (length s.reading.key) ok.reading_fits.key_fits,
        unknown,
      )
      (refl, refl, refl)
