-- ===== src/Session/Roundtrip.antt =====
-- A session that is exported from one connection and imported into another.
use opssl.Base.{
  ℕ, ◌≤◌, ◌≡◌, refl, sym, ap, true, Option, none, some, List, length, take, ltb, inl, inr,
  Option-cases, Bool-cases, [], ◌||◌, le→ltb, length-take, arith,
}
use mathlib.Core.Option
use opssl.Bytes.{store}
use opssl.Ciphersuite.{Params, get_params}
use opssl.Conn.{
  Conn, keyed, flag, set_cipher, set_read_key, set_write_key, set_read_iv, set_write_iv,
  set_read_seq, set_write_seq, set_flags, get_flags, get_read_key, get_write_key, get_read_iv,
  get_write_iv, key_out,
}
use opssl.Conn.Flags.{again, flags_back}
use opssl.Conn.Keys.{IsConn, take-store, key_out-store, key_out-some}
use opssl.Session.{
  State, gather, write_state, apply_state, session_export, session_import, Exported, put_out,
  written, too_small, required_len,
}
use opssl.Session.Format.{IsState, read_state-write_state}

-- The connection that the setters leave, where none of them fails.
abbrev pub imported : State → Params → Conn → Conn
imported s p d = record {
  cipher = s.cipher;
  read_cipher = keyed s.reading.key (some p) d.read_cipher;
  write_cipher = keyed s.writing.key (some p) d.write_cipher;
  read_iv = store d.read_iv 0 s.reading.iv;
  write_iv = store d.write_iv 0 s.writing.iv;
  read_seq = s.reading.seq;
  write_seq = s.writing.seq;
  is_tls13 = flag s.flags 0;
  read_encrypted = flag s.flags 1;
  write_encrypted = flag s.flags 2;
  shutdown_sent = flag s.flags 3;
  postquantum = flag s.flags 4;
  read_key = store d.read_key 0 s.reading.key;
  read_key_len = length s.reading.key;
  write_key = store d.write_key 0 s.writing.key;
  write_key_len = length s.writing.key;
}

pub apply_state_lem :
    (s : State) (p : Params) (d : Conn)
    → IsState s
    → length s.reading.iv ≤ 12
    → length s.writing.iv ≤ 12
    → get_params s.cipher ≡ some p
    → apply_state s d ≡ (imported s p d, true)
unfolding apply_state set_cipher set_read_key set_write_key set_read_iv set_write_iv set_read_seq
    set_write_seq set_flags
apply_state_lem s p d ok l1 l2 known =
    rw
      (
        le→ltb 32 (length s.reading.key) ok.reading_fits.key_fits,
        known,
        le→ltb 32 (length s.writing.key) ok.writing_fits.key_fits,
        known,
        le→ltb 12 (length s.reading.iv) l1,
        le→ltb 12 (length s.writing.iv) l2,
      )
      refl

gather-imported :
    (s : State) (p : Params) (d : Conn)
    → IsState s
    → IsConn d
    → length s.reading.iv ≡ 12
    → length s.writing.iv ≡ 12
    → again s.flags ≡ s.flags
    → gather (imported s p d) ≡ some s
unfolding gather get_flags get_read_key get_write_key get_read_iv get_write_iv
gather-imported s p d ok conn l1 l2 same =
    rw
      (
        key_out-store s.reading.key d.read_key conn.read_key_size ok.reading_fits.key_some
            ok.reading_fits.key_fits,
        key_out-store s.writing.key d.write_key conn.write_key_size ok.writing_fits.key_some
            ok.writing_fits.key_fits,
        take-store s.reading.iv d.read_iv 12 l1 (omega (arith, conn.read_iv_size)),
        take-store s.writing.iv d.write_iv 12 l2 (omega (arith, conn.write_iv_size)),
        same,
      )
      refl

abbrev state_of : Conn → List ℕ → List ℕ → State
state_of c k l = record {
  cipher = c.cipher;
  flags = get_flags c;
  reading = record { key = k; iv = take 12 c.read_iv; seq = c.read_seq };
  writing = record { key = l; iv = take 12 c.write_iv; seq = c.write_seq };
}

state_of-IsState :
    (c : Conn) (k l : List ℕ)
    → IsConn c
    → (1 ≤ length k) × (length k ≤ 32)
    → (1 ≤ length l) × (length l ≤ 32)
    → let s = state_of c k l in
      IsState s
      × (length s.reading.iv ≡ 12)
      × (length s.writing.iv ≡ 12)
      × (again s.flags ≡ s.flags)
      × (s.cipher ≡ c.cipher)
unfolding get_flags
state_of-IsState c k l conn (k1, k2) (l1, l2) =
    let (same, small) =
      flags_back c.is_tls13 c.read_encrypted c.write_encrypted c.shutdown_sent c.postquantum in
    let iv1 : length (take 12 c.read_iv) ≡ 12 =
      omega (arith, length-take 12 c.read_iv, conn.read_iv_size) in
    let iv2 : length (take 12 c.write_iv) ≡ 12 =
      omega (arith, length-take 12 c.write_iv, conn.write_iv_size) in
    (
      record {
        cipher_fits = conn.cipher_fits;
        flags_fit = small;
        reading_fits = record {
          key_some = k1;
          key_fits = k2;
          iv_fits = omega arith;
          seq_fits = conn.read_seq_fits;
        };
        writing_fits = record {
          key_some = l1;
          key_fits = l2;
          iv_fits = omega arith;
          seq_fits = conn.write_seq_fits;
        };
      },
      iv1,
      iv2,
      same,
      refl,
    )

-- What a connection gives out is a state that the format can hold, with whole IVs.
pub gather-IsState :
    (c : Conn) (s : State)
    → IsConn c
    → gather c ≡ some s
    → IsState s
      × (length s.reading.iv ≡ 12)
      × (length s.writing.iv ≡ 12)
      × (again s.flags ≡ s.flags)
      × (s.cipher ≡ c.cipher)
unfolding gather get_read_key get_write_key get_read_iv get_write_iv get_flags
gather-IsState c s conn e = elim (Option-cases (key_out c.read_key c.read_key_len 32)) [
  | inl r ↦ let absurd : none ≡ some s = rw r at e in cc
  | inr (k, r) ↦ elim (Option-cases (key_out c.write_key c.write_key_len 32)) [
    | inl w ↦ let absurd : none ≡ some s = rw (r, w) at e in cc
    | inr (l, w) ↦
        let same : state_of c k l ≡ s = Option.some-injective (state_of c k l) s (rw (r, w) at e) in
        rw (sym same) (
          state_of-IsState c k l conn (key_out-some c.read_key c.read_key_len conn.read_key_size r)
            (key_out-some c.write_key c.write_key_len conn.write_key_size w))
  ]
]

abbrev bytes_of : Exported → List ℕ
bytes_of (written bytes) = bytes
bytes_of _ = []

pub put_out_written :
    (o : Option State) (buf_len max_len : ℕ) (bytes : List ℕ)
    → put_out o (some buf_len) max_len ≡ written bytes
    → (s : State) × (o ≡ some s) × (write_state s ≡ bytes)
put_out_written none buf_len max_len bytes e = cc
put_out_written (some s) buf_len max_len bytes e =
    elim (Bool-cases (ltb buf_len (required_len s) || ltb max_len (required_len s))) [
      | inl h ↦ let absurd : too_small (required_len s) ≡ written bytes = rw h at e in cc
      | inr h ↦ (s, refl, ap bytes_of (rw h at e))
    ]

-- The bytes of an export, imported into any connection whose arrays have their sizes, are accepted
-- where the registry knows the cipher suite, and an export of that connection would then be made of
-- the same state: the same cipher suite, keys, IVs, sequence numbers and flags.
pub session_import-session_export :
    (c d : Conn) (p : Params) (buf_len max_len : ℕ) (bytes : List ℕ)
    → IsConn c
    → IsConn d
    → get_params c.cipher ≡ some p
    → session_export c (some buf_len) max_len ≡ written bytes
    → ((session_import bytes d).1 ≡ true) × (gather (session_import bytes d).0 ≡ gather c)
unfolding session_export session_import
session_import-session_export c d p buf_len max_len bytes hc hd known e =
    let (s, g, out) = put_out_written (gather c) buf_len max_len bytes e in
    let (ok, l1, l2, same, cipher) = gather-IsState c s hc g in
    let known' : get_params s.cipher ≡ some p = rw cipher known in
    rw
      (
        sym out,
        read_state-write_state s ok,
        apply_state_lem s p d ok (omega arith) (omega arith) known',
        g,
      )
      (refl, gather-imported s p d ok hd l1 l2 same)
