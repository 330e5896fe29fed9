-- ===== src/KeyUpdate/Lockstep.antt =====
-- Two connections in step, and one update of the keys between them.
use mathlib.Core.Path.{subst}
use opssl.Base.{
  ℕ, ◌+◌, ◌≡◌, ◌==◌, not, ◌||◌, Bool, true, false, refl, sym, ap, ◌∙◌, some, List, [], ◌∷◌,
  if◌then◌else◌, arith,
}
use opssl.Conn.{AeadCtx}
use opssl.Crypto.Hmac.{HmacAlgo, HashCalls, digest_size}
use opssl.Crypto.Hmac.Rfc2104.{IsHash}
use opssl.KeySchedule.Rfc8446.{Tls13Hash, hash_room}
use opssl.KeyUpdate.{
  Keys, ok, failed, Sending, our_secret, peer_secret, key_update, process_key_update, send_with,
  when_written, finish_pending_key_update, read_update, read_with, answered,
}
use opssl.KeyUpdate.Rekeyed.{
  next_secret, traffic_key, traffic_iv, with_new_key, IsKeyLen, key_len_small, writing, reading,
  apply_write_key_update_lem, read_update_lem,
}

-- What `a` writes with is what `b` reads with.
pub record Synced (a b : Keys) : Type 0 where
  pub secret : our_secret a ≡ peer_secret b
  pub key_len : a.write_key_len ≡ b.read_key_len
  pub key : a.write_key ≡ b.read_key
  pub iv : a.write_iv ≡ b.read_iv
  pub seq : a.write_seq ≡ b.read_seq
  pub ctx : AeadCtx
  pub writer : a.write_cipher ≡ some ctx
  pub reader : b.read_cipher ≡ some ctx

-- A connection of TLS 1.3 on which no key update is pending.
pub record IsOpen (h : HashCalls) (hash : HmacAlgo) (a : Keys) : Type 0 where
  pub tls13 : a.is_tls13 ≡ true
  pub done : a.complete ≡ true
  pub idle : a.key_update_apply_after_flush ≡ false
  pub algo : a.hash ≡ hash
  pub size : a.secret_len ≡ digest_size hash
  pub key_len : IsKeyLen a.write_key_len

-- Both ends of a session.
pub record InStep (h : HashCalls) (hash : HmacAlgo) (a b : Keys) : Type 0 where
  pub there : Synced a b
  pub back : Synced b a
  pub left : IsOpen h hash a
  pub right : IsOpen h hash b

-- Every call that sends succeeds.
abbrev pub delivered : Sending
delivered = record { waiting = false; flushed = ok; written = ok }

pub InStep-sym :
    {h : HashCalls} {hash : HmacAlgo} {a b : Keys} → InStep h hash a b → InStep h hash b a
InStep-sym s = record { there = s.back; back = s.there; left = s.right; right = s.left }

-- A secret that is set is the one that is read back, and the other one stays.
chosen :
    (server : Bool) (new x y : List ℕ)
    → (if server then (if server then new else x) else (if server then y else new)) ≡ new
chosen true new x y = refl
chosen false new x y = refl

unchosen :
    (server : Bool) (new x y : List ℕ)
    → (if server then (if server then x else new) else (if server then new else y))
      ≡ (if server then x else y)
unchosen true new x y = refl
unchosen false new x y = refl

our_secret-writing :
    (h : HashCalls) (a : Keys) (c : AeadCtx)
    → our_secret (writing h a c) ≡ next_secret h a.hash (our_secret a)
our_secret-writing h a c = chosen a.is_server _ a.server_traffic_secret a.client_traffic_secret

peer_secret-writing :
    (h : HashCalls) (a : Keys) (c : AeadCtx) → peer_secret (writing h a c) ≡ peer_secret a
peer_secret-writing h a c = unchosen a.is_server _ a.client_traffic_secret a.server_traffic_secret

peer_secret-reading :
    (h : HashCalls) (b : Keys) (c : AeadCtx)
    → peer_secret (reading h b c) ≡ next_secret h b.hash (peer_secret b)
peer_secret-reading h b c = chosen b.is_server _ b.client_traffic_secret b.server_traffic_secret

our_secret-reading :
    (h : HashCalls) (b : Keys) (c : AeadCtx) → our_secret (reading h b c) ≡ our_secret b
our_secret-reading h b c = unchosen b.is_server _ b.server_traffic_secret b.client_traffic_secret

-- `a` takes its next writing keys, and `b` the reading keys that go with them.
module _ (h : HashCalls) (hash : HmacAlgo) (spare : ℕ) (t : Tls13Hash hash)
    (law : IsHash h hash) where
  pub InStep-writing-reading :
      (a b : Keys) (s : InStep h hash a b)
      → InStep h hash (writing h a (s.there.ctx)) (reading h b (s.there.ctx))
  InStep-writing-reading a b s =
      let c = s.there.ctx in
      let same : a.hash ≡ b.hash = s.left.algo ∙ sym (s.right.algo) in
      let secret : next_secret h a.hash (our_secret a) ≡ next_secret h b.hash (peer_secret b) =
        λ i. next_secret h (same i) (s.there.secret i) in
      let key : traffic_key h a.hash (next_secret h a.hash (our_secret a)) a.write_key_len
          ≡ traffic_key h b.hash (next_secret h b.hash (peer_secret b)) b.read_key_len =
        λ i. traffic_key h (same i) (secret i) (s.there.key_len i) in
      record {
        there = record {
          secret = our_secret-writing h a c ∙ secret ∙ sym (peer_secret-reading h b c);
          key_len = s.there.key_len;
          key = key;
          iv = λ i. traffic_iv h (same i) (secret i);
          seq = refl;
          ctx =
              with_new_key c
                (traffic_key h a.hash (next_secret h a.hash (our_secret a)) a.write_key_len)
                a.write_key_len;
          writer = refl;
          reader = λ i. some (with_new_key c (sym key i) (sym (s.there.key_len) i));
        };
        back = record {
          secret = our_secret-reading h b c ∙ s.back.secret ∙ sym (peer_secret-writing h a c);
          key_len = s.back.key_len;
          key = s.back.key;
          iv = s.back.iv;
          seq = s.back.seq;
          ctx = s.back.ctx;
          writer = s.back.writer;
          reader = s.back.reader;
        };
        left = record {
          tls13 = s.left.tls13;
          done = s.left.done;
          idle = s.left.idle;
          algo = s.left.algo;
          size = s.left.size;
          key_len = s.left.key_len;
        };
        right = record {
          tls13 = s.right.tls13;
          done = s.right.done;
          idle = s.right.idle;
          algo = s.right.algo;
          size = s.right.size;
          key_len = s.right.key_len;
        };
      }

  lengths :
      (a : Keys) (n : ℕ)
      → a.secret_len ≡ digest_size hash
      → IsKeyLen n
      → ((a.secret_len == 0) ≡ false) × ((n == 0) ≡ false)
  lengths a n size key_len =
      let room = hash_room t in
      let small = key_len_small n key_len in (ground (arith, size, room.0), ground (arith, small.0))

  pub key_update_step :
      (a b : Keys) (s : InStep h hash a b)
      → key_update h (256 + spare) delivered a ≡ (writing h a (s.there.ctx), ok)
  unfolding key_update
  key_update_step a b s =
      let c = s.there.ctx in
      let (some_secret, some_key) = lengths a a.write_key_len (s.left.size) (s.left.key_len) in
      let applied =
        apply_write_key_update_lem h a c spare (subst Tls13Hash (sym (s.left.algo)) t)
          (subst (IsHash h) (sym (s.left.algo)) law)
          (s.left.size ∙ ap digest_size (sym (s.left.algo))) (s.there.writer) (s.left.key_len) in
      let send : send_with h (256 + spare) delivered a (some c) ≡ (writing h a c, ok) =
        rw (some_secret, some_key) (ap (when_written a ok) applied) in
      (λ i.
        if not (s.left.tls13 i) || not (s.left.done i)
        then (a, failed)
        else if s.left.idle i
        then finish_pending_key_update h (256 + spare) delivered a
        else send_with h (256 + spare) delivered a (s.there.writer i))
      ∙ send

  read_update_step :
      (a b : Keys) (s : InStep h hash a b)
      → read_update h (256 + spare) b (s.there.ctx) ≡ (reading h b (s.there.ctx), ok)
  read_update_step a b s =
      read_update_lem h b (s.there.ctx) spare (subst Tls13Hash (sym (s.right.algo)) t)
        (subst (IsHash h) (sym (s.right.algo)) law)
        (s.right.size ∙ ap digest_size (sym (s.right.algo)))
        (subst IsKeyLen (s.there.key_len) (s.left.key_len))

  pub process_step :
      (a b : Keys) (s : InStep h hash a b)
      → (process_key_update h (256 + spare) delivered b (0 ∷ []) ≡ (reading h b (s.there.ctx), ok))
        × (process_key_update h (256 + spare) delivered b (1 ∷ [])
            ≡ key_update h (256 + spare) delivered (reading h b (s.there.ctx)))
  unfolding process_key_update
  process_step a b s =
      let (some_secret, some_key) =
        lengths b b.read_key_len (s.right.size)
          (subst IsKeyLen (s.there.key_len) (s.left.key_len)) in
      let read = read_update_step a b s in
      let c = s.there.ctx in
      let none_asked : read_with h (256 + spare) delivered 0 b (some c) ≡ (reading h b c, ok) =
        rw (some_secret, some_key) (ap (answered h (256 + spare) delivered 0) read) in
      let one_asked : read_with h (256 + spare) delivered 1 b (some c)
          ≡ key_update h (256 + spare) delivered (reading h b c) =
        rw (some_secret, some_key) (ap (answered h (256 + spare) delivered 1) read) in
      (
        ap (read_with h (256 + spare) delivered 0 b) (s.there.reader) ∙ none_asked,
        ap (read_with h (256 + spare) delivered 1 b) (s.there.reader) ∙ one_asked,
      )
