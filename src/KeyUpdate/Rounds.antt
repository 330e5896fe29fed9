-- ===== src/KeyUpdate/Rounds.antt =====
-- Updates one after another, from either side.
use opssl.Base.{
  drop, ℕ, ◌+◌, ◌≡◌, Bool, true, false, refl, ap, ◌∙◌, Option, none, some, List, [], ◌∷◌,
}
use opssl.Crypto.Hmac.{HmacAlgo, HashCalls}
use opssl.Crypto.Hmac.Rfc2104.{IsHash}
use opssl.KeySchedule.Rfc8446.{Tls13Hash}
use opssl.KeyUpdate.{
  key_update_message, Keys, Result, ok, failed, want_read, want_write, unending, key_update,
  process_key_update,
}
use opssl.KeyUpdate.Rekeyed.{writing, reading}
use opssl.KeyUpdate.Lockstep.{
  key_update_step, process_step, InStep-writing-reading, InStep, delivered, InStep-sym,
}

-- An update that `a` starts, over a transport that delivers: `b` reads the message, and answers where
-- `a` asks for it. `none` is a call that does not return OPSSL_OK.
abbrev both_ok : Keys × Result → Keys × Result → Option (Keys × Keys)
both_ok (a, ok) (b, ok) = some (a, b)
both_ok (a, ok) (b, failed) = none
both_ok (a, ok) (b, want_read) = none
both_ok (a, ok) (b, want_write) = none
both_ok (a, ok) (b, unending) = none
both_ok (a, failed) y = none
both_ok (a, want_read) y = none
both_ok (a, want_write) y = none
both_ok (a, unending) y = none

abbrev answer : HashCalls → ℕ → Bool → Option (Keys × Keys) → Option (Keys × Keys)
answer h fuel request none = none
answer h fuel false (some (a, b)) = some (a, b)
answer h fuel true (some (a, b)) = both_ok (process_key_update h fuel delivered a (0 ∷ [])) (b, ok)

unfoldable pub update : HashCalls → ℕ → Bool → Keys → Keys → Option (Keys × Keys)
update h fuel request a b = answer h fuel request (
    both_ok (key_update h fuel delivered a)
      (process_key_update h fuel delivered b (drop 4 (key_update_message request))))

-- Updates one after another, each by either side, with or without a request.
pub data Side : Type 0 where
  first second : Side

abbrev next_round :
    (Keys → Keys → Option (Keys × Keys)) → Option (Keys × Keys) → Option (Keys × Keys)
next_round f none = none
next_round f (some (a, b)) = f a b

unfoldable pub rounds : HashCalls → ℕ → List (Side × Bool) → Keys → Keys → Option (Keys × Keys)
rounds h fuel [] a b = some (a, b)
rounds h fuel ((first, request) ∷ later) a b =
    next_round (rounds h fuel later) (update h fuel request a b)
rounds h fuel ((second, request) ∷ later) a b =
    next_round (λ b' a'. rounds h fuel later a' b') (update h fuel request b a)

module _ (h : HashCalls) (hash : HmacAlgo) (spare : ℕ) (t : Tls13Hash hash)
    (law : IsHash h hash) where
  update_lem :
      (request : Bool) (a b : Keys)
      → InStep h hash a b
      → (a' : Keys) × (b' : Keys) × (update h (256 + spare) request a b ≡ some (a', b'))
        × InStep h hash a' b'
  unfolding update
  update_lem false a b s =
      let c = s.there.ctx in
      (
        writing h a c,
        reading h b c,
        (λ i. answer h (256 + spare) false (
            both_ok (key_update_step h hash spare t law a b s i)
              ((process_step h hash spare t law a b s).0 i))),
        InStep-writing-reading h hash spare t law a b s,
      )
  update_lem true a b s =
      let c = s.there.ctx in
      let next = InStep-writing-reading h hash spare t law a b s in
      let turned = InStep-sym next in
      let c' = turned.there.ctx in
      let wrote = key_update_step h hash spare t law a b s in
      let answers : process_key_update h (256 + spare) delivered b (1 ∷ [])
          ≡ (writing h (reading h b c) c', ok) =
        (process_step h hash spare t law a b s).1
        ∙ key_update_step h hash spare t law (reading h b c) (writing h a c) turned in
      let last = (process_step h hash spare t law (reading h b c) (writing h a c) turned).0 in
      (
        reading h (writing h a c) c',
        writing h (reading h b c) c',
        (λ i. answer h (256 + spare) true (both_ok (wrote i) (answers i)))
            ∙ (λ i. both_ok (last i) (writing h (reading h b c) c', ok)),
        InStep-sym
            (InStep-writing-reading h hash spare t law (reading h b c) (writing h a c) turned),
      )

  -- However often the two sides of a session update their keys, and whichever of them starts, with or
  -- without asking for an answer: every call succeeds, and what each side writes with stays what
  -- the other reads with, the secrets, keys, IVs, sequence numbers and AEAD contexts. At the start
  -- both are in step; the hash function streams and is SHA-256 or SHA-384; and the transport
  -- delivers.
  pub rounds_lem :
      (events : List (Side × Bool)) (a b : Keys)
      → InStep h hash a b
      → (a' : Keys) × (b' : Keys) × (rounds h (256 + spare) events a b ≡ some (a', b'))
        × InStep h hash a' b'
  unfolding rounds
  rounds_lem [] a b s = (a, b, refl, s)
  rounds_lem ((first, request) ∷ later) a b s =
      let (a1, b1, step, s1) = update_lem request a b s in
      let (a', b', steps, s') = rounds_lem later a1 b1 s1 in
      (a', b', ap (next_round (rounds h (256 + spare) later)) step ∙ steps, s')
  rounds_lem ((second, request) ∷ later) a b s =
      let (b1, a1, step, s1) = update_lem request b a (InStep-sym s) in
      let (a', b', steps, s') = rounds_lem later a1 b1 (InStep-sym s1) in
      (a', b', ap (next_round (λ y x. rounds h (256 + spare) later x y)) step ∙ steps, s')
