-- ===== src/Tls13/Secrets/Transcript.antt =====
-- The running transcript of src/tls/tls13.c, which both hashes take.
use opssl.Base.{ℕ, ◌≡◌, refl, ap, ◌∙◌, some, List, [], ◌∷◌, concat}
use opssl.Crypto.Hmac.{HmacAlgo, hmac_sha256, hmac_sha384, HashCalls}
use opssl.Crypto.Hmac.Rfc2104.{IsHash, absorbed}
use opssl.KeySchedule.Rfc8446.{Tls13Hash, with_sha256, with_sha384}
use opssl.Tls13.Secrets.{Handshake, update_transcript, get_transcript_hash}

-- A call of tls13_update_transcript for each of these.
unfoldable pub updates : (h : HashCalls) → Handshake h → List (List ℕ) → Handshake h
updates h hs [] = hs
updates h hs (message ∷ later) = updates h (update_transcript h hs message) later

transcript_sha256-updates :
    (h : HashCalls) (hs : Handshake h) (messages : List (List ℕ))
    → (updates h hs messages).transcript_sha256
      ≡ absorbed h hmac_sha256 hs.transcript_sha256 messages
unfolding updates update_transcript
transcript_sha256-updates h hs [] = refl
transcript_sha256-updates h hs (message ∷ later) =
    transcript_sha256-updates h (update_transcript h hs message) later

transcript_sha384-updates :
    (h : HashCalls) (hs : Handshake h) (messages : List (List ℕ))
    → (updates h hs messages).transcript_sha384
      ≡ absorbed h hmac_sha384 hs.transcript_sha384 messages
unfolding updates update_transcript
transcript_sha384-updates h hs [] = refl
transcript_sha384-updates h hs (message ∷ later) =
    transcript_sha384-updates h (update_transcript h hs message) later

-- From fresh contexts, the transcript hash of a cipher suite's algorithm is the digest of all messages
-- one behind the other, also where the algorithm is set when the messages are already hashed. The hash function
-- streams, and is SHA-256 or SHA-384.
pub get_transcript_hash-updates :
    (h : HashCalls) (hs : Handshake h) (hash : HmacAlgo) (len : ℕ) (messages : List (List ℕ))
    → Tls13Hash hash
    → IsHash h hash
    → hs.transcript_sha256 ≡ h.start hmac_sha256
    → hs.transcript_sha384 ≡ h.start hmac_sha384
    → get_transcript_hash h (record (updates h hs messages) { hash_algo = hash; hash_len = len })
      ≡ some (h.digest hash (concat messages))
get_transcript_hash-updates h hs hash len messages with_sha256 law e f = ap some (
    ap (h.finish hmac_sha256) (transcript_sha256-updates h hs messages)
    ∙ ap (λ s. h.finish hmac_sha256 (absorbed h hmac_sha256 s messages)) e
    ∙ law.streams messages)
get_transcript_hash-updates h hs hash len messages with_sha384 law e f = ap some (
    ap (h.finish hmac_sha384) (transcript_sha384-updates h hs messages)
    ∙ ap (λ s. h.finish hmac_sha384 (absorbed h hmac_sha384 s messages)) f
    ∙ law.streams messages)
