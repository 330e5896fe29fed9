-- ===== src/Record/Exchange.antt =====
-- A conversation over src/tls/record.c: a writer that encrypts messages one after another, and a
-- reader that decrypts the records as they come.
use opssl.Base.{
  ℕ, ◌+◌, ◌^◌, ◌≤◌, ◌<◌, ◌≡◌, refl, sym, ap, ◌∙◌, Bool-cases, inl, inr, Option, some, none, List,
  [], ◌∷◌, ◌++◌, length, take, drop, replicate, All, map, length-append, length-replicate,
  drop-length, append-nil, arith,
}
use opssl.Conn.{AeadCtx}
use opssl.Record.{
  RecordState, AeadCalls, Outcome, encrypted, decrypted, failed, next, record_encrypt,
  record_decrypt,
}
use opssl.Record.Buffer.{take-append_exact}
use opssl.Record.Law.{IsAead}
use opssl.Record.Channel.{IsReady, text_at, record_decrypt-encrypt}

-- The buffer that a caller hands to opssl_record_encrypt: the text in its place, and room around it.
abbrev pub prepared : RecordState → List ℕ → List ℕ
prepared st text = replicate (text_at st) 0 ++ (text ++ replicate 24 0)

-- What a reader has from a call: the content type and the text.
unfoldable pub received : RecordState × (List ℕ × Outcome) → RecordState × Option (ℕ × List ℕ)
received (st, (buf, decrypted n content_type)) = (st, some (content_type, take n (drop 5 buf)))
received (st, (buf, encrypted n)) = (st, none)
received (st, (buf, failed reason)) = (st, none)

module _ (aead : AeadCalls) where
  -- The record that was written goes to the reader.
  unfoldable pub carry : RecordState → List ℕ → Outcome → RecordState × Option (ℕ × List ℕ)
  carry reader buf (encrypted total) = received (record_decrypt aead reader (take total buf) total)
  carry reader buf (decrypted n content_type) = (reader, none)
  carry reader buf (failed reason) = (reader, none)

  unfoldable pub exchange :
      RecordState → RecordState → List (ℕ × List ℕ) → List (Option (ℕ × List ℕ))
  exchange writer reader [] = []
  exchange writer reader ((content_type, text) ∷ later) =
      let (writer', (buf, outcome)) =
        record_encrypt aead writer (prepared writer text) content_type (length text) in
      let (reader', got) = carry reader buf outcome in got ∷ exchange writer' reader' later

-- A message that a record can carry.
abbrev pub IsMessage : ℕ × List ℕ → Type 0
IsMessage (content_type, text) = (0 < content_type) × (length text + 24 < 2 ^ 16)

length-prepared :
    (st : RecordState) (text : List ℕ)
    → (length (prepared st text) ≡ text_at st + (length text + 24))
      × (take (length text) (drop (text_at st) (prepared st text)) ≡ text)
length-prepared st text =
    let front = replicate (text_at st) 0 in
    let back = text ++ replicate 24 0 in
    let size = length-replicate (text_at st) 0 in
    (
      length-append front back ∙ (λ i. size i + length-append text (replicate 24 0) i),
      ap (λ k. take (length text) (drop k (front ++ back))) (sym size)
          ∙ ap (take (length text)) (drop-length front back)
          ∙ take-append_exact (length text) text (replicate 24 0) refl,
    )

text_at_least : (st : RecordState) → 5 ≤ text_at st
text_at_least st = elim (Bool-cases st.is_tls13) [
  | inl e ↦ rw e (omega arith)
  | inr e ↦ rw e (omega arith)
]

-- A writer and a reader that start in the same state, in either version: of any number of messages,
-- as long as there are sequence numbers for them, the reader receives each one, in order.
pub exchange_lem :
    (aead : AeadCalls) (ctx : AeadCtx) (st : RecordState) (messages : List (ℕ × List ℕ))
    → IsAead aead ctx
    → st.cipher ≡ some ctx
    → length st.iv ≡ 12
    → st.seq + length messages < 2 ^ 64
    → All IsMessage messages
    → exchange aead st st messages ≡ map (λ m. some m) messages
unfolding exchange carry received
exchange_lem aead ctx st [] law keyed iv left good = refl
exchange_lem aead ctx st ((content_type, text) ∷ later) law keyed iv left ((type, small), good) =
    let (size, place) = length-prepared st text in
    let ready : IsReady ctx st = record { keyed = keyed; iv_size = iv; left = omega arith } in
    let (total, buf, opened, wrote, took, same) =
      record_decrypt-encrypt aead ctx st (prepared st text) [] content_type (length text) 0 law
        ready type small (omega (arith, text_at_least st)) in
    let exact : total + 0 ≡ total = omega arith in
    let took' : record_decrypt aead st (take total buf) total
        ≡ (next st, (opened, decrypted (length text) content_type)) =
      (λ i. record_decrypt aead st (sym (append-nil (take total buf)) i) (sym exact i)) ∙ took in
    let rest = exchange_lem aead ctx (next st) later law keyed iv (omega arith) good in
    rw (wrote, took', same, place) (ap (λ l. some (content_type, text) ∷ l) rest)
