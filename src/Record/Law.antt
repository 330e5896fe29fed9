-- ===== src/Record/Law.antt =====
-- The contract of an AEAD with tags of sixteen bytes, which record.c takes for granted.
use opssl.Base.{ℕ, ◌+◌, ◌^◌, ◌≤◌, ◌≡◌, List, some, length}
use opssl.Record.{AeadCalls}
use opssl.Conn.{AeadCtx}

-- With a nonce of twelve bytes, a text that fits in a record, and room, a seal succeeds, its result is
-- sixteen bytes longer than the text, and opening it with the same nonce and additional data gives
-- the text back.
pub record IsAead (aead : AeadCalls) (ctx : AeadCtx) : Type 0 where
  pub open-seal :
      (max_out room : ℕ) (nonce text aad : List ℕ)
      → length nonce ≡ 12
      → length text ≤ 2 ^ 16
      → length text + 16 ≤ max_out
      → length text ≤ room
      → (sealed : List ℕ) × (aead.seal ctx max_out nonce text aad ≡ some sealed)
        × (length sealed ≡ length text + 16)
        × (aead.open_ ctx room nonce sealed aad ≡ some text)
