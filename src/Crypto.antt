-- ===== src/Crypto.antt =====
-- src/crypto: the constant-time operations, ChaCha20, Poly1305, and the AEAD made of the two.
pub mod LittleEndian
pub mod ConstantTime
pub mod ChaCha20
pub mod Poly1305
pub mod ChaCha20Poly1305
pub mod Aead
pub mod Sha256
pub mod Hmac
pub mod Hkdf
