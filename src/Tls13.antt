-- ===== src/Tls13.antt =====
-- src/tls/tls13.c: the parts of the TLS 1.3 handshake that are modelled.
pub mod Secrets
pub mod Negotiation
