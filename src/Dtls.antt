-- ===== src/Dtls.antt =====
-- src/tls/dtls.c: the anti-replay window, the reassembly of handshake fragments, the flight buffer
-- and the retransmission timer.
pub mod Replay
pub mod Reassembly
pub mod Flight
pub mod Timer
