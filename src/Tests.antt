-- ===== src/Tests.antt =====
-- Runs of the modelled code at concrete inputs, and the theorems at these inputs.
pub mod Parsing
pub mod Connection
pub mod Migration
pub mod Datagrams
pub mod Vectors
pub mod Protection
pub mod Derivation
pub mod Building
pub mod Secrets
pub mod Negotiation
pub mod Updates
pub mod Hostnames
