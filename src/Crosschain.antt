-- ===== src/Crosschain.antt =====
-- Cross-chain primitives, crates/aii-crosschain/src: time-locked contracts and the federated bridge.
pub mod Htlc
pub mod Federation
mod Tests
