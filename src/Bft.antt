-- ===== src/Bft.antt =====
-- The BFT finality state machine, crates/aii-consensus-bft/src.
pub mod Error
pub mod Validators
pub mod Votes
pub mod Certificate
pub mod Tally
pub mod Coordinator
pub mod Slashing
pub mod Engine
pub mod Wire
pub mod Gossip
mod Tests
