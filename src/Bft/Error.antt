-- ===== src/Bft/Error.antt =====
-- The phases of a round and the errors of the engine: `Phase` of
-- crates/aii-consensus-bft/src/bft.rs and `BftError` of crates/aii-consensus-bft/src/lib.rs.
use aii.Base.{ℕ}

pub data Phase : Type 0 where
  awaiting_proposal prevoting precommitting committed : Phase

-- The labels and texts that are there for the messages alone are left out: of
-- `invalid_validator_pubkey` the index stays, of `invalid_proposal_body` nothing.
pub data BftError : Type 0 where
  overflow empty_validator_set total_stake_overflow zero_total_stake : BftError
  validator_set_too_large : ℕ → ℕ → BftError
  wrong_block_hash wrong_height wrong_round : BftError
  validator_index_out_of_bounds : ℕ → ℕ → BftError
  duplicate_vote : ℕ → BftError
  invalid_bls_signature invalid_vrf_proof : BftError
  wrong_phase : Phase → Phase → BftError
  not_single_validator : ℕ → BftError
  no_active_coordinator : BftError
  not_leader : ℕ → ℕ → BftError
  invalid_validator_pubkey : ℕ → BftError
  proposal_hash_mismatch invalid_proposal_body active_round_in_progress : BftError
