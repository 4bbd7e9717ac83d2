-- ===== src/Bft/Engine/Samples.antt =====
-- Small engines over the toy scheme, for the tests: three validators, and one.
use aii.Base.{
  ℕ, suc, ◌+◌, ◌*◌, ◌≤◌, ◌<◌, ◌≡◌, ◌≢◌, ◌↔◌, ◌⊎◌, refl, none, some, Option, List, [], ◌∷◌, Result,
  ok, err, panic, arith,
}
use aii.Crypto.Toy.{toy, toy-Aggregates}
use aii.Block.{Header, Block, Blocks}
use aii.Bft.Coordinator.{Coordinator}
use aii.Bft.Validators.{Validator, ValidatorSet, IsValid}
use aii.Bft.Votes.{Vote, prevote, precommit, LeaderProof, produce, sign}
use aii.Bft.Certificate.{Certificate}
use aii.Bft.Engine.{
  EngineState, BftEngine, BftConfig, start_at, try_harvest_committed, committed_block_at,
  adopt_synced_block,
}
use aii.Bft.Engine.Invariant.{EngineInv}
use aii.Bft.Engine.Rounds.{
  Call, apply_calls, remote_proposal, remote_prevote, remote_precommit, submit_remote_proposal,
}
use aii.Bft.Engine.Votes.{drain_pending_votes}
use aii.Bft.Engine.Rounds.{ensured, Call}
use aii.Bft.Engine.Calls.{start_at-Inv, apply_calls-EngineInv}

abbrev pub b : Blocks
b = record { Tx = ℕ; header_hash = λ h. h.number + 76; root_of = λ body. 0 }

abbrev pub header : Header
header = record {
  parent_hash = 76;
  ommers_hash = 0;
  beneficiary = 0;
  state_root = 0;
  transactions_root = 0;
  receipts_root = 0;
  logs_bloom = 0;
  difficulty = 0;
  number = 0;
  gas_limit = 30000000;
  gas_used = 0;
  timestamp = 5;
  extra_data = [];
  mix_hash = 9;
  nonce = 0;
  base_fee_per_gas = 1;
  withdrawals_root = 0;
  blob_gas_used = none;
  excess_blob_gas = none;
  parent_beacon_block_root = none;
}

abbrev pub genesis : Block ℕ
genesis = record {
  header = header;
  body = record { transactions = []; ommers = []; withdrawals = [] };
}

abbrev pub block : Block ℕ
block = record {
  header = record header { number = 1 };
  body = record { transactions = 4 ∷ []; ommers = []; withdrawals = [] };
}

abbrev pub member : ℕ → Validator
member sk = record { bls_pubkey = sk; vrf_pubkey = sk; stake = 100 }

abbrev pub trio : ValidatorSet
trio = record { validators = member 1 ∷ member 2 ∷ member 3 ∷ []; total_stake = 300 }

pub trio-IsValid : IsValid trio
trio-IsValid = omega arith

abbrev pub solo : ValidatorSet
solo = record { validators = member 1 ∷ []; total_stake = 100 }

pub solo-IsValid : IsValid solo
solo-IsValid = omega arith

abbrev pub config : ValidatorSet → BftConfig b
config vs = record {
  validator_set = vs;
  my_index = 0;
  my_bls_sk = 1;
  my_vrf_sk = 1;
  initial_seed = 9;
  coinbase = 42;
  gas_limit = 30000000;
  base_fee_per_gas = 1;
  slot_seconds = 3;
  executor = none;
}

abbrev pub fresh : BftEngine b
fresh = start_at b (config trio) genesis 9

pub fresh-Inv : EngineInv b toy fresh.state
fresh-Inv = start_at-Inv b toy (config trio) genesis 9 trio-IsValid

abbrev pub pre : ℕ → Vote prevote
pre i = sign toy prevote (i + 1) 77 1 0 i

abbrev pub commit : ℕ → Vote precommit
commit i = sign toy precommit (i + 1) 77 1 0 i

-- The leader of round 0 is the first validator. A block, and the votes of all.
abbrev pub proof : LeaderProof
proof = produce toy 1 1 0 9

abbrev pub round : List (Call b toy)
round =
    remote_proposal block proof
    ∷ remote_prevote (pre 2)
    ∷ remote_prevote (pre 0)
    ∷ remote_prevote (pre 1)
    ∷ remote_precommit (commit 1)
    ∷ remote_precommit (commit 0)
    ∷ remote_precommit (commit 2)
    ∷ []

-- The engine after the round, and one that has the proposal and votes that came before it.
unfoldable pub ended : EngineState b
ended = (apply_calls b toy fresh round).state

pub ended-Inv : EngineInv b toy ended
unfolding ended
ended-Inv = apply_calls-EngineInv b toy toy-Aggregates fresh round fresh-Inv (omega arith)

abbrev pub cert : Certificate precommit
cert = record {
  block_hash = 77;
  height = 1;
  round = 0;
  signer_bitmap = 7;
  aggregated_sig = 51288439598756248383;
}

-- The engine once the block of the round is the head.
unfoldable pub harvested : EngineState b
harvested = (try_harvest_committed b ended).0

pub harvested-serves : committed_block_at b harvested 1 ≡ some (block, cert)
unfolding harvested committed_block_at aii.Base.Maps.map_get ended try_harvest_committed
    aii.Bft.Engine.Votes.submit_remote_precommit aii.Bft.Engine.Votes.ingest_precommit sign
    aii.Bft.Slashing.record_precommit aii.Bft.Slashing.record_vote aii.Bft.Slashing.seen_get
    aii.Bft.Engine.Votes.submit_remote_prevote aii.Bft.Engine.Votes.ingest_prevote
    aii.Bft.Slashing.record_prevote submit_remote_proposal aii.Bft.Coordinator.submit_proposal
    ensured start_at aii.Bft.Coordinator.new_coordinator aii.Bft.Coordinator.leader_index
    aii.Bft.Validators.select_leader aii.Bft.Validators.first_above aii.Base.Bits.bit
    aii.Base.Maps.map_insert aii.Base.from_be_bytes aii.Base.from_be_bytes_acc aii.Base.to_be_bytes
    aii.Bft.Certificate.gather aii.Bft.Coordinator.accept_proposal
    aii.Bft.Coordinator.after_precommit aii.Bft.Coordinator.after_prevote
    aii.Bft.Coordinator.lock_on aii.Bft.Coordinator.submit_precommit
    aii.Bft.Coordinator.submit_prevote aii.Bft.Engine.Votes.after_vote
    aii.Bft.Engine.Votes.apply_votes aii.Bft.Engine.Votes.drain_loop drain_pending_votes
    aii.Bft.Engine.Votes.drain_round aii.Bft.Engine.Votes.drop_stale
    aii.Bft.Engine.Votes.retain_above aii.Bft.Engine.set_head aii.Bft.Engine.cache_recent_block
    aii.Bft.Engine.evict_oldest aii.Bft.Slashing.new_detector aii.Bft.Tally.check_vote
    aii.Bft.Tally.new_tallier aii.Bft.Tally.record_vote aii.Bft.Tally.submit
    aii.Bft.Tally.try_certify aii.Bft.Validators.leader_input aii.Bft.Validators.leader_pick
    aii.Bft.Validators.quorum_threshold aii.Bft.Votes.digest aii.Bft.Votes.digest_input
    aii.Bft.Votes.domain produce aii.Bft.Votes.proof_input aii.Bft.Votes.verify_leader
    aii.Crypto.Toy.mix toy aii.Crypto.aggregate_signatures aii.Crypto.verify_signature
harvested-serves = refl
