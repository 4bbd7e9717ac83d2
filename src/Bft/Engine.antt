-- ===== src/Bft/Engine.antt =====
-- The chain-level engine: `BftConfig`, `BftEngine` and its state of
-- crates/aii-consensus-bft/src/engine.rs, with the methods on the head of the chain. A method runs
-- under the lock of the state, so it is one step; a panic leaves the state as it was.
pub mod Building
pub mod Cache
pub mod Invariant
pub mod Keeping
pub mod Heads
pub mod Restarts
pub mod Proposing
pub mod Casting
pub mod Calls
pub mod Quiet
pub mod Serving
pub mod Hazards
pub mod Rounds
pub mod Alone
pub mod Stepping
pub mod Single
pub mod Votes
pub mod Samples
mod Tests
use aii.Base.{
  ℕ, suc, zero, ◌+◌, ◌-◌, ◌*◌, ◌/◌, ◌%◌, min, Option, none, some, List, [], ◌∷◌, ◌++◌, Result, ok,
  err, panic, ◌>>=◌, map_err, Bool, true, false, ◌||◌, leb, ltb, ◌==◌, ◌!=◌, if◌then◌else◌, length,
  take, drop, saturating_add, u64_mod, u32_mod,
}
use aii.Base.Maps.{map_get, map_insert, map_remove}
use aii.Crypto.{Crypto}
use aii.Block.{Header, BlockBody, Block, Blocks, block_hash, empty_list_hash, empty_trie_hash}
use aii.Bft.Error.{
  Phase, committed, BftError, empty_validator_set, invalid_validator_pubkey,
  validator_index_out_of_bounds, wrong_height, proposal_hash_mismatch, active_round_in_progress,
}
use aii.Bft.Validators.{Validator, ValidatorSet, size, new_set, select_leader}
use aii.Bft.Votes.{Vote, prevote, precommit, LeaderProof}
use aii.Bft.Certificate.{Certificate, verify}
use aii.Bft.Coordinator.{Coordinator, new_coordinator, fire_timeout, phase_eq}
use aii.Bft.Slashing.{Detector, Evidence, new_detector}

abbrev pub placeholder_tx_gas : ℕ
placeholder_tx_gas = 21000

abbrev pub recent_blocks_cap : ℕ
recent_blocks_cap = 64

-- What the oracle `BlockExecutor` of crates/aii-consensus-iface/src/lib.rs computes for a body.
pub record PostBlockRoots : Type 0 where
  pub state_root : ℕ
  pub receipts_root : ℕ
  pub logs_bloom : ℕ
  pub gas_used : ℕ

module _ (b : Blocks) where
  pub record BftConfig : Type 0 where
    pub validator_set : ValidatorSet
    pub my_index : ℕ
    pub my_bls_sk : ℕ
    pub my_vrf_sk : ℕ
    pub initial_seed : ℕ
    pub coinbase : ℕ
    pub gas_limit : ℕ
    pub base_fee_per_gas : ℕ
    pub slot_seconds : ℕ
    -- The oracle, on a body, a coinbase and a height; `none` is its error.
    pub executor : Option (BlockBody b.Tx → ℕ → ℕ → Option PostBlockRoots)

  pub record RecentCommittedBlock : Type 0 where
    pub block : Block b.Tx
    pub certificate : Certificate precommit

  pub record EngineState : Type 0 where
    pub validator_set : ValidatorSet
    pub my_index : ℕ
    pub head_hash : ℕ
    pub head_number : ℕ
    pub head_timestamp : ℕ
    pub seed : ℕ
    pub coordinator : Option Coordinator
    pub proposal : Option (Block b.Tx × LeaderProof)
    pub detector : Detector
    pub pending_evidence : List Evidence
    pub pending_prevotes : List (Vote prevote)
    pub pending_precommits : List (Vote precommit)
    pub recent_blocks : List (ℕ × RecentCommittedBlock)

  pub record BftEngine : Type 0 where
    pub config : BftConfig
    pub state : EngineState
    pub pending_txs : List b.Tx

  -- The loop of `cache_recent_block`: the lowest heights go.
  unfoldable pub evict_oldest :
      ℕ → List (ℕ × RecentCommittedBlock) → List (ℕ × RecentCommittedBlock)
  evict_oldest size [] = []
  evict_oldest size (entry ∷ entries) =
      let rest = evict_oldest (size - 1) entries in
      if ltb recent_blocks_cap size then rest else entry ∷ entries

  unfoldable pub cache_recent_block :
      List (ℕ × RecentCommittedBlock)
      → Block b.Tx
      → Certificate precommit
      → List (ℕ × RecentCommittedBlock)
  cache_recent_block recent block certificate =
      let entry : RecentCommittedBlock = record { block = block; certificate = certificate } in
      let with_block = map_insert block.header.number entry recent in
      evict_oldest (length with_block) with_block

  -- `BftEngine::new` and `BftEngine::from_recovered`, from the head and the seed that they choose.
  unfoldable pub start_at : BftConfig → Block b.Tx → ℕ → BftEngine
  start_at config head seed = record {
    config = config;
    state = record {
      validator_set = config.validator_set;
      my_index = config.my_index;
      head_hash = block_hash b head;
      head_number = head.header.number;
      head_timestamp = head.header.timestamp;
      seed = seed;
      coordinator = none;
      proposal = none;
      detector = new_detector;
      pending_evidence = [];
      pending_prevotes = [];
      pending_precommits = [];
      recent_blocks = [];
    };
    pending_txs = [];
  }

  unfoldable pub new_bft_engine : BftConfig → Block b.Tx → BftEngine
  new_bft_engine config genesis = start_at config genesis config.initial_seed

  unfoldable pub from_recovered : BftConfig → Block b.Tx → BftEngine
  from_recovered config head =
      start_at config head
        (if head.header.number == 0 then config.initial_seed else head.header.mix_hash)

  -- `set_pending_txs` and `extend_pending_txs`.
  unfoldable pub set_pending_txs : BftEngine → List b.Tx → BftEngine
  set_pending_txs e txs = record e { pending_txs = txs }

  unfoldable pub extend_pending_txs : BftEngine → List b.Tx → BftEngine
  extend_pending_txs e txs = record e { pending_txs = e.pending_txs ++ txs }

  abbrev pub next_height : EngineState → ℕ
  next_height g = (g.head_number + 1) % u64_mod

  -- The loop of `fast_forward_to_round`.
  unfoldable pub fire_timeouts : ℕ → Coordinator → Coordinator
  fire_timeouts zero co = co
  fire_timeouts (suc n) co = fire_timeouts n (fire_timeout co)

  unfoldable pub fast_forward_to_round : EngineState → ℕ → EngineState × Result BftError (Unit {0})
  fast_forward_to_round g target_round =
      let fresh = new_coordinator (next_height g) g.seed g.validator_set in
      let moved : EngineState × Result BftError (Unit {0}) =
        (record g { coordinator = some (fire_timeouts target_round fresh) }, ok tt) in
      elim g.coordinator [
        | none ↦ moved
        | some existing ↦ if existing.height != next_height g then (g, err wrong_height) else moved
      ]

  unfoldable pub rotate_validator_set :
      EngineState → ValidatorSet → ℕ → EngineState × Result BftError (Unit {0})
  rotate_validator_set g validator_set my_index =
      let rotated : EngineState × Result BftError (Unit {0}) = (
        record g {
          pending_prevotes = [];
          pending_precommits = [];
          validator_set = validator_set;
          my_index = my_index;
        },
        ok tt,
      ) in
      if leb (size validator_set) my_index
      then (g, err (validator_index_out_of_bounds my_index (size validator_set)))
      else elim g.coordinator [
        | some _ ↦ (g, err active_round_in_progress)
        | none ↦ elim g.proposal [ some _ ↦ (g, err active_round_in_progress) | none ↦ rotated ]
      ]

  -- What `try_harvest_committed`, `step` and `adopt_synced_block` set.
  unfoldable pub set_head : EngineState → Block b.Tx → ℕ → Certificate precommit → EngineState
  set_head g block seed certificate = record g {
    head_hash = block_hash b block;
    head_number = block.header.number;
    head_timestamp = block.header.timestamp;
    seed = seed;
    coordinator = none;
    proposal = none;
    recent_blocks = cache_recent_block g.recent_blocks block certificate;
  }

  unfoldable pub try_harvest_committed : EngineState → EngineState × Option (Block b.Tx)
  try_harvest_committed g = elim g.coordinator [
    | none ↦ (g, none)
    | some co ↦
        if phase_eq co.phase committed
        then elim g.proposal [
          | none ↦ (g, none)
          | some (block, proof) ↦ elim co.final_cert [
            | none ↦ (g, none)
            | some certificate ↦ (set_head g block proof.vrf_output certificate, some block)
          ]
        ]
        else (g, none)
  ]

  unfoldable pub committed_block_at : EngineState → ℕ → Option (Block b.Tx × Certificate precommit)
  committed_block_at g height = elim (map_get height g.recent_blocks) [
    | none ↦ none
    | some entry ↦ some (entry.block, entry.certificate)
  ]

  unfoldable pub adopt_synced_block :
      Crypto
      → EngineState
      → Block b.Tx
      → Certificate precommit
      → EngineState × Result BftError (Block b.Tx)
  adopt_synced_block c g block certificate =
      if (block.header.number != next_height g) || (certificate.height != block.header.number)
      then (g, err wrong_height)
      else if (block.header.parent_hash != g.head_hash)
          || (certificate.block_hash != block_hash b block)
      then (g, err proposal_hash_mismatch)
      else elim (verify c certificate g.validator_set) [
        | ok _ ↦ (
          record (set_head g block block.header.mix_hash certificate) {
            pending_prevotes = [];
            pending_precommits = [];
          },
          ok block,
        )
        | err e ↦ (g, err e)
        | panic ↦ (g, panic)
      ]
