-- ===== src/Bft/Engine/Single.antt =====
-- The engine of one validator, and the trait that the node drives: `advance_single` of
-- crates/aii-consensus-bft/src/engine.rs, and its `impl Engine for BftEngine`.
use aii.Base.{
  ℕ, Option, none, some, Result, ok, err, panic, ◌>>=◌, Bool, ◌==◌, ◌!=◌, if◌then◌else◌, u64_mod,
  checked_add,
}
use aii.Crypto.{Crypto}
use aii.Block.{Block, Blocks, block_hash}
use aii.Bft.Error.{committed, BftError, not_single_validator, overflow}
use aii.Bft.Validators.{size}
use aii.Bft.Votes.{Vote, prevote, precommit, LeaderProof, produce, sign}
use aii.Bft.Certificate.{Certificate}
use aii.Bft.Coordinator.{
  Coordinator, Outcome, new_coordinator, phase_eq, submit_proposal, submit_prevote,
  submit_precommit,
}
use aii.Bft.Engine.{EngineState, BftEngine, cache_recent_block, set_head}
use aii.Bft.Engine.Building.{build_block_with_body, drain_pending_txs_into_body}

-- What `step` reports, and its errors, by their texts.
pub data EngineProgress : Type 0 where
  idle : EngineProgress
  new_block : ℕ → EngineProgress

pub data StepError : Type 0 where
  advance_failed committed_with_no_proposal committed_with_no_certificate : StepError

-- The `?` on the reply of a coordinator: what goes on is the coordinator.
abbrev pub accepted : Outcome → Result BftError Coordinator
accepted (co, ok _) = ok co
accepted (co, err e) = err e
accepted (co, panic) = panic

-- `Option::ok_or`.
abbrev pub ok_or : {A : Type 0} → BftError → Option A → Result BftError A
ok_or e none = err e
ok_or e (some x) = ok x

-- One validator proposes, votes and commits.
unfoldable pub commit_alone :
    Crypto
    → Coordinator
    → ℕ
    → LeaderProof
    → Vote prevote
    → Vote precommit
    → ℕ
    → Result BftError (Certificate precommit)
commit_alone c co hash proof pre commit vs_size = do
  proposed ← accepted (submit_proposal c co hash proof)
  prevoted ← accepted (submit_prevote c proposed pre)
  done ← accepted (submit_precommit c prevoted commit)
  ok_or (not_single_validator vs_size) done.final_cert

module _ (b : Blocks) where
  pub record AdvanceOutput : Type 0 where
    pub block : Block b.Tx
    pub block_hash : ℕ
    pub certificate : Certificate precommit

  -- The last lines of `advance_single`: the coordinator and the proposal stay.
  unfoldable pub advance_head :
      EngineState b → Block b.Tx → LeaderProof → Certificate precommit → EngineState b
  advance_head g block proof certificate = record g {
    head_hash = block_hash b block;
    head_number = block.header.number;
    head_timestamp = block.header.timestamp;
    seed = proof.vrf_output;
    recent_blocks = cache_recent_block b g.recent_blocks block certificate;
  }

  unfoldable pub after_commit :
      BftEngine b
      → Block b.Tx
      → LeaderProof
      → Result BftError (Certificate precommit)
      → BftEngine b × Result BftError AdvanceOutput
  after_commit e block proof (ok certificate) = (
    record e { state = advance_head e.state block proof certificate },
    ok (record { block = block; block_hash = block_hash b block; certificate = certificate }),
  )
  after_commit e block proof (err x) = (e, err x)
  after_commit e block proof panic = (e, panic)

  -- The block is built as in `build_block_with_body`, whose lines stand again in the source.
  unfoldable pub advance_single : Crypto → BftEngine b → BftEngine b × Result BftError AdvanceOutput
  unfolding after_commit
  advance_single c e =
      let g = e.state in
      let vs_size = size g.validator_set in
      if vs_size != 1
      then (e, err (not_single_validator vs_size))
      else elim (checked_add u64_mod g.head_number 1) [
        | none ↦ (e, err overflow)
        | some new_number ↦
            let leader_proof = produce c e.config.my_vrf_sk new_number 0 g.seed in
            let (e', body) = drain_pending_txs_into_body b e in
            let block =
              build_block_with_body b e.config g.head_hash g.head_timestamp new_number leader_proof
                e.config.coinbase body in
            let hash = block_hash b block in
            let pre = sign c prevote e.config.my_bls_sk hash new_number 0 g.my_index in
            let commit = sign c precommit e.config.my_bls_sk hash new_number 0 g.my_index in
            after_commit e' block leader_proof (
              commit_alone c (new_coordinator new_number g.seed g.validator_set) hash leader_proof
                pre commit vs_size)
      ]

  unfoldable pub is_single_validator : EngineState b → Bool
  is_single_validator g = size g.validator_set == 1

  -- `init` of the trait.
  unfoldable pub init_engine : BftEngine b → Block b.Tx → BftEngine b × ℕ
  init_engine e genesis = (
    record e {
      state = record e.state {
        head_hash = block_hash b genesis;
        head_number = genesis.header.number;
        head_timestamp = genesis.header.timestamp;
        seed = e.config.initial_seed;
      };
    },
    block_hash b genesis,
  )

  after_advance :
      BftEngine b × Result BftError AdvanceOutput → BftEngine b × Result StepError EngineProgress
  after_advance (e, ok out) = (e, ok (new_block out.block_hash))
  after_advance (e, err x) = (e, err advance_failed)
  after_advance (e, panic) = (e, panic)

  -- `step` of several validators.
  unfoldable pub step_committed : EngineState b → EngineState b × Result StepError EngineProgress
  step_committed g = elim g.coordinator [
    | none ↦ (g, ok idle)
    | some co ↦
        if phase_eq co.phase committed
        then elim g.proposal [
          | none ↦ (g, err committed_with_no_proposal)
          | some (block, proof) ↦ elim co.final_cert [
            | none ↦ (g, err committed_with_no_certificate)
            | some certificate ↦ (
              set_head b g block proof.vrf_output certificate,
              ok (new_block (block_hash b block)),
            )
          ]
        ]
        else (g, ok idle)
  ]

  -- `step` of the trait.
  unfoldable pub engine_step : Crypto → BftEngine b → BftEngine b × Result StepError EngineProgress
  unfolding after_advance
  engine_step c e =
      let (g, reply) = step_committed e.state in
      if is_single_validator e.state
      then after_advance (advance_single c e)
      else (record e { state = g }, reply)
