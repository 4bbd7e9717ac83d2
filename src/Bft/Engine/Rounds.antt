-- ===== src/Bft/Engine/Rounds.antt =====
-- The node's own part in a round, and the proposals of its peers: `cast_proposal`, `cast_prevote`,
-- `cast_precommit`, `submit_remote_proposal`, `tick_timeout` of
-- crates/aii-consensus-bft/src/engine.rs, and the calls of an engine as a whole.
use aii.Base.{
  min, saturating_add, u64_mod, u32_mod, ◌-◌, ℕ, Option, none, some, List, [], ◌∷◌, Result, ok, err,
  panic, Bool, ◌==◌, ◌!=◌, if◌then◌else◌,
}
use aii.Crypto.{Crypto}
use aii.Block.{Block, Blocks, block_hash}
use aii.Bft.Error.{
  Phase, prevoting, precommitting, BftError, wrong_phase, no_active_coordinator, not_leader,
}
use aii.Bft.Validators.{ValidatorSet, select_leader}
use aii.Bft.Votes.{Vote, prevote, precommit, LeaderProof, produce, sign}
use aii.Bft.Certificate.{Certificate}
use aii.Bft.Coordinator.{
  Coordinator, Outcome, new_coordinator, fire_timeout, phase_eq, leader_index, submit_proposal,
  submit_prevote, submit_precommit,
}
use aii.Bft.Slashing.{Evidence}
use aii.Bft.Engine.{
  EngineState, BftEngine, next_height, fast_forward_to_round, rotate_validator_set,
  try_harvest_committed, adopt_synced_block,
}
use aii.Bft.Engine.Building.{build_block_with_body, drain_pending_txs_into_body}
use aii.Bft.Engine.Votes.{drained, submit_remote_prevote, submit_remote_precommit}

module _ (b : Blocks) where
  -- The coordinator that `ensure_coordinator` leaves, new if there was none.
  unfoldable pub ensured : EngineState b → Coordinator
  ensured g = elim g.coordinator [
    | none ↦ new_coordinator (next_height b g) g.seed g.validator_set
    | some co ↦ co
  ]

  unfoldable pub ensure_coordinator : EngineState b → EngineState b
  ensure_coordinator g = record g { coordinator = some (ensured g) }

  -- `drain_evidence`.
  unfoldable pub drain_evidence : EngineState b → EngineState b × List Evidence
  drain_evidence g = (record g { pending_evidence = [] }, g.pending_evidence)

  -- `current_round_state`.
  unfoldable pub current_round_state : EngineState b → Option (ℕ × ℕ × Phase)
  current_round_state g = elim g.coordinator [
    | none ↦ none
    | some co ↦ some (co.height, co.round, co.phase)
  ]

  module _ (c : Crypto) where
    -- `would_be_leader_next_height`.
    unfoldable pub would_be_leader_next_height : EngineState b → Bool
    would_be_leader_next_height g =
        select_leader c g.validator_set (saturating_add u64_mod g.head_number 1) 0 g.seed
        == g.my_index

    unfoldable pub current_leader_index : EngineState b → Option ℕ
    current_leader_index g = elim g.coordinator [ none ↦ none | some co ↦ some (leader_index c co) ]

    -- What a call sets on the reply of the coordinator to a proposal, and to a vote.
    abbrev pub with_coordinator : BftEngine b → Coordinator → BftEngine b
    with_coordinator e co = record e { state = record e.state { coordinator = some co } }

    unfoldable pub after_proposal :
        BftEngine b
        → Outcome
        → Block b.Tx
        → LeaderProof
        → BftEngine b × Result BftError (Block b.Tx × LeaderProof)
    after_proposal e (co, ok _) block proof = (
      record e { state = record e.state { coordinator = some co; proposal = some (block, proof) } },
      ok (block, proof),
    )
    after_proposal e (co, err x) block proof = (with_coordinator e co, err x)
    after_proposal e (co, panic) block proof = (with_coordinator e co, panic)

    unfoldable pub after_cast :
        {A : Type 0} → BftEngine b → Outcome → A → BftEngine b × Result BftError A
    after_cast e (co, ok _) vote = (with_coordinator e co, ok vote)
    after_cast e (co, err x) vote = (with_coordinator e co, err x)
    after_cast e (co, panic) vote = (with_coordinator e co, panic)

    -- The proposal of the leader, on the engine that `ensure_coordinator` leaves.
    unfoldable pub propose_as_leader :
        BftEngine b → Coordinator → BftEngine b × Result BftError (Block b.Tx × LeaderProof)
    propose_as_leader e co =
        let proof = produce c e.config.my_vrf_sk co.height co.round e.state.seed in
        let (e', body) = drain_pending_txs_into_body b e in
        let block =
          build_block_with_body b e.config e.state.head_hash e.state.head_timestamp co.height proof
            e.config.coinbase body in
        after_proposal e' (submit_proposal c co (block_hash b block) proof) block proof

    unfoldable pub cast_proposal :
        BftEngine b → BftEngine b × Result BftError (Block b.Tx × LeaderProof)
    cast_proposal e =
        let co = ensured e.state in
        let e' : BftEngine b = record e { state = ensure_coordinator e.state } in
        if leader_index c co != e.state.my_index
        then (e', err (not_leader co.round (min (leader_index c co) (u32_mod - 1))))
        else propose_as_leader e' co

    unfoldable pub cast_prevote : BftEngine b → BftEngine b × Result BftError (Vote prevote)
    cast_prevote e = elim e.state.coordinator [
      | none ↦ (e, err no_active_coordinator)
      | some co ↦ elim co.proposed_block [
        | none ↦ (e, err (wrong_phase prevoting co.phase))
        | some block_hash ↦
            let vote =
              sign c prevote e.config.my_bls_sk block_hash co.height co.round e.state.my_index in
            after_cast e (submit_prevote c co vote) vote
      ]
    ]

    unfoldable pub cast_precommit : BftEngine b → BftEngine b × Result BftError (Vote precommit)
    cast_precommit e = elim e.state.coordinator [
      | none ↦ (e, err no_active_coordinator)
      | some co ↦
          if phase_eq co.phase precommitting
          then elim co.proposed_block [
            | none ↦ (e, panic)
            | some block_hash ↦
                let vote =
                  sign c precommit e.config.my_bls_sk block_hash co.height co.round
                    e.state.my_index in
                after_cast e (submit_precommit c co vote) vote
          ]
          else (e, err (wrong_phase precommitting co.phase))
    ]

    unfoldable pub submit_remote_proposal :
        EngineState b → Block b.Tx → LeaderProof → EngineState b × Result BftError (Unit {0})
    submit_remote_proposal g block leader_proof =
        let (co', reply) = submit_proposal c (ensured g) (block_hash b block) leader_proof in
        let left : EngineState b = record g { coordinator = some co' } in
        elim reply [
          | ok _ ↦ drained b c (record left { proposal = some (block, leader_proof) })
          | err x ↦ (left, err x)
          | panic ↦ (left, panic)
        ]

    unfoldable pub tick_timeout : EngineState b → EngineState b × Result BftError (Unit {0})
    tick_timeout g =
        drained b c (record g { coordinator = some (fire_timeout (ensured g)); proposal = none })

    -- What the host and the peers may do with an engine.
    pub data Call : Type 0 where
      cast_block prevote_now precommit_now time_out harvest take_evidence : Call
      remote_proposal : Block b.Tx → LeaderProof → Call
      remote_prevote : Vote prevote → Call
      remote_precommit : Vote precommit → Call
      adopt : Block b.Tx → Certificate precommit → Call
      rotate : ValidatorSet → ℕ → Call
      fast_forward : ℕ → Call

    abbrev pub silent : {A : Type 0} → Result BftError A → Result BftError (Unit {0})
    silent (ok _) = ok tt
    silent (err e) = err e
    silent panic = panic

    abbrev pub in_state :
        BftEngine b
        → EngineState b × Result BftError (Unit {0})
        → BftEngine b × Result BftError (Unit {0})
    in_state e (g, reply) = (record e { state = g }, reply)

    abbrev pub apply_call : BftEngine b → Call → BftEngine b × Result BftError (Unit {0})
    apply_call e cast_block = let (e', reply) = cast_proposal e in (e', silent reply)
    apply_call e prevote_now = let (e', reply) = cast_prevote e in (e', silent reply)
    apply_call e precommit_now = let (e', reply) = cast_precommit e in (e', silent reply)
    apply_call e time_out = in_state e (tick_timeout e.state)
    apply_call e harvest = (record e { state = (try_harvest_committed b e.state).0 }, ok tt)
    apply_call e take_evidence = (record e { state = (drain_evidence e.state).0 }, ok tt)
    apply_call e (remote_proposal block proof) =
        in_state e (submit_remote_proposal e.state block proof)
    apply_call e (remote_prevote vote) = in_state e (submit_remote_prevote b c e.state vote)
    apply_call e (remote_precommit vote) = in_state e (submit_remote_precommit b c e.state vote)
    apply_call e (adopt block certificate) =
        let (g, reply) = adopt_synced_block b c e.state block certificate in
        (record e { state = g }, silent reply)
    apply_call e (rotate vs my_index) = in_state e (rotate_validator_set b e.state vs my_index)
    apply_call e (fast_forward round) = in_state e (fast_forward_to_round b e.state round)

    abbrev pub apply_calls : BftEngine b → List Call → BftEngine b
    apply_calls e [] = e
    apply_calls e (call ∷ calls) = apply_calls (apply_call e call).0 calls
