-- ===== src/Bft/Engine/Tests.antt =====
-- Engines of three validators, and of one, over the toy scheme: tests, and the theorems applied.
use aii.Base.{
  ◌++◌, ℕ, suc, ◌+◌, ◌*◌, ◌≤◌, ◌<◌, ◌≡◌, ◌↔◌, ◌⊎◌, refl, none, some, Option, List, [], ◌∷◌, Result,
  ok, err,
}
use aii.Crypto.Toy.{toy, toy-Aggregates}
use aii.Bft.Coordinator.{Coordinator}
use aii.Bft.Error.{committed}
use aii.Bft.Validators.{Validator, ValidatorSet, IsValid}
use aii.Bft.Votes.{Vote, prevote, precommit, LeaderProof, produce, sign}
use aii.Bft.Certificate.{Certificate}
use aii.Bft.Engine.{
  EngineState, BftEngine, BftConfig, start_at, try_harvest_committed, committed_block_at,
  adopt_synced_block,
}
use aii.Bft.Engine.Invariant.{EngineInv}
use aii.Bft.Engine.Rounds.{submit_remote_proposal, tick_timeout}
use aii.Bft.Engine.Votes.{drain_pending_votes}
use aii.Bft.Engine.Rounds.{ensured}
use aii.Bft.Engine.Votes.Drain.{Drains, drain_pending_votes-Drains}
use aii.Bft.Engine.Rounds.{Call, harvest}
use aii.Bft.Engine.Samples.{round}
use aii.Bft.Engine.Heads.{
  Harvests, Adopts, Extends, try_harvest_committed-Harvests, adopt_synced_block-Adopts,
}
use aii.Bft.Engine.Hazards.{tick_timeout-loses, submit_remote_proposal-any_block}
use aii.Bft.Engine.Single.{advance_single, step_committed, committed_with_no_proposal}
use aii.Bft.Engine.Alone.{Rests, Advances, advance_single-Advances}
use aii.Bft.Engine.Stepping.{Lost, progress, step_committed-harvest}
use aii.Bft.Engine.Calls.{start_at-Inv}
use aii.Bft.Engine.Samples.{
  b, genesis, block, trio, solo, solo-IsValid, config, fresh, fresh-Inv, pre, commit, proof, ended,
  ended-Inv, cert,
}

ended-harvests : (try_harvest_committed b ended).1 ≡ some block
unfolding ended try_harvest_committed aii.Bft.Engine.Votes.submit_remote_precommit
    aii.Bft.Engine.Votes.ingest_precommit sign aii.Bft.Slashing.record_precommit
    aii.Bft.Slashing.record_vote aii.Bft.Slashing.seen_get
    aii.Bft.Engine.Votes.submit_remote_prevote aii.Bft.Engine.Votes.ingest_prevote
    aii.Bft.Slashing.record_prevote submit_remote_proposal aii.Bft.Coordinator.submit_proposal
    ensured start_at aii.Bft.Coordinator.new_coordinator aii.Bft.Coordinator.leader_index
    aii.Bft.Validators.select_leader aii.Bft.Validators.first_above aii.Base.Bits.bit
    aii.Base.Maps.map_insert aii.Base.from_be_bytes aii.Base.from_be_bytes_acc aii.Base.to_be_bytes
    aii.Bft.Certificate.gather aii.Bft.Coordinator.accept_proposal
    aii.Bft.Coordinator.after_precommit aii.Bft.Coordinator.after_prevote
    aii.Bft.Coordinator.lock_on aii.Bft.Coordinator.submit_precommit
    aii.Bft.Coordinator.submit_prevote aii.Bft.Engine.Votes.after_vote
    aii.Bft.Engine.Votes.apply_votes aii.Bft.Engine.Votes.drain_loop drain_pending_votes
    aii.Bft.Engine.Votes.drain_round aii.Bft.Engine.Votes.drop_stale
    aii.Bft.Engine.Votes.retain_above aii.Bft.Engine.set_head aii.Bft.Engine.cache_recent_block
    aii.Bft.Engine.evict_oldest aii.Bft.Slashing.new_detector aii.Bft.Tally.check_vote
    aii.Bft.Tally.new_tallier aii.Bft.Tally.record_vote aii.Bft.Tally.submit
    aii.Bft.Tally.try_certify aii.Bft.Validators.leader_input aii.Bft.Validators.leader_pick
    aii.Bft.Validators.quorum_threshold aii.Bft.Votes.digest aii.Bft.Votes.digest_input
    aii.Bft.Votes.domain produce aii.Bft.Votes.proof_input aii.Bft.Votes.verify_leader
    aii.Crypto.Toy.mix toy aii.Crypto.aggregate_signatures aii.Crypto.verify_signature
ended-harvests = refl

-- The same engine with a vote of a lower height, and one of the next, in its buffers.
abbrev late : EngineState b
late = record ended {
  pending_prevotes = sign toy prevote 2 77 0 0 1 ∷ pre 1 ∷ [];
  pending_precommits = commit 0 ∷ [];
}

drain_pending_votes-Drains_example :
    (g' : EngineState b) × (drain_pending_votes b toy late ≡ ok g')
    × Drains b toy toy-Aggregates late g'
drain_pending_votes-Drains_example = drain_pending_votes-Drains b toy toy-Aggregates late ended-Inv

try_harvest_committed-Harvests_example :
    let (g', found) = try_harvest_committed b ended in
    EngineInv b toy g' × Harvests b toy ended g' found
try_harvest_committed-Harvests_example = try_harvest_committed-Harvests b toy ended ended-Inv

adopt_synced_block-Adopts_example :
    EngineInv b toy (adopt_synced_block b toy fresh.state block cert).0
    × Adopts b toy fresh.state block cert (adopt_synced_block b toy fresh.state block cert)
    × (((adopt_synced_block b toy fresh.state block cert).1 ≡ ok block)
        ↔ Extends b toy fresh.state block cert)
adopt_synced_block-Adopts_example = adopt_synced_block-Adopts b toy fresh.state block cert fresh-Inv

step_committed-harvest_example :
    let (g', found) = try_harvest_committed b ended in
    (step_committed b ended ≡ (g', progress b toy found))
    ⊎ (Lost b toy ended × (step_committed b ended ≡ (ended, err committed_with_no_proposal)))
step_committed-harvest_example = step_committed-harvest b toy ended ended-Inv

submit_remote_proposal-any_block_example :
    (submit_remote_proposal b toy fresh.state block proof).1
    ≡ (submit_remote_proposal b toy fresh.state genesis proof).1
submit_remote_proposal-any_block_example =
    submit_remote_proposal-any_block b toy toy-Aggregates fresh.state block genesis proof fresh-Inv

-- A round of one height, and its harvest.
abbrev calls : List (Call b toy)
calls = round ++ harvest ∷ []

-- A committed round, before it is harvested.
abbrev done : Coordinator
done = record {
  height = 1;
  round = 0;
  seed = 9;
  vs = trio;
  phase = committed;
  proposed_block = some 77;
  prevote_tally = none;
  precommit_tally = none;
  polc = none;
  final_cert = some cert;
  locked = none;
}

abbrev waiting : EngineState b
waiting = record fresh.state { coordinator = some done; proposal = some (block, proof) }

tick_timeout-loses_example :
    let (g', reply) = tick_timeout b toy waiting in
    (reply ≡ ok tt)
    × (g'.coordinator ≡ some done)
    × (g'.proposal ≡ none)
    × (try_harvest_committed b g' ≡ (g', none))
tick_timeout-loses_example = tick_timeout-loses b toy done refl waiting refl

-- An engine of one validator, with transactions to include.
abbrev alone : BftEngine b
alone = record (start_at b (config solo) genesis 9) { pending_txs = 4 ∷ 5 ∷ [] }

alone-Rests : Rests b toy toy-Aggregates alone.state
unfolding start_at
alone-Rests = (start_at-Inv b toy (config solo) genesis 9 solo-IsValid, refl)

advance_single-Advances_example :
    Rests b toy toy-Aggregates (advance_single b toy alone).0.state
    × Advances b toy toy-Aggregates alone (advance_single b toy alone)
advance_single-Advances_example = advance_single-Advances b toy toy-Aggregates alone alone-Rests

alone-advances : (advance_single b toy alone).0.state.head_number ≡ 1
unfolding advance_single aii.Bft.Engine.Building.drain_pending_txs_into_body
    aii.Bft.Engine.Building.build_block_with_body aii.Bft.Engine.Building.roots_for
    aii.Bft.Engine.Single.commit_alone aii.Bft.Engine.Single.after_commit
    aii.Bft.Engine.Single.advance_head aii.Bft.Engine.Votes.submit_remote_precommit
    aii.Bft.Engine.Votes.ingest_precommit sign aii.Bft.Slashing.record_precommit
    aii.Bft.Slashing.record_vote aii.Bft.Slashing.seen_get
    aii.Bft.Engine.Votes.submit_remote_prevote aii.Bft.Engine.Votes.ingest_prevote
    aii.Bft.Slashing.record_prevote submit_remote_proposal aii.Bft.Coordinator.submit_proposal
    ensured start_at aii.Bft.Coordinator.new_coordinator aii.Bft.Coordinator.leader_index
    aii.Bft.Validators.select_leader aii.Bft.Validators.first_above aii.Base.Bits.bit
    aii.Base.Maps.map_insert aii.Base.from_be_bytes aii.Base.from_be_bytes_acc aii.Base.to_be_bytes
    aii.Bft.Certificate.gather aii.Bft.Coordinator.accept_proposal
    aii.Bft.Coordinator.after_precommit aii.Bft.Coordinator.after_prevote
    aii.Bft.Coordinator.lock_on aii.Bft.Coordinator.submit_precommit
    aii.Bft.Coordinator.submit_prevote aii.Bft.Engine.Votes.after_vote
    aii.Bft.Engine.Votes.apply_votes aii.Bft.Engine.Votes.drain_loop drain_pending_votes
    aii.Bft.Engine.Votes.drain_round aii.Bft.Engine.Votes.drop_stale
    aii.Bft.Engine.Votes.retain_above aii.Bft.Engine.set_head aii.Bft.Engine.cache_recent_block
    aii.Bft.Engine.evict_oldest aii.Bft.Slashing.new_detector aii.Bft.Tally.check_vote
    aii.Bft.Tally.new_tallier aii.Bft.Tally.record_vote aii.Bft.Tally.submit
    aii.Bft.Tally.try_certify aii.Bft.Validators.leader_input aii.Bft.Validators.leader_pick
    aii.Bft.Validators.quorum_threshold aii.Bft.Votes.digest aii.Bft.Votes.digest_input
    aii.Bft.Votes.domain produce aii.Bft.Votes.proof_input aii.Bft.Votes.verify_leader
    aii.Crypto.Toy.mix toy aii.Crypto.aggregate_signatures aii.Crypto.verify_signature
alone-advances = refl
