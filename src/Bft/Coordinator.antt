-- ===== src/Bft/Coordinator.antt =====
-- The round-change coordinator of one height: `LockedState`, `RoundCoordinator` of
-- crates/aii-consensus-bft/src/coordinator.rs. A method returns the coordinator that it leaves and
-- its result; an `expect` or an index that fails is the result `panic`.
pub mod Invariant
pub mod Steps
pub mod Prevotes
pub mod Precommits
pub mod Finality
use aii.Base.{
  ℕ, Option, none, some, List, [], ◌∷◌, Result, ok, err, panic, Bool, true, false, leb,
  if◌then◌else◌, get_elem?, saturating_add, u32_mod,
}
use aii.Crypto.{Crypto}
use aii.Bft.Error.{
  Phase, awaiting_proposal, prevoting, precommitting, committed, BftError, wrong_phase,
}
use aii.Bft.Validators.{ValidatorSet, select_leader}
use aii.Bft.Votes.{Vote, prevote, precommit, LeaderProof, verify_leader}
use aii.Bft.Certificate.{Certificate}
use aii.Bft.Tally.{Tallier, TallyState, accepted, reached_quorum, new_tallier, submit, try_certify}

pub record LockedState : Type 0 where
  pub block_hash : ℕ
  pub round : ℕ
  pub polc : Certificate prevote

pub record Coordinator : Type 0 where
  pub height : ℕ
  pub round : ℕ
  pub phase : Phase
  pub vs : ValidatorSet
  pub seed : ℕ
  pub proposed_block : Option ℕ
  pub prevote_tally : Option (Tallier prevote)
  pub precommit_tally : Option (Tallier precommit)
  pub polc : Option (Certificate prevote)
  pub locked : Option LockedState
  pub final_cert : Option (Certificate precommit)

-- The derived `PartialEq` of `Phase`.
abbrev pub phase_eq : Phase → Phase → Bool
phase_eq awaiting_proposal awaiting_proposal = true
phase_eq prevoting prevoting = true
phase_eq precommitting precommitting = true
phase_eq committed committed = true
phase_eq _ _ = false

-- `RoundCoordinator::new`.
unfoldable pub new_coordinator : ℕ → ℕ → ValidatorSet → Coordinator
new_coordinator height seed vs = record {
  height = height;
  round = 0;
  phase = awaiting_proposal;
  vs = vs;
  seed = seed;
  proposed_block = none;
  prevote_tally = none;
  precommit_tally = none;
  polc = none;
  locked = none;
  final_cert = none;
}

abbrev pub Outcome : Type 0
Outcome = Coordinator × Result BftError (Unit {0})

-- What `submit_proposal` sets once the proof of the leader is checked.
unfoldable pub accept_proposal : Coordinator → ℕ → Coordinator
accept_proposal co block_hash = record co {
  proposed_block = some block_hash;
  prevote_tally = some (new_tallier prevote block_hash co.height co.round co.vs);
  phase = prevoting;
}

-- What `submit_prevote` sets once the POLC is formed, the lock included.
unfoldable pub lock_on : Coordinator → ℕ → Certificate prevote → Coordinator
lock_on co block polc =
    let supersedes : Bool = elim co.locked [ none ↦ true | some prev ↦ leb prev.round co.round ] in
    let lock : LockedState = record { block_hash = block; round = co.round; polc = polc } in
    record co {
      precommit_tally = some (new_tallier precommit block co.height co.round co.vs);
      locked = if supersedes then some lock else co.locked;
      polc = some polc;
      phase = precommitting;
    }

-- `RoundCoordinator::fire_timeout`.
unfoldable pub fire_timeout : Coordinator → Coordinator
fire_timeout co = if phase_eq co.phase committed then co else record co {
  round = saturating_add u32_mod co.round 1;
  phase = awaiting_proposal;
  proposed_block = none;
  prevote_tally = none;
  precommit_tally = none;
  polc = none;
}

-- What the host may do with a coordinator.
pub data Event : Type 0 where
  propose : ℕ → LeaderProof → Event
  send_prevote : Vote prevote → Event
  send_precommit : Vote precommit → Event
  time_out : Event

module _ (c : Crypto) where
  -- `RoundCoordinator::leader_index`.
  unfoldable pub leader_index : Coordinator → ℕ
  leader_index co = select_leader c co.vs co.height co.round co.seed

  -- `RoundCoordinator::submit_proposal`.
  unfoldable pub submit_proposal : Coordinator → ℕ → LeaderProof → Outcome
  submit_proposal co block_hash leader_proof =
      if phase_eq co.phase awaiting_proposal
      then elim (get_elem? co.vs.validators (leader_index co)) [
        | none ↦ (co, panic)
        | some leader ↦
            elim (verify_leader c leader_proof leader.vrf_pubkey co.height co.round co.seed) [
              | ok _ ↦ (accept_proposal co block_hash, ok tt)
              | err e ↦ (co, err e)
              | panic ↦ (co, panic)
            ]
      ]
      else (co, err (wrong_phase awaiting_proposal co.phase))

  -- The rest of `submit_prevote` on the reply of the tallier, which is back in the coordinator.
  unfoldable pub after_prevote :
      Coordinator → Tallier prevote → Result BftError TallyState → Outcome
  after_prevote co tally (ok accepted) = (co, ok tt)
  after_prevote co tally (ok reached_quorum) = elim (try_certify c tally) [
    | none ↦ (co, panic)
    | some polc ↦ elim co.proposed_block [
      | none ↦ (co, panic)
      | some block ↦ (lock_on co block polc, ok tt)
    ]
  ]
  after_prevote co tally (err e) = (co, err e)
  after_prevote co tally panic = (co, panic)

  -- `RoundCoordinator::submit_prevote`.
  unfoldable pub submit_prevote : Coordinator → Vote prevote → Outcome
  submit_prevote co vote =
      if phase_eq co.phase prevoting
      then elim co.prevote_tally [
        | none ↦ (co, panic)
        | some tally ↦
            let (tally', reply) = submit c tally vote in
            after_prevote (record co { prevote_tally = some tally' }) tally' reply
      ]
      else (co, err (wrong_phase prevoting co.phase))

  -- The rest of `submit_precommit`, likewise.
  unfoldable pub after_precommit :
      Coordinator → Tallier precommit → Result BftError TallyState → Outcome
  after_precommit co tally (ok accepted) = (co, ok tt)
  after_precommit co tally (ok reached_quorum) = elim (try_certify c tally) [
    | none ↦ (co, panic)
    | some cert ↦ (record co { final_cert = some cert; phase = committed }, ok tt)
  ]
  after_precommit co tally (err e) = (co, err e)
  after_precommit co tally panic = (co, panic)

  -- `RoundCoordinator::submit_precommit`.
  unfoldable pub submit_precommit : Coordinator → Vote precommit → Outcome
  submit_precommit co vote =
      if phase_eq co.phase precommitting
      then elim co.precommit_tally [
        | none ↦ (co, panic)
        | some tally ↦
            let (tally', reply) = submit c tally vote in
            after_precommit (record co { precommit_tally = some tally' }) tally' reply
      ]
      else (co, err (wrong_phase precommitting co.phase))

  -- One event, and its result for the host.
  unfoldable pub step : Coordinator → Event → Outcome
  step co (propose block_hash proof) = submit_proposal co block_hash proof
  step co (send_prevote vote) = submit_prevote co vote
  step co (send_precommit vote) = submit_precommit co vote
  step co time_out = (fire_timeout co, ok tt)

  abbrev pub run : Coordinator → List Event → Coordinator
  run co [] = co
  run co (e ∷ events) = run (step co e).0 events
