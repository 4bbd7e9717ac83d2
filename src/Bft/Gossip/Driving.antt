-- ===== src/Bft/Gossip/Driving.antt =====
-- The node's own part of a tick: each step succeeds and keeps the invariant of the engine.
use aii.Base.{
  ℕ, ◌≡◌, refl, inl, inr, Option, none, some, List, Result, ok, err, panic, Bool, ◌!=◌, Bool-cases,
  Option-cases,
}
use aii.Crypto.{Crypto, Aggregates}
use aii.Block.{Block, Blocks}
use aii.Bft.Error.{Phase, awaiting_proposal, prevoting, precommitting, committed, BftError}
use aii.Bft.Votes.{Vote, prevote, precommit, LeaderProof}
use aii.Bft.Engine.{BftEngine}
use aii.Bft.Engine.Casting.{
  cast_proposal-KeepsEngine, cast_prevote-KeepsEngine, cast_precommit-KeepsEngine, KeepsEngine,
}
use aii.Bft.Engine.Rounds.{
  current_round_state, current_leader_index, would_be_leader_next_height, cast_proposal,
  cast_prevote, cast_precommit, after_proposal, propose_as_leader,
}
use aii.Bft.Coordinator.{Coordinator, Outcome, leader_index}
use aii.Bft.Engine.Rounds.{ensured}
use aii.Bft.Gossip.{BlockCodec, Gossip, Step, already, and_then, retransmit, announce}
use aii.Bft.Gossip.Casting.{
  after_bootstrap, bootstrap_propose, after_propose, maybe_propose, after_prevote, maybe_prevote,
  after_precommit, maybe_precommit, drive_phase,
}
use aii.Bft.Gossip.Loop.{drive}
use aii.Bft.Gossip.Harvesting.{GossipInv, StepKeeps}

module _ (b : Blocks) (c : Crypto) (codec : BlockCodec b) (aggregates : Aggregates c) where
  retransmit-Inv :
      (o : Option (List ℕ)) (g : Gossip b) → GossipInv b c g → GossipInv b c (retransmit b o g).0
  unfolding retransmit
  retransmit-Inv none g i = i
  retransmit-Inv (some bytes) g i = i

  and_then-Keeps :
      (s : Step b) (message : Gossip b → Option (List ℕ))
      → StepKeeps b c s
      → StepKeeps b c (and_then b s (λ g. retransmit b (message g) g))
  and_then-Keeps (ok (g, n)) message i = retransmit-Inv (message g) g i
  and_then-Keeps (err e) message i = absurd i
  and_then-Keeps panic message i = absurd i

  -- A proposal that is cast leaves a coordinator.
  abbrev Running : BftEngine b × Result BftError (Block b.Tx × LeaderProof) → Type 0
  Running (e, ok _) = (co : Coordinator) × (e.state.coordinator ≡ some co)
  Running (e, err x) = Unit
  Running (e, panic) = Unit

  after_proposal-Running :
      (e : BftEngine b) (o : Outcome) (block : Block b.Tx) (proof : LeaderProof)
      → Running (after_proposal b c e o block proof)
  unfolding after_proposal
  after_proposal-Running e (co, ok _) block proof = (co, refl)
  after_proposal-Running e (co, err x) block proof = tt
  after_proposal-Running e (co, panic) block proof = tt

  cast_proposal-Running : (e : BftEngine b) → Running (cast_proposal b c e)
  unfolding cast_proposal propose_as_leader
  cast_proposal-Running e =
      elim (Bool-cases (leader_index c (ensured b e.state) != e.state.my_index)) [
        | inl other ↦ rw (cast_proposal, other) tt
        | inr mine ↦ rw (cast_proposal, mine) (after_proposal-Running _ _ _ _)
      ]

  after_bootstrap-Keeps :
      (g : Gossip b) (o : BftEngine b × Result BftError (Block b.Tx × LeaderProof))
      → KeepsEngine b c aggregates o
      → Running o
      → StepKeeps b c (after_bootstrap b codec c g o)
  unfolding after_bootstrap current_round_state announce
  after_bootstrap-Keeps g (e, ok (block, proof)) k (co, has) =
      rw (after_bootstrap, current_round_state, has) k.inv
  after_bootstrap-Keeps g (e, err x) k r = k.inv
  after_bootstrap-Keeps g (e, panic) k r = absurd (k.no_panic refl)

  after_propose-Keeps :
      (g : Gossip b) (h r : ℕ) (o : BftEngine b × Result BftError (Block b.Tx × LeaderProof))
      → KeepsEngine b c aggregates o
      → StepKeeps b c (after_propose b codec c g h r o)
  unfolding after_propose announce
  after_propose-Keeps g h r (e, ok (block, proof)) k = k.inv
  after_propose-Keeps g h r (e, err x) k = k.inv
  after_propose-Keeps g h r (e, panic) k = absurd (k.no_panic refl)

  after_prevote-Keeps :
      (g : Gossip b) (h r : ℕ) (o : BftEngine b × Result BftError (Vote prevote))
      → KeepsEngine b c aggregates o
      → StepKeeps b c (after_prevote b codec c g h r o)
  unfolding after_prevote
  after_prevote-Keeps g h r (e, ok vote) k = k.inv
  after_prevote-Keeps g h r (e, err x) k = k.inv
  after_prevote-Keeps g h r (e, panic) k = absurd (k.no_panic refl)

  after_precommit-Keeps :
      (g : Gossip b) (h r : ℕ) (o : BftEngine b × Result BftError (Vote precommit))
      → KeepsEngine b c aggregates o
      → StepKeeps b c (after_precommit b codec c g h r o)
  unfolding after_precommit
  after_precommit-Keeps g h r (e, ok vote) k = k.inv
  after_precommit-Keeps g h r (e, err x) k = k.inv
  after_precommit-Keeps g h r (e, panic) k = absurd (k.no_panic refl)

  bootstrap_propose-Keeps :
      (g : Gossip b) → GossipInv b c g → StepKeeps b c (bootstrap_propose b codec c g)
  unfolding bootstrap_propose
  bootstrap_propose-Keeps g i =
      after_bootstrap-Keeps g (cast_proposal b c g.engine)
        (cast_proposal-KeepsEngine b c aggregates g.engine i) (cast_proposal-Running g.engine)

  maybe_propose-Keeps :
      (g : Gossip b) (h r : ℕ) → GossipInv b c g → StepKeeps b c (maybe_propose b codec c g h r)
  unfolding maybe_propose
  maybe_propose-Keeps g h r i = elim (Bool-cases (already g.flags.proposed h r)) [
    | inl done ↦ rw (maybe_propose, done) i
    | inr fresh ↦ elim (Option-cases (current_leader_index b c g.engine.state)) [
      | inl absent ↦ rw (maybe_propose, fresh, absent) i
      | inr (leader, has) ↦ elim (Bool-cases (leader != g.engine.state.my_index)) [
        | inl other ↦ rw (maybe_propose, fresh, has, other) i
        | inr mine ↦
            rw (maybe_propose, fresh, has, mine)
              (after_propose-Keeps g h r (cast_proposal b c g.engine)
                (cast_proposal-KeepsEngine b c aggregates g.engine i))
      ]
    ]
  ]

  maybe_prevote-Keeps :
      (g : Gossip b) (h r : ℕ) → GossipInv b c g → StepKeeps b c (maybe_prevote b codec c g h r)
  unfolding maybe_prevote
  maybe_prevote-Keeps g h r i = elim (Bool-cases (already g.flags.prevoted h r)) [
    | inl done ↦ rw (maybe_prevote, done) i
    | inr fresh ↦
        rw (maybe_prevote, fresh)
          (after_prevote-Keeps g h r (cast_prevote b c g.engine)
            (cast_prevote-KeepsEngine b c aggregates g.engine i))
  ]

  maybe_precommit-Keeps :
      (g : Gossip b) (h r : ℕ) → GossipInv b c g → StepKeeps b c (maybe_precommit b codec c g h r)
  unfolding maybe_precommit
  maybe_precommit-Keeps g h r i = elim (Bool-cases (already g.flags.precommitted h r)) [
    | inl done ↦ rw (maybe_precommit, done) i
    | inr fresh ↦
        rw (maybe_precommit, fresh)
          (after_precommit-Keeps g h r (cast_precommit b c g.engine)
            (cast_precommit-KeepsEngine b c aggregates g.engine i))
  ]

  pub drive_phase-Keeps :
      (g : Gossip b) (h r : ℕ) (phase : Phase)
      → GossipInv b c g
      → StepKeeps b c (drive_phase b codec c g h r phase)
  unfolding drive_phase
  drive_phase-Keeps g h r awaiting_proposal i =
      and_then-Keeps _ (λ g'. g'.flags.last_proposal) (maybe_propose-Keeps g h r i)
  drive_phase-Keeps g h r prevoting i =
      and_then-Keeps _ (λ g'. g'.flags.last_prevote)
        (and_then-Keeps _ (λ g'. g'.flags.last_proposal) (maybe_prevote-Keeps g h r i))
  drive_phase-Keeps g h r precommitting i =
      and_then-Keeps _ (λ g'. g'.flags.last_precommit)
        (and_then-Keeps _ (λ g'. g'.flags.last_prevote) (maybe_precommit-Keeps g h r i))
  drive_phase-Keeps g h r committed i = i

  module _ (is_point : ℕ → Bool) where
    pub drive-Keeps : (g : Gossip b) → GossipInv b c g → StepKeeps b c (drive b codec c is_point g)
    unfolding drive
    drive-Keeps g i = elim (Option-cases (current_round_state b g.engine.state)) [
      | inr ((h, r, phase), has) ↦ rw (drive, has) (drive_phase-Keeps g h r phase i)
      | inl idle ↦ elim (Bool-cases (would_be_leader_next_height b c g.engine.state)) [
        | inl leads ↦ rw (drive, idle, leads) (bootstrap_propose-Keeps g i)
        | inr follows ↦ rw (drive, idle, follows) i
      ]
    ]
