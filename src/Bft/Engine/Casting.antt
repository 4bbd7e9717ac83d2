-- ===== src/Bft/Engine/Casting.antt =====
-- The node's own proposal and votes keep the invariant.
use aii.Base.{
  ◌≡◌, ◌≢◌, refl, sym, subst, inl, inr, some, Result, ok, err, panic, ◌!=◌, arith, Bool-cases,
  Option-cases,
}
use aii.Crypto.{Crypto, Aggregates}
use aii.Block.{Block, Blocks, block_hash}
use aii.Bft.Error.{prevoting, precommitting, BftError, wrong_phase, no_active_coordinator}
use aii.Bft.Votes.{prevote, precommit, LeaderProof, sign, produce}
use aii.Bft.Coordinator.{
  Coordinator, Outcome, phase_eq, submit_proposal, submit_prevote, submit_precommit, leader_index,
}
use aii.Bft.Coordinator.Invariant.{Holds}
use aii.Bft.Coordinator.Steps.{submit_proposal-Keeps}
use aii.Bft.Coordinator.Prevotes.{submit_prevote-Keeps}
use aii.Bft.Coordinator.Precommits.{submit_precommit-Keeps}
use aii.Bft.Engine.{BftEngine}
use aii.Bft.Engine.Building.{build_block_with_body, drain_pending_txs_into_body}
use aii.Bft.Engine.Invariant.{
  RoundInv, Captured, EngineInv, KeepsState, round_of, with_coordinator-Inv, Keeps-RoundInv,
}
use aii.Bft.Engine.Votes.Passes.{submit_prevote-proposed, submit_precommit-proposed}
use aii.Bft.Engine.Keeping.{ensured-RoundInv}
use aii.Bft.Engine.Rounds.{
  after_proposal, after_cast, with_coordinator, ensured, ensure_coordinator, propose_as_leader,
  cast_proposal, cast_prevote, cast_precommit, silent,
}
use aii.Bft.Engine.Proposing.{proposed-Inv, refused-Inv}

module _ (b : Blocks) (c : Crypto) (aggregates : Aggregates c) where
  -- A method of the engine, with its result left out.
  abbrev pub KeepsEngine : {A : Type 0} → BftEngine b × Result BftError A → Type 0
  KeepsEngine (e, reply) = KeepsState b c (e.state, silent b c reply)

  after_proposal-KeepsEngine :
      (e : BftEngine b) (o : Outcome) (block : Block b.Tx) (proof : LeaderProof)
      → (o.1 ≡ ok tt
          → EngineInv b c
              (record e.state { coordinator = some o.0; proposal = some (block, proof) }))
      → ((x : BftError) → o.1 ≡ err x → EngineInv b c (record e.state { coordinator = some o.0 }))
      → o.1 ≢ panic
      → KeepsEngine (after_proposal b c e o block proof)
  unfolding after_proposal
  after_proposal-KeepsEngine e (co, ok _) block proof took refused fine = record {
    inv = took refl;
    no_panic = λ h. cc;
  }
  after_proposal-KeepsEngine e (co, err x) block proof took refused fine = record {
    inv = refused x refl;
    no_panic = λ h. cc;
  }
  after_proposal-KeepsEngine e (co, panic) block proof took refused fine = absurd (fine refl)

  after_cast-KeepsEngine :
      {A : Type 0} (e : BftEngine b) (o : Outcome) (vote : A)
      → EngineInv b c (record e.state { coordinator = some o.0 })
      → o.1 ≢ panic
      → KeepsEngine (after_cast b c e o vote)
  unfolding after_cast
  after_cast-KeepsEngine e (co, ok _) vote i fine = record { inv = i; no_panic = λ h. cc }
  after_cast-KeepsEngine e (co, err x) vote i fine = record { inv = i; no_panic = λ h. cc }
  after_cast-KeepsEngine e (co, panic) vote i fine = absurd (fine refl)

  propose_as_leader-KeepsEngine :
      (e : BftEngine b) (co : Coordinator)
      → EngineInv b c e.state
      → RoundInv b c e.state.validator_set e.state.head_number co
      → Captured b c co.proposed_block e.state.proposal
      → KeepsEngine (propose_as_leader b c e co)
  unfolding propose_as_leader drain_pending_txs_into_body
  propose_as_leader-KeepsEngine e co i r captured =
      let proof = produce c e.config.my_vrf_sk co.height co.round e.state.seed in
      let (e', body) = drain_pending_txs_into_body b e in
      let block =
        build_block_with_body b e.config e.state.head_hash e.state.head_timestamp co.height proof
          e.config.coinbase body in
      let o = submit_proposal c co (block_hash b block) proof in
      let k = submit_proposal-Keeps c co r.inv (block_hash b block) proof in
      after_proposal-KeepsEngine e' o block proof
        (proposed-Inv b c aggregates e.state co block proof i r)
        (λ x refused. refused-Inv b c aggregates e.state co o x i r captured k refused) k.no_panic

  pub cast_proposal-KeepsEngine :
      (e : BftEngine b) → EngineInv b c e.state → KeepsEngine (cast_proposal b c e)
  unfolding cast_proposal ensure_coordinator
  cast_proposal-KeepsEngine e i =
      let co = ensured b e.state in
      let (r, captured) = ensured-RoundInv b c aggregates e.state i in
      let j : EngineInv b c (record e.state { coordinator = some co }) =
        with_coordinator-Inv b c e.state co i r captured in
      elim (Bool-cases (leader_index c co != e.state.my_index)) [
        | inl other ↦ rw other (record { inv = j; no_panic = λ h. cc })
        | inr mine ↦
            rw mine (propose_as_leader-KeepsEngine (with_coordinator b c e co) co j r captured)
      ]

  pub cast_prevote-KeepsEngine :
      (e : BftEngine b) → EngineInv b c e.state → KeepsEngine (cast_prevote b c e)
  unfolding cast_prevote
  cast_prevote-KeepsEngine e i = elim (Option-cases e.state.coordinator) [
    | inl absent ↦
        let end : cast_prevote b c e ≡ (e, err no_active_coordinator) = ground (arith, absent) in
        subst KeepsEngine (sym end) (record { inv = i; no_panic = λ h. cc })
    | inr (co, has) ↦ elim (Option-cases co.proposed_block) [
      | inl nothing ↦
          let end : cast_prevote b c e ≡ (e, err (wrong_phase prevoting co.phase)) =
            ground (arith, has, nothing) in
          subst KeepsEngine (sym end) (record { inv = i; no_panic = λ h. cc })
      | inr (hash, proposed) ↦
          let (r, captured) = round_of b c e.state co i has in
          let vote = sign c prevote e.config.my_bls_sk hash co.height co.round e.state.my_index in
          let o = submit_prevote c co vote in
          let k = submit_prevote-Keeps c co vote aggregates r.inv in
          let end : cast_prevote b c e ≡ after_cast b c e o vote = ground (arith, has, proposed) in
          subst KeepsEngine (sym end) (
            after_cast-KeepsEngine e o vote
              (with_coordinator-Inv b c e.state o.0 i
                (Keeps-RoundInv b c e.state.validator_set e.state.head_number co o r k)
                (subst (λ p. Captured b c p e.state.proposal)
                  (sym (submit_prevote-proposed b c aggregates co vote)) captured))
              k.no_panic)
    ]
  ]

  pub cast_precommit-KeepsEngine :
      (e : BftEngine b) → EngineInv b c e.state → KeepsEngine (cast_precommit b c e)
  unfolding cast_precommit
  cast_precommit-KeepsEngine e i = elim (Option-cases e.state.coordinator) [
    | inl absent ↦
        let end : cast_precommit b c e ≡ (e, err no_active_coordinator) = ground (arith, absent) in
        subst KeepsEngine (sym end) (record { inv = i; no_panic = λ h. cc })
    | inr (co, has) ↦ elim (Bool-cases (phase_eq co.phase precommitting)) [
      | inr other ↦
          let end : cast_precommit b c e ≡ (e, err (wrong_phase precommitting co.phase)) =
            ground (arith, has, other) in
          subst KeepsEngine (sym end) (record { inv = i; no_panic = λ h. cc })
      | inl now ↦
          let (r, captured) = round_of b c e.state co i has in
          let at : co.phase ≡ precommitting = ground arith in
          let holds = subst (Holds c co) at r.inv.holds in
          let hash = holds.0 in
          let proposed = holds.3 in
          let vote = sign c precommit e.config.my_bls_sk hash co.height co.round e.state.my_index in
          let o = submit_precommit c co vote in
          let k = submit_precommit-Keeps c co vote aggregates r.inv in
          let end : cast_precommit b c e ≡ after_cast b c e o vote =
            ground (arith, has, now, proposed) in
          subst KeepsEngine (sym end) (
            after_cast-KeepsEngine e o vote
              (with_coordinator-Inv b c e.state o.0 i
                (Keeps-RoundInv b c e.state.validator_set e.state.head_number co o r k)
                (subst (λ p. Captured b c p e.state.proposal)
                  (sym (submit_precommit-proposed b c aggregates co vote)) captured))
              k.no_panic)
    ]
  ]
