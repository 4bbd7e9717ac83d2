-- ===== src/Bft/Engine/Hazards.antt =====
-- Two ways to lose the way: a timeout before a harvest, and a proposal of another height.
use aii.Base.{
  ℕ, ◌≡◌, refl, sym, subst, ◌∙◌, inl, inr, none, some, List, [], ◌∷◌, ok, true, false, arith,
  Result-cases,
}
use aii.Crypto.{Crypto, Aggregates}
use aii.Block.{Block, Blocks, block_hash}
use aii.Bft.Error.{committed}
use aii.Bft.Votes.{Vote, prevote, precommit, LeaderProof}
use aii.Bft.Coordinator.{
  Coordinator, fire_timeout, phase_eq, submit_proposal, submit_prevote, submit_precommit,
}
use aii.Bft.Engine.{EngineState, try_harvest_committed}
use aii.Bft.Engine.Invariant.{EngineInv}
use aii.Bft.Engine.Votes.{apply_votes, drop_stale, drain_round, drain_loop, drain_pending_votes}
use aii.Bft.Engine.Votes.Drain.{drain_pending_votes-Drains}
use aii.Bft.Engine.Keeping.{ensured-RoundInv}
use aii.Bft.Engine.Proposing.{proposed-Inv}
use aii.Bft.Engine.Rounds.{ensured, tick_timeout, submit_remote_proposal}

module _ (b : Blocks) (c : Crypto) where
  module _ (co : Coordinator) (last : phase_eq co.phase committed ≡ true) where
    -- A committed coordinator takes no vote.
    prevotes-idle :
        (votes : List (Vote prevote))
        → apply_votes (submit_prevote c) co votes false
          ≡ ok (record { coordinator = co; leftover = votes; applied_any = false })
    unfolding apply_votes submit_prevote
    prevotes-idle [] = refl
    prevotes-idle (v ∷ votes) = ground (arith, last, prevotes-idle votes)

    precommits-idle :
        (votes : List (Vote precommit))
        → apply_votes (submit_precommit c) co votes false
          ≡ ok (record { coordinator = co; leftover = votes; applied_any = false })
    unfolding apply_votes submit_precommit
    precommits-idle [] = refl
    precommits-idle (v ∷ votes) = ground (arith, last, precommits-idle votes)

    drain-idle :
        (g : EngineState b)
        → g.coordinator ≡ some co
        → drain_pending_votes b c g ≡ ok (record (drop_stale b g) { coordinator = some co })
    unfolding drain_pending_votes drain_loop drain_round drop_stale
    drain-idle g has =
        let g' = drop_stale b g in
        ground
          (arith, has, prevotes-idle g'.pending_prevotes, precommits-idle g'.pending_precommits)

    -- On an engine with a committed coordinator, `tick_timeout` succeeds, leaves the coordinator as it
    -- is, drops the captured proposal, and `try_harvest_committed` then finds nothing and changes
    -- nothing: the committed block is lost.
    pub tick_timeout-loses :
        (g : EngineState b)
        → g.coordinator ≡ some co
        → let (g', reply) = tick_timeout b c g in
          (reply ≡ ok tt)
          × (g'.coordinator ≡ some co)
          × (g'.proposal ≡ none)
          × (try_harvest_committed b g' ≡ (g', none))
    unfolding tick_timeout fire_timeout ensured try_harvest_committed drop_stale
    tick_timeout-loses g has =
        let timed : EngineState b = record g { coordinator = some co; proposal = none } in
        let idle = drain-idle timed refl in
        let g' : EngineState b = record (drop_stale b timed) { coordinator = some co } in
        let end : tick_timeout b c g ≡ (g', ok tt) = ground (arith, has, last, idle) in
        subst
          (λ o.
            (o.1 ≡ ok tt)
            × (o.0.coordinator ≡ some co)
            × (o.0.proposal ≡ none)
            × (try_harvest_committed b o.0 ≡ (o.0, none)))
          (sym end) (refl, refl, refl, ground (arith, last))

  module _ (aggregates : Aggregates c) where
    proposal-reply :
        (g : EngineState b) (block : Block b.Tx) (proof : LeaderProof)
        → EngineInv b c g
        → (submit_remote_proposal b c g block proof).1
          ≡ (submit_proposal c (ensured b g) (block_hash b block) proof).1
    unfolding submit_remote_proposal
    proposal-reply g block proof i =
        let co = ensured b g in
        let (r, _) = ensured-RoundInv b c aggregates g i in
        let o = submit_proposal c co (block_hash b block) proof in
        let left : EngineState b = record g {
          coordinator = some o.0;
          proposal = some (block, proof);
        } in
        elim (Result-cases o.1) [
          | inl (_, took) ↦
              let (g', done, _) =
                drain_pending_votes-Drains b c aggregates left
                  (proposed-Inv b c aggregates g co block proof i r took) in
              ground (arith, took, done)
          | inr (inl (e, refused)) ↦ ground (arith, refused)
          | inr (inr panics) ↦ ground (arith, panics)
        ]

    reply-any_hash :
        (co : Coordinator) (hash hash' : ℕ) (proof : LeaderProof)
        → (submit_proposal c co hash proof).1 ≡ (submit_proposal c co hash' proof).1
    unfolding submit_proposal
    reply-any_hash co hash hash' proof = ground arith

    -- Given that signatures aggregate: on an engine that satisfies the invariant,
    -- `submit_remote_proposal` gives the same reply for any two blocks with the same leader proof: whether
    -- it accepts a block does not depend on the number of the block, its parent, or anything in it.
    pub submit_remote_proposal-any_block :
        (g : EngineState b) (block block' : Block b.Tx) (proof : LeaderProof)
        → EngineInv b c g
        → (submit_remote_proposal b c g block proof).1
          ≡ (submit_remote_proposal b c g block' proof).1
    submit_remote_proposal-any_block g block block' proof i =
        proposal-reply g block proof i
        ∙ reply-any_hash (ensured b g) (block_hash b block) (block_hash b block') proof
        ∙ sym (proposal-reply g block' proof i)
