-- ===== src/Bft/Engine/Proposing.antt =====
-- The proposals of peers and the timeouts keep the invariant.
use aii.Base.{ℕ, ◌≡◌, refl, sym, subst, inl, inr, none, some, ok, err, arith, Result-cases}
use aii.Crypto.{Crypto, Aggregates}
use aii.Block.{Block, Blocks, block_hash}
use aii.Bft.Error.{BftError}
use aii.Bft.Votes.{LeaderProof}
use aii.Bft.Coordinator.{
  Coordinator, Outcome, fire_timeout, phase_eq, submit_proposal, submit_prevote, submit_precommit,
  leader_index,
}
use aii.Bft.Coordinator.Steps.{Keeps, submit_proposal-Keeps}
use aii.Bft.Coordinator.Finality.{fire_timeout-Keeps}
use aii.Bft.Engine.{EngineState}
use aii.Bft.Engine.Invariant.{
  RoundInv, Captured, EngineInv, KeepsState, with_coordinator-Inv, Keeps-RoundInv,
}
use aii.Bft.Engine.Votes.{drained}
use aii.Bft.Engine.Keeping.{drained-KeepsState, ensured-RoundInv}
use aii.Bft.Engine.Rounds.{ensured, submit_remote_proposal, tick_timeout}

module _ (b : Blocks) (c : Crypto) (aggregates : Aggregates c) where
  pub submit_proposal-proposed :
      (co : Coordinator) (hash : ℕ) (p : LeaderProof)
      → (submit_proposal c co hash p).1 ≡ ok tt
      → (submit_proposal c co hash p).0.proposed_block ≡ some hash
  unfolding submit_proposal aii.Bft.Coordinator.accept_proposal
  submit_proposal-proposed co hash p h = ground (arith, h)

  -- What a proposal leaves, by its reply: the coordinator with the captured block, or all as it was.
  pub proposed-Inv :
      (g : EngineState b) (co : Coordinator) (block : Block b.Tx) (proof : LeaderProof)
      → EngineInv b c g
      → RoundInv b c g.validator_set g.head_number co
      → (submit_proposal c co (block_hash b block) proof).1 ≡ ok tt
      → EngineInv b c (record g {
        coordinator = some (submit_proposal c co (block_hash b block) proof).0;
        proposal = some (block, proof);
      })
  proposed-Inv g co block proof i r took =
      let hash = block_hash b block in
      let o = submit_proposal c co hash proof in
      record {
        valid = i.valid;
        active = (
          Keeps-RoundInv b c g.validator_set g.head_number co o r
              (submit_proposal-Keeps c co r.inv hash proof),
          subst (λ p. Captured b c p (some (block, proof)))
              (sym (submit_proposal-proposed co hash proof took)) refl,
        );
        cache = i.cache;
      }

  pub refused-Inv :
      (g : EngineState b) (co : Coordinator) (o : Outcome) (e : BftError)
      → EngineInv b c g
      → RoundInv b c g.validator_set g.head_number co
      → Captured b c co.proposed_block g.proposal
      → Keeps c co o
      → o.1 ≡ err e
      → EngineInv b c (record g { coordinator = some o.0 })
  refused-Inv g co o e i r captured k refused =
      subst (λ x. EngineInv b c (record g { coordinator = some x })) (sym (k.atomic e refused))
        (with_coordinator-Inv b c g co i r captured)

  pub submit_remote_proposal-KeepsState :
      (g : EngineState b) (block : Block b.Tx) (proof : LeaderProof)
      → EngineInv b c g
      → KeepsState b c (submit_remote_proposal b c g block proof)
  unfolding submit_remote_proposal
  submit_remote_proposal-KeepsState g block proof i =
      let co = ensured b g in
      let (r, captured) = ensured-RoundInv b c aggregates g i in
      let o = submit_proposal c co (block_hash b block) proof in
      let k = submit_proposal-Keeps c co r.inv (block_hash b block) proof in
      let left : EngineState b = record g { coordinator = some o.0 } in
      elim (Result-cases o.1) [
        | inl (_, took) ↦
            let end : submit_remote_proposal b c g block proof
                ≡ drained b c (record left { proposal = some (block, proof) }) =
              ground (arith, took) in
            subst (KeepsState b c) (sym end) (
              drained-KeepsState b c aggregates (record left { proposal = some (block, proof) })
                (proposed-Inv g co block proof i r took))
        | inr (inl (e, refused)) ↦
            let end : submit_remote_proposal b c g block proof ≡ (left, err e) =
              ground (arith, refused) in
            subst (KeepsState b c) (sym end)
              (record { inv = refused-Inv g co o e i r captured k refused; no_panic = λ h. cc })
        | inr (inr panics) ↦ absurd (k.no_panic panics)
      ]

  pub tick_timeout-KeepsState :
      (g : EngineState b) → EngineInv b c g → KeepsState b c (tick_timeout b c g)
  unfolding tick_timeout
  tick_timeout-KeepsState g i =
      let co = ensured b g in
      let (r, _) = ensured-RoundInv b c aggregates g i in
      drained-KeepsState b c aggregates
        (record g { coordinator = some (fire_timeout co); proposal = none })
        (record {
          valid = i.valid;
          active = (
            Keeps-RoundInv b c g.validator_set g.head_number co (fire_timeout co, ok tt) r
                (fire_timeout-Keeps c co r.inv),
            tt,
          );
          cache = i.cache;
        })
