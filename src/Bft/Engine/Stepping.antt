-- ===== src/Bft/Engine/Stepping.antt =====
-- How `step` of several validators and `try_harvest_committed` agree.
use aii.Base.{
  ◌≡◌, ◌⊎◌, inl, inr, Option, none, some, Result, ok, err, true, arith, Bool-cases, Option-cases,
}
use aii.Crypto.{Crypto}
use aii.Block.{Block, Blocks, block_hash}
use aii.Bft.Error.{committed}
use aii.Bft.Coordinator.{Coordinator, phase_eq}
use aii.Bft.Engine.{EngineState, try_harvest_committed}
use aii.Bft.Engine.Invariant.{EngineInv}
use aii.Bft.Engine.Heads.{committed-Finalizes}
use aii.Bft.Engine.Single.{
  EngineProgress, StepError, idle, new_block, committed_with_no_proposal, step_committed,
}

module _ (b : Blocks) (c : Crypto) where
  -- The reply of `step` on what `try_harvest_committed` has found.
  abbrev pub progress : Option (Block b.Tx) → Result StepError EngineProgress
  progress none = ok idle
  progress (some block) = ok (new_block (block_hash b block))

  -- The round is committed and its block is lost.
  abbrev pub Lost : EngineState b → Type 0
  Lost g =
      (co : Coordinator) × (g.coordinator ≡ some co)
      × (phase_eq co.phase committed ≡ true)
      × (g.proposal ≡ none)

  -- On an engine that satisfies the invariant, `step` of several validators and `try_harvest_committed`
  -- leave the same state, and `step` reports the block that the other returns, or that it is idle; but
  -- where the round is committed and no proposal is captured, `step` fails and changes nothing. It never
  -- fails for want of a certificate.
  pub step_committed-harvest :
      (g : EngineState b)
      → EngineInv b c g
      → let (g', found) = try_harvest_committed b g in
        (step_committed b g ≡ (g', progress found))
        ⊎ (Lost g × (step_committed b g ≡ (g, err committed_with_no_proposal)))
  unfolding step_committed try_harvest_committed
  step_committed-harvest g i = elim (Option-cases g.coordinator) [
    | inl absent ↦ inl (ground (arith, absent))
    | inr (co, has) ↦ elim (Bool-cases (phase_eq co.phase committed)) [
      | inr going ↦ inl (ground (arith, has, going))
      | inl last ↦ elim (Option-cases g.proposal) [
        | inl lost ↦ inr ((co, has, last, lost), ground (arith, has, last, lost))
        | inr ((block, proof), took) ↦
            let (cert, has_cert, _, _) = committed-Finalizes b c g co block proof i has took last in
            inl (ground (arith, has, last, took, has_cert))
      ]
    ]
  ]
