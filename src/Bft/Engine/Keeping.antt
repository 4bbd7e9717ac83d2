-- ===== src/Bft/Engine/Keeping.antt =====
-- Every call of the engine keeps its invariant and does not panic: the methods on the state.
use aii.Base.{
  ◌≡◌, ◌≢◌, refl, sym, subst, inl, inr, Option, none, some, ok, err, panic, leb, arith, Bool-cases,
  Option-cases,
}
use aii.Crypto.{Crypto, Aggregates}
use aii.Block.{Blocks}
use aii.Bft.Votes.{Vote, prevote, precommit}
use aii.Bft.Coordinator.{Outcome, new_coordinator, submit_prevote, submit_precommit}
use aii.Bft.Coordinator.Prevotes.{submit_prevote-Keeps}
use aii.Bft.Coordinator.Precommits.{submit_precommit-Keeps}
use aii.Bft.Slashing.{Evidence, record_prevote, record_precommit}
use aii.Bft.Engine.{EngineState}
use aii.Bft.Engine.Invariant.{
  KeepsState, round_of, with_coordinator-Inv, Keeps-RoundInv, fresh-RoundInv, Captured-none,
  RoundInv, Captured, EngineInv,
}
use aii.Bft.Engine.Votes.{
  is_early, drained, park, after_vote, buffer_prevote, buffer_precommit, ingest_prevote,
  ingest_precommit, submit_remote_prevote, submit_remote_precommit,
}
use aii.Bft.Engine.Votes.Drain.{drain_pending_votes-Drains}
use aii.Bft.Engine.Votes.Passes.{submit_prevote-proposed, submit_precommit-proposed}
use aii.Bft.Engine.Rounds.{ensured}

module _ (b : Blocks) (c : Crypto) (aggregates : Aggregates c) where
  pub drained-KeepsState : (g : EngineState b) → EngineInv b c g → KeepsState b c (drained b c g)
  drained-KeepsState g i =
      let (g', done, d) = drain_pending_votes-Drains b c aggregates g i in
      let end : drained b c g ≡ (g', ok tt) = ground (arith, done) in
      subst (KeepsState b c) (sym end) (record { inv = d.inv; no_panic = λ h. cc })

  after_vote-KeepsState :
      (g : EngineState b) (buffer : EngineState b → EngineState b) (o : Outcome)
      → EngineInv b c (record g { coordinator = some o.0 })
      → EngineInv b c (buffer (record g { coordinator = some o.0 }))
      → o.1 ≢ panic
      → KeepsState b c (after_vote b c g buffer o)
  unfolding after_vote
  after_vote-KeepsState g buffer (co', ok _) i i' fine =
      drained-KeepsState (record g { coordinator = some co' }) i
  after_vote-KeepsState g buffer (co', err e) i i' fine = elim (Bool-cases (is_early e)) [
    | inl early ↦ rw early (record { inv = i'; no_panic = λ h. cc })
    | inr bad ↦ rw bad (record { inv = i; no_panic = λ h. cc })
  ]
  after_vote-KeepsState g buffer (co', panic) i i' fine = absurd (fine refl)

  ingest_prevote-KeepsState :
      (g : EngineState b) (vote : Vote prevote)
      → EngineInv b c g
      → KeepsState b c (ingest_prevote b c g vote)
  unfolding ingest_prevote
  ingest_prevote-KeepsState g vote i = elim (Bool-cases (leb vote.height g.head_number)) [
    | inl stale ↦ rw stale (record { inv = i; no_panic = λ h. cc })
    | inr live ↦ elim (Option-cases g.coordinator) [
      | inl absent ↦
          let end : ingest_prevote b c g vote ≡ (buffer_prevote b g vote, ok tt) =
            ground (arith, live, absent) in
          subst (KeepsState b c) (sym end) (record { inv = i; no_panic = λ h. cc })
      | inr (co, has) ↦
          let (r, captured) = round_of b c g co i has in
          let o = submit_prevote c co vote in
          let k = submit_prevote-Keeps c co vote aggregates r.inv in
          let j : EngineInv b c (record g { coordinator = some o.0 }) =
            with_coordinator-Inv b c g o.0 i
              (Keeps-RoundInv b c g.validator_set g.head_number co o r k)
              (subst (λ p. Captured b c p g.proposal)
                (sym (submit_prevote-proposed b c aggregates co vote)) captured) in
          let end : ingest_prevote b c g vote ≡ after_vote b c g (λ x. buffer_prevote b x vote) o =
            ground (arith, live, has) in
          subst (KeepsState b c) (sym end)
            (after_vote-KeepsState g (λ x. buffer_prevote b x vote) o j j k.no_panic)
    ]
  ]

  park-Inv :
      (g : EngineState b) (found : Option Evidence)
      → EngineInv b c g
      → EngineInv b c (park b c g found)
  park-Inv g none i = i
  park-Inv g (some evidence) i = i

  pub submit_remote_prevote-KeepsState :
      (g : EngineState b) (vote : Vote prevote)
      → EngineInv b c g
      → KeepsState b c (submit_remote_prevote b c g vote)
  unfolding submit_remote_prevote
  submit_remote_prevote-KeepsState g vote i =
      let seen = record_prevote g.detector vote in
      ingest_prevote-KeepsState (park b c (record g { detector = seen.0 }) seen.1) vote
        (park-Inv (record g { detector = seen.0 }) seen.1 i)

  ingest_precommit-KeepsState :
      (g : EngineState b) (vote : Vote precommit)
      → EngineInv b c g
      → KeepsState b c (ingest_precommit b c g vote)
  unfolding ingest_precommit
  ingest_precommit-KeepsState g vote i = elim (Bool-cases (leb vote.height g.head_number)) [
    | inl stale ↦ rw stale (record { inv = i; no_panic = λ h. cc })
    | inr live ↦ elim (Option-cases g.coordinator) [
      | inl absent ↦
          let end : ingest_precommit b c g vote ≡ (buffer_precommit b g vote, ok tt) =
            ground (arith, live, absent) in
          subst (KeepsState b c) (sym end) (record { inv = i; no_panic = λ h. cc })
      | inr (co, has) ↦
          let (r, captured) = round_of b c g co i has in
          let o = submit_precommit c co vote in
          let k = submit_precommit-Keeps c co vote aggregates r.inv in
          let j : EngineInv b c (record g { coordinator = some o.0 }) =
            with_coordinator-Inv b c g o.0 i
              (Keeps-RoundInv b c g.validator_set g.head_number co o r k)
              (subst (λ p. Captured b c p g.proposal)
                (sym (submit_precommit-proposed b c aggregates co vote)) captured) in
          let end : ingest_precommit b c g vote
              ≡ after_vote b c g (λ x. buffer_precommit b x vote) o =
            ground (arith, live, has) in
          subst (KeepsState b c) (sym end)
            (after_vote-KeepsState g (λ x. buffer_precommit b x vote) o j j k.no_panic)
    ]
  ]

  pub submit_remote_precommit-KeepsState :
      (g : EngineState b) (vote : Vote precommit)
      → EngineInv b c g
      → KeepsState b c (submit_remote_precommit b c g vote)
  unfolding submit_remote_precommit
  submit_remote_precommit-KeepsState g vote i =
      let seen = record_precommit g.detector vote in
      ingest_precommit-KeepsState (park b c (record g { detector = seen.0 }) seen.1) vote
        (park-Inv (record g { detector = seen.0 }) seen.1 i)

  pub ensured-RoundInv :
      (g : EngineState b)
      → EngineInv b c g
      → RoundInv b c g.validator_set g.head_number (ensured b g)
        × Captured b c (ensured b g).proposed_block g.proposal
  unfolding ensured new_coordinator
  ensured-RoundInv g i = elim (Option-cases g.coordinator) [
    | inl absent ↦ rw absent (fresh-RoundInv b c g i, Captured-none b c g none refl)
    | inr (co, has) ↦ rw has (round_of b c g co i has)
  ]
