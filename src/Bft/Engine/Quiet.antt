-- ===== src/Bft/Engine/Quiet.antt =====
-- The calls that leave the cache and the validators as they are.
use aii.Base.{
  ℕ, ◌≡◌, refl, ap, sym, ◌∙◌, subst, inl, inr, Option, none, some, Result, ok, err, panic, arith,
  Option-cases, Bool-cases, Result-cases, leb,
}
use aii.Crypto.{Crypto}
use aii.Block.{Block, Blocks, block_hash}
use aii.Bft.Votes.{Vote, prevote, precommit, LeaderProof}
use aii.Bft.Validators.{ValidatorSet, size}
use aii.Bft.Engine.{EngineState, BftEngine, rotate_validator_set, fast_forward_to_round}
use aii.Bft.Engine.Building.{drain_pending_txs_into_body}
use aii.Bft.Engine.Votes.{drained, submit_remote_prevote, submit_remote_precommit}
use aii.Bft.Engine.Rounds.{
  cast_proposal, cast_prevote, cast_precommit, after_proposal, after_cast, propose_as_leader,
  submit_remote_proposal, tick_timeout, ensure_coordinator,
}
use aii.Base.{zero, suc, Bool, false}
use aii.Bft.Coordinator.{
  Coordinator, Outcome, fire_timeout, submit_proposal, submit_prevote, submit_precommit,
}
use aii.Bft.Slashing.{Evidence, record_prevote, record_precommit}
use aii.Bft.Engine.Rounds.{ensured}
use aii.Bft.Engine.Votes.{
  is_early, apply_votes, drop_stale, buffer_prevote, buffer_precommit, drain_round, drain_loop,
  buffered, drain_pending_votes, park, after_vote, ingest_prevote, ingest_precommit,
}

same_ok : {E A : Type 0} {x y : A} → ◌≡◌ {A = Result E A} (ok x) (ok y) → x ≡ y
same_ok h = cc

module _ (b : Blocks) (c : Crypto) where
  -- The cache and the validators are as they were.
  abbrev pub Quiet : EngineState b → EngineState b → Type 0
  Quiet g g' = (g'.recent_blocks ≡ g.recent_blocks) × (g'.validator_set ≡ g.validator_set)

  pub cast_proposal-Quiet : (e : BftEngine b) → Quiet e.state (cast_proposal b c e).0.state
  unfolding cast_proposal propose_as_leader after_proposal drain_pending_txs_into_body
      ensure_coordinator
  cast_proposal-Quiet e = (ground arith, ground arith)

  pub cast_prevote-Quiet : (e : BftEngine b) → Quiet e.state (cast_prevote b c e).0.state
  unfolding cast_prevote after_cast
  cast_prevote-Quiet e = (ground arith, ground arith)

  pub cast_precommit-Quiet : (e : BftEngine b) → Quiet e.state (cast_precommit b c e).0.state
  unfolding cast_precommit after_cast
  cast_precommit-Quiet e = (ground arith, ground arith)

  pub rotate-recent :
      (g : EngineState b) (vs : ValidatorSet) (my_index : ℕ)
      → (rotate_validator_set b g vs my_index).0.recent_blocks ≡ g.recent_blocks
  unfolding rotate_validator_set
  rotate-recent g vs my_index = ground arith

  pub rotate-set :
      (K : ValidatorSet → Type 0) (g : EngineState b) (vs : ValidatorSet) (my_index : ℕ)
      → K g.validator_set
      → K vs
      → K (rotate_validator_set b g vs my_index).0.validator_set
  unfolding rotate_validator_set
  rotate-set K g vs my_index old new = elim (Bool-cases (leb (size vs) my_index)) [
    | inl outside ↦ rw (rotate_validator_set, outside) old
    | inr member ↦ elim (Option-cases g.coordinator) [
      | inr (co, has) ↦ rw (rotate_validator_set, member, has) old
      | inl absent ↦ elim (Option-cases g.proposal) [
        | inl clear ↦ rw (rotate_validator_set, member, absent, clear) new
        | inr (p, has) ↦ rw (rotate_validator_set, member, absent, has) old
      ]
    ]
  ]

  pub fast_forward-Quiet :
      (g : EngineState b) (round : ℕ) → Quiet g (fast_forward_to_round b g round).0
  unfolding fast_forward_to_round
  fast_forward-Quiet g round = (ground arith, ground arith)

  drain_round-Quiet :
      (g g' : EngineState b) (co : Coordinator) (any : Bool)
      → drain_round b c g co ≡ ok (g', any)
      → Quiet g g'
  unfolding drain_round
  drain_round-Quiet g g' co any h =
      elim (Result-cases (apply_votes (submit_prevote c) co g.pending_prevotes false)) [
        | inl (p, took) ↦
            elim (Result-cases
              (apply_votes (submit_precommit c) p.coordinator g.pending_precommits p.applied_any)) [
                | inl (q, took') ↦
                    let left : EngineState b = record g {
                      coordinator = some q.coordinator;
                      pending_prevotes = p.leftover;
                      pending_precommits = q.leftover;
                    } in
                    let end : drain_round b c g co ≡ ok (left, q.applied_any) =
                      rw (drain_round, took, took') refl in
                    let same : left ≡ g' = ap (λ o. o.0) (same_ok (sym end ∙ h)) in
                    subst (Quiet g) same (refl, refl)
                | inr (inl (e, bad)) ↦
                    let end : drain_round b c g co ≡ err e = rw (drain_round, took, bad) refl in
                    absurd (cc (sym end ∙ h))
                | inr (inr bad) ↦
                    let end : drain_round b c g co ≡ panic = rw (drain_round, took, bad) refl in
                    absurd (cc (sym end ∙ h))
              ]
        | inr (inl (e, bad)) ↦
            let end : drain_round b c g co ≡ err e = rw (drain_round, bad) refl in
            absurd (cc (sym end ∙ h))
        | inr (inr bad) ↦
            let end : drain_round b c g co ≡ panic = rw (drain_round, bad) refl in
            absurd (cc (sym end ∙ h))
      ]

  drop_stale-Quiet : (g : EngineState b) → Quiet g (drop_stale b g)
  unfolding drop_stale
  drop_stale-Quiet g = (refl, refl)

  drain_loop-Quiet : (n : ℕ) (g g' : EngineState b) → drain_loop b c n g ≡ ok g' → Quiet g g'
  unfolding drain_loop
  drain_loop-Quiet zero g g' h = absurd (cc h)
  drain_loop-Quiet (suc n) g g' h =
      let fresh = drop_stale b g in
      let (s, s') = drop_stale-Quiet g in
      elim (Option-cases fresh.coordinator) [
        | inl absent ↦
            let end : drain_loop b c (suc n) g ≡ ok fresh = ground (arith, absent) in
            subst (Quiet g) (same_ok (sym end ∙ h)) (s, s')
        | inr (co, has) ↦ elim (Result-cases (drain_round b c fresh co)) [
          | inl ((g1, any), done) ↦
              let (q, q') = drain_round-Quiet fresh g1 co any done in
              elim (Bool-cases any) [
                | inl again ↦
                    let end : drain_loop b c (suc n) g ≡ drain_loop b c n g1 =
                      rw (drain_loop, has, done, again) refl in
                    let (r, r') = drain_loop-Quiet n g1 g' (sym end ∙ h) in
                    (r ∙ q ∙ s, r' ∙ q' ∙ s')
                | inr over ↦
                    let end : drain_loop b c (suc n) g ≡ ok g1 =
                      rw (drain_loop, has, done, over) refl in
                    subst (Quiet g) (same_ok (sym end ∙ h)) (q ∙ s, q' ∙ s')
              ]
          | inr (inl (e, bad)) ↦
              let end : drain_loop b c (suc n) g ≡ err e = rw (drain_loop, has, bad) refl in
              absurd (cc (sym end ∙ h))
          | inr (inr bad) ↦
              let end : drain_loop b c (suc n) g ≡ panic = rw (drain_loop, has, bad) refl in
              absurd (cc (sym end ∙ h))
        ]
      ]

  drained-Quiet : (g : EngineState b) → Quiet g (drained b c g).0
  unfolding drain_pending_votes
  drained-Quiet g = elim (Result-cases (drain_pending_votes b c g)) [
    | inl (g', done) ↦
        let end : drained b c g ≡ (g', ok tt) = ground (arith, done) in
        subst (λ o. Quiet g o.0) (sym end) (drain_loop-Quiet (suc (buffered b c g)) g g' done)
    | inr (inl (e, bad)) ↦
        let end : drained b c g ≡ (g, err e) = ground (arith, bad) in
        subst (λ o. Quiet g o.0) (sym end) (refl, refl)
    | inr (inr bad) ↦
        let end : drained b c g ≡ (g, panic) = ground (arith, bad) in
        subst (λ o. Quiet g o.0) (sym end) (refl, refl)
  ]

  after_vote-Quiet :
      (g : EngineState b) (buffer : EngineState b → EngineState b) (o : Outcome)
      → ((x : EngineState b) → Quiet x (buffer x))
      → Quiet g (after_vote b c g buffer o).0
  unfolding after_vote
  after_vote-Quiet g buffer (co', ok _) q = drained-Quiet (record g { coordinator = some co' })
  after_vote-Quiet g buffer (co', err e) q = elim (Bool-cases (is_early e)) [
    | inl early ↦ rw early (q (record g { coordinator = some co' }))
    | inr bad ↦ rw bad (refl, refl)
  ]
  after_vote-Quiet g buffer (co', panic) q = (refl, refl)

  park-Quiet : (g : EngineState b) (found : Option Evidence) → Quiet g (park b c g found)
  park-Quiet g none = (refl, refl)
  park-Quiet g (some evidence) = (refl, refl)

  ingest_prevote-Quiet :
      (g : EngineState b) (vote : Vote prevote) → Quiet g (ingest_prevote b c g vote).0
  unfolding ingest_prevote
  ingest_prevote-Quiet g vote = elim (Bool-cases (leb vote.height g.head_number)) [
    | inl stale ↦ rw stale (refl, refl)
    | inr live ↦ elim (Option-cases g.coordinator) [
      | inl absent ↦ rw (ingest_prevote, live, absent) (refl, refl)
      | inr (co, has) ↦
          rw (ingest_prevote, live, has)
            (after_vote-Quiet g (λ x. buffer_prevote b x vote) (submit_prevote c co vote)
              (λ x. (refl, refl)))
    ]
  ]

  ingest_precommit-Quiet :
      (g : EngineState b) (vote : Vote precommit) → Quiet g (ingest_precommit b c g vote).0
  unfolding ingest_precommit
  ingest_precommit-Quiet g vote = elim (Bool-cases (leb vote.height g.head_number)) [
    | inl stale ↦ rw stale (refl, refl)
    | inr live ↦ elim (Option-cases g.coordinator) [
      | inl absent ↦ rw (ingest_precommit, live, absent) (refl, refl)
      | inr (co, has) ↦
          rw (ingest_precommit, live, has)
            (after_vote-Quiet g (λ x. buffer_precommit b x vote) (submit_precommit c co vote)
              (λ x. (refl, refl)))
    ]
  ]

  pub submit_remote_prevote-Quiet :
      (g : EngineState b) (vote : Vote prevote) → Quiet g (submit_remote_prevote b c g vote).0
  unfolding submit_remote_prevote
  submit_remote_prevote-Quiet g vote =
      let seen = record_prevote g.detector vote in
      let g1 : EngineState b = record g { detector = seen.0 } in
      let (p, p') = park-Quiet g1 seen.1 in
      let (q, q') = ingest_prevote-Quiet (park b c g1 seen.1) vote in (q ∙ p, q' ∙ p')

  pub submit_remote_precommit-Quiet :
      (g : EngineState b) (vote : Vote precommit) → Quiet g (submit_remote_precommit b c g vote).0
  unfolding submit_remote_precommit
  submit_remote_precommit-Quiet g vote =
      let seen = record_precommit g.detector vote in
      let g1 : EngineState b = record g { detector = seen.0 } in
      let (p, p') = park-Quiet g1 seen.1 in
      let (q, q') = ingest_precommit-Quiet (park b c g1 seen.1) vote in (q ∙ p, q' ∙ p')

  pub submit_remote_proposal-Quiet :
      (g : EngineState b) (block : Block b.Tx) (proof : LeaderProof)
      → Quiet g (submit_remote_proposal b c g block proof).0
  unfolding submit_remote_proposal
  submit_remote_proposal-Quiet g block proof =
      let o = submit_proposal c (ensured b g) (block_hash b block) proof in
      let left : EngineState b = record g { coordinator = some o.0 } in
      elim (Result-cases o.1) [
        | inl (_, took) ↦
            rw (submit_remote_proposal, took)
              (drained-Quiet (record left { proposal = some (block, proof) }))
        | inr (inl (e, bad)) ↦ rw (submit_remote_proposal, bad) (refl, refl)
        | inr (inr bad) ↦ rw (submit_remote_proposal, bad) (refl, refl)
      ]

  pub tick_timeout-Quiet : (g : EngineState b) → Quiet g (tick_timeout b c g).0
  unfolding tick_timeout
  tick_timeout-Quiet g =
      drained-Quiet (record g { coordinator = some (fire_timeout (ensured b g)); proposal = none })
