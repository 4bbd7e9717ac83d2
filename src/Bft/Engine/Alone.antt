-- ===== src/Bft/Engine/Alone.antt =====
-- What `advance_single` comes to.
use aii.Base.{
  ℕ, ◌+◌, ◌≡◌, ◌≢◌, ◌⊎◌, refl, ap, sym, ◌∙◌, subst, inl, inr, none, some, Result, ok, err, panic,
  ◌!=◌, ltb, u64_mod, Bool-cases, Option-cases,
}
use aii.Crypto.{Crypto, Aggregates}
use aii.Block.{Block, Blocks, block_hash}
use aii.Bft.Error.{
  Phase, awaiting_proposal, prevoting, precommitting, committed, BftError, not_single_validator,
  overflow,
}
use aii.Bft.Validators.{ValidatorSet, IsValid, size}
use aii.Bft.Votes.{Vote, prevote, precommit, LeaderProof, produce, sign}
use aii.Bft.Certificate.{Certificate, verify}
use aii.Bft.Coordinator.{
  Coordinator, Outcome, new_coordinator, submit_proposal, submit_prevote, submit_precommit,
}
use aii.Bft.Coordinator.Invariant.{CoordinatorInv, Holds, Proves}
use aii.Bft.Coordinator.Finality.{new_coordinator-Inv}
use aii.Bft.Coordinator.Steps.{submit_proposal-Keeps}
use aii.Bft.Coordinator.Prevotes.{submit_prevote-Keeps}
use aii.Bft.Coordinator.Precommits.{submit_precommit-Keeps}
use aii.Bft.Engine.{EngineState, BftEngine, BftConfig, next_height, try_harvest_committed}
use aii.Bft.Engine.Building.{build_block_with_body, drain_pending_txs_into_body}
use aii.Bft.Engine.Invariant.{EngineInv, fresh-RoundInv}
use aii.Bft.Engine.Cache.{cache_recent_block-CacheInv}
use aii.Bft.Engine.Proposing.{submit_proposal-proposed}
use aii.Bft.Engine.Votes.Passes.{submit_prevote-proposed, submit_precommit-proposed}
use aii.Bft.Engine.Single.{
  ok_or, AdvanceOutput, accepted, commit_alone, advance_head, after_commit, advance_single,
}

accepted-cases :
    (o : Outcome)
    → o.1 ≢ panic
    → ((accepted o ≡ ok o.0) × (o.1 ≡ ok tt)) ⊎ ((e : BftError) × (accepted o ≡ err e))
accepted-cases (co, ok _) fine = inl (refl, refl)
accepted-cases (co, err e) fine = inr (e, refl)
accepted-cases (co, panic) fine = absurd (fine refl)

-- A coordinator with a final certificate is committed, and the certificate is for its block.
final_cert-Proves :
    (c : Crypto) (co : Coordinator) (hash : ℕ) (cert : Certificate precommit)
    → CoordinatorInv c co
    → co.proposed_block ≡ some hash
    → co.final_cert ≡ some cert
    → Proves c co.vs co.height cert hash co.round
final_cert-Proves c co hash cert i proposed has = go co.phase i.holds
  where
    go : (ph : Phase) → Holds c co ph → Proves c co.vs co.height cert hash co.round
    go awaiting_proposal (_, _, absent) = absurd (cc (sym absent ∙ has))
    go prevoting h = let absent = h.6 in absurd (cc (sym absent ∙ has))
    go precommitting h = let absent = h.8 in absurd (cc (sym absent ∙ has))
    go committed (block, polc, cert', p, _, _, f, proves) =
        let same : block ≡ hash = cc (sym p ∙ proposed) in
        let same_cert : cert' ≡ cert = cc (sym f ∙ has) in
        subst (λ x. Proves c co.vs co.height cert x co.round) same
          (subst (λ x. Proves c co.vs co.height x block co.round) same_cert proves)

module _ (c : Crypto) (hash height : ℕ) (vs : ValidatorSet) where
  -- A certificate for the block at the height, that verifies under the set.
  pub record Sealed (cert : Certificate precommit) : Type 0 where
    pub verifies : verify c cert vs ≡ ok tt
    pub for_block : cert.block_hash ≡ hash
    pub at_height : cert.height ≡ height

  -- What `commit_alone` comes to.
  abbrev pub Seals : Result BftError (Certificate precommit) → Type 0
  Seals (ok cert) = Sealed cert
  Seals (err e) = Unit
  Seals panic = ⊥

module _ (b : Blocks) (c : Crypto) (aggregates : Aggregates c) where
  commit_alone-Seals :
      (co : Coordinator) (hash : ℕ) (proof : LeaderProof) (pre : Vote prevote)
      (commit : Vote precommit) (n : ℕ)
      → CoordinatorInv c co
      → Seals c hash co.height co.vs (commit_alone c co hash proof pre commit n)
  unfolding commit_alone
  commit_alone-Seals co hash proof pre commit n i =
      let Goal = Seals c hash co.height co.vs in
      let r = commit_alone c co hash proof pre commit n in
      let failed : (e : BftError) → r ≡ err e → Goal r = λ e end. subst Goal (sym end) tt in
      let o1 = submit_proposal c co hash proof in
      let k1 = submit_proposal-Keeps c co i hash proof in
      let o2 = submit_prevote c o1.0 pre in
      let k2 = submit_prevote-Keeps c o1.0 pre aggregates k1.inv in
      let o3 = submit_precommit c o2.0 commit in
      let k3 = submit_precommit-Keeps c o2.0 commit aggregates k2.inv in
      elim (accepted-cases o1 k1.no_panic) [
        | inr (e, bad) ↦ failed e (rw bad refl)
        | inl (good1, took) ↦ elim (accepted-cases o2 k2.no_panic) [
          | inr (e, bad) ↦ failed e (rw (good1, bad) refl)
          | inl (good2, _) ↦ elim (accepted-cases o3 k3.no_panic) [
            | inr (e, bad) ↦ failed e (rw (good1, good2, bad) refl)
            | inl (good3, _) ↦ elim (Option-cases o3.0.final_cert) [
              | inl absent ↦
                  failed (not_single_validator n)
                    (rw (good1, good2, good3) (ap (ok_or (not_single_validator n)) absent))
              | inr (cert, has) ↦
                  let proposed =
                    submit_precommit-proposed b c aggregates o2.0 commit
                    ∙ submit_prevote-proposed b c aggregates o1.0 pre
                    ∙ submit_proposal-proposed b c aggregates co hash proof took in
                  let p = final_cert-Proves c o3.0 hash cert k3.inv proposed has in
                  let same_vs = k3.same_vs ∙ k2.same_vs ∙ k1.same_vs in
                  let end : r ≡ ok cert =
                    rw (good1, good2, good3) (ap (ok_or (not_single_validator n)) has) in
                  subst Goal (sym end) (record {
                    verifies = subst (λ vs. verify c cert vs ≡ ok tt) same_vs p.verifies;
                    for_block = p.for_block;
                    at_height = p.at_height ∙ k3.same_height ∙ k2.same_height ∙ k1.same_height;
                  })
            ]
          ]
        ]
      ]

  -- What `advance_single` comes to, on the engine before it: a sealed block on the head, or nothing.
  abbrev pub Advances : BftEngine b → BftEngine b × Result BftError (AdvanceOutput b) → Type 0
  Advances e (e', ok out) =
      Sealed c (block_hash b out.block) (e.state.head_number + 1) e.state.validator_set
        out.certificate
      × (out.block.header.number ≡ e.state.head_number + 1)
      × (out.block.header.parent_hash ≡ e.state.head_hash)
      × (e'.state.head_hash ≡ block_hash b out.block)
      × (e'.state.head_number ≡ out.block.header.number)
  Advances e (e', err x) = e'.state ≡ e.state
  Advances e (e', panic) = ⊥

  -- The engine, with no round under way.
  abbrev pub Rests : EngineState b → Type 0
  Rests g = EngineInv b c g × (g.coordinator ≡ none)

  after_commit-Advances :
      (e e' : BftEngine b) (block : Block b.Tx) (proof : LeaderProof)
      (r : Result BftError (Certificate precommit))
      → Rests e.state
      → e'.state ≡ e.state
      → block.header.number ≡ e.state.head_number + 1
      → block.header.parent_hash ≡ e.state.head_hash
      → Seals c (block_hash b block) (e.state.head_number + 1) e.state.validator_set r
      → Rests (after_commit b e' block proof r).0.state
        × Advances e (after_commit b e' block proof r)
  unfolding after_commit advance_head
  after_commit-Advances e e' block proof (ok cert) (i, absent) same number parent s =
      let g = e.state in
      let proposal_gone : g.proposal ≡ none =
        subst (λ k. aii.Bft.Engine.Invariant.Active b c g.validator_set g.head_number k g.proposal)
          absent i.active in
      let Moved : EngineState b → Type 0 = λ x. Rests (record x {
        head_hash = block_hash b block;
        head_number = block.header.number;
        head_timestamp = block.header.timestamp;
        seed = proof.vrf_output;
        recent_blocks = aii.Bft.Engine.cache_recent_block b x.recent_blocks block cert;
      }) in
      (
        subst Moved (sym same) (
          record {
            valid = i.valid;
            active =
                subst
                  (λ k.
                    aii.Bft.Engine.Invariant.Active b c g.validator_set block.header.number k
                      g.proposal)
                  (sym absent) proposal_gone;
            cache =
                cache_recent_block-CacheInv b c g.recent_blocks block cert g.validator_set i.cache
                  i.valid s.for_block s.verifies;
          },
          absent,
        ),
        (s, number, parent, refl, refl),
      )
  after_commit-Advances e e' block proof (err x) rests same number parent s =
      (subst Rests (sym same) rests, same)
  after_commit-Advances e e' block proof panic rests same number parent s = absurd s

  fresh-Seals :
      (g : EngineState b) (number hash : ℕ) (proof : LeaderProof) (pre : Vote prevote)
      (commit : Vote precommit) (n : ℕ)
      → IsValid g.validator_set
      → Seals c hash number g.validator_set
          (commit_alone c (new_coordinator number g.seed g.validator_set) hash proof pre commit n)
  unfolding new_coordinator
  fresh-Seals g number hash proof pre commit n valid =
      commit_alone-Seals (new_coordinator number g.seed g.validator_set) hash proof pre commit n
        (new_coordinator-Inv c number g.seed g.validator_set valid)

  -- Given that signatures aggregate: on an engine that satisfies the invariant and has no coordinator,
  -- `advance_single` keeps both and does not panic. If it fails, the state is as it was. If it succeeds,
  -- the block is on the head with the next number, it is the new head, and its certificate is for its
  -- hash and its number and verifies under the validator set.
  pub advance_single-Advances :
      (e : BftEngine b)
      → Rests e.state
      → Rests (advance_single b c e).0.state × Advances e (advance_single b c e)
  unfolding advance_single drain_pending_txs_into_body build_block_with_body
  advance_single-Advances e rests =
      let g = e.state in
      let r = advance_single b c e in
      let Goal : BftEngine b × Result BftError (AdvanceOutput b) → Type 0 =
        λ o. Rests o.0.state × Advances e o in
      elim (Bool-cases (size g.validator_set != 1)) [
        | inl several ↦
            let end : r ≡ (e, err (not_single_validator (size g.validator_set))) =
              rw several refl in
            subst Goal (sym end) (rests, refl)
        | inr single ↦ elim (Bool-cases (ltb (g.head_number + 1) u64_mod)) [
          | inr top ↦
              let end : r ≡ (e, err overflow) = rw (single, top) refl in
              subst Goal (sym end) (rests, refl)
          | inl room ↦
              let number = g.head_number + 1 in
              let proof = produce c e.config.my_vrf_sk number 0 g.seed in
              let (e', body) = drain_pending_txs_into_body b e in
              let block =
                build_block_with_body b e.config g.head_hash g.head_timestamp number proof
                  e.config.coinbase body in
              let hash = block_hash b block in
              let co = new_coordinator number g.seed g.validator_set in
              let sealed =
                commit_alone c co hash proof
                  (sign c prevote e.config.my_bls_sk hash number 0 g.my_index)
                  (sign c precommit e.config.my_bls_sk hash number 0 g.my_index)
                  (size g.validator_set) in
              let end : r ≡ after_commit b e' block proof sealed = rw (single, room) refl in
              subst Goal (sym end) (
                after_commit-Advances e e' block proof sealed rests refl refl refl
                  (fresh-Seals g number hash proof _ _ _ rests.0.valid))
        ]
      ]
