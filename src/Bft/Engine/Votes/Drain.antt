-- ===== src/Bft/Engine/Votes/Drain.antt =====
-- `drain_pending_votes` ends, does not panic, and keeps the invariant.
use aii.Base.{
  ℕ, suc, zero, ◌≤◌, ◌<◌, ◌≡◌, ◌⊎◌, refl, ap, sym, ◌∙◌, subst, inl, inr, some, ok, Bool, false, All,
  arith, Bool-cases, Option-cases,
}
use aii.Crypto.{Crypto, Aggregates}
use aii.Block.{Blocks}
use aii.Bft.Coordinator.{Coordinator, submit_prevote, submit_precommit}
use aii.Bft.Engine.{EngineState}
use aii.Bft.Engine.Invariant.{RoundInv, EngineInv, Captured, Active}
use aii.Bft.Engine.Votes.{drop_stale, drain_round, drain_loop, buffered, drain_pending_votes}
use aii.Bft.Engine.Votes.Passes.{
  apply_votes-Passes, retain_above_lem, Drives, prevote-Drives, precommit-Drives,
}

module _ (b : Blocks) (c : Crypto) (aggregates : Aggregates c) where
  -- What a state owes after a drain: the invariant, no stale votes, and all else as it was.
  pub record Drains (g g' : EngineState b) : Type 0 where
    pub inv : EngineInv b c g'
    pub fresh_prevotes : All (λ v. g.head_number < v.height) g'.pending_prevotes
    pub fresh_precommits : All (λ v. g.head_number < v.height) g'.pending_precommits
    pub no_more : buffered b c g' ≤ buffered b c g
    pub rest : g' ≡ record g {
      coordinator = g'.coordinator;
      pending_prevotes = g'.pending_prevotes;
      pending_precommits = g'.pending_precommits;
    }

  drain_round-Drains :
      (g : EngineState b) (co : Coordinator)
      → EngineInv b c g
      → g.coordinator ≡ some co
      → All (λ v. g.head_number < v.height) g.pending_prevotes
      → All (λ v. g.head_number < v.height) g.pending_precommits
      → (g' : EngineState b) × (any : Bool) × (drain_round b c g co ≡ ok (g', any))
        × Drains g g'
        × ((any ≡ false) ⊎ (buffered b c g' < buffered b c g))
  unfolding drain_round
  drain_round-Drains g co i has fresh fresh' =
      let vs = g.validator_set in
      let head = g.head_number in
      let D = Drives b c aggregates vs head co.proposed_block in
      let act : RoundInv b c vs head co × Captured b c co.proposed_block g.proposal =
        subst (λ o. Active b c vs head o g.proposal) has i.active in
      let (p, done, r) =
        apply_votes-Passes D _ (submit_prevote c)
          (prevote-Drives b c aggregates vs head co.proposed_block) co g.pending_prevotes false
          (act.0, refl) fresh in
      let (q, done', r') =
        apply_votes-Passes D _ (submit_precommit c)
          (precommit-Drives b c aggregates vs head co.proposed_block) p.coordinator
          g.pending_precommits p.applied_any r.keeps fresh' in
      let g' : EngineState b = record g {
        coordinator = some q.coordinator;
        pending_prevotes = p.leftover;
        pending_precommits = q.leftover;
      } in
      let less = r.no_more in
      let less' = r'.no_more in
      (
        g',
        q.applied_any,
        ground (arith, done, done'),
        record {
          inv = record {
            valid = i.valid;
            active = (r'.keeps.0, subst (λ o. Captured b c o g.proposal) (sym r'.keeps.1) act.1);
            cache = i.cache;
          };
          fresh_prevotes = r.still;
          fresh_precommits = r'.still;
          no_more = omega (arith, less, less');
          rest = refl;
        },
        elim r'.taken [
          | inr fewer ↦ inr (omega (arith, less, fewer))
          | inl same ↦ elim r.taken [
            | inl none_taken ↦ inl (same ∙ none_taken)
            | inr fewer ↦ inr (omega (arith, less', fewer))
          ]
        ],
      )

  drop_stale-Drains : (g : EngineState b) → EngineInv b c g → Drains g (drop_stale b g)
  unfolding drop_stale
  drop_stale-Drains g i =
      let (all, less) = retain_above_lem g.head_number g.pending_prevotes in
      let (all', less') = retain_above_lem g.head_number g.pending_precommits in
      record {
        inv = i;
        fresh_prevotes = all;
        fresh_precommits = all';
        no_more = omega (arith, less, less');
        rest = refl;
      }

  drop_stale-fresh :
      (g : EngineState b)
      → All (λ v. (drop_stale b g).head_number < v.height) (drop_stale b g).pending_prevotes
        × All (λ v. (drop_stale b g).head_number < v.height) (drop_stale b g).pending_precommits
  unfolding drop_stale
  drop_stale-fresh g = (
    (retain_above_lem g.head_number g.pending_prevotes).0,
    (retain_above_lem g.head_number g.pending_precommits).0,
  )

  -- Two steps of a drain are one.
  Drains-trans : (g g' g'' : EngineState b) → Drains g g' → Drains g' g'' → Drains g g''
  Drains-trans g g' g'' d d' =
      let same : g'.head_number ≡ g.head_number = ap (λ x. x.head_number) d.rest in
      let less = d.no_more in
      let less' = d'.no_more in
      let redrawn : EngineState b → EngineState b = λ x. record x {
        coordinator = g''.coordinator;
        pending_prevotes = g''.pending_prevotes;
        pending_precommits = g''.pending_precommits;
      } in
      record {
        inv = d'.inv;
        fresh_prevotes =
            subst (λ n. All (λ v. n < v.height) g''.pending_prevotes) same d'.fresh_prevotes;
        fresh_precommits =
            subst (λ n. All (λ v. n < v.height) g''.pending_precommits) same d'.fresh_precommits;
        no_more = omega (arith, less, less');
        rest = d'.rest ∙ ap redrawn d.rest;
      }

  drain_loop-Drains :
      (n : ℕ) (g : EngineState b)
      → EngineInv b c g
      → buffered b c g < n
      → (g' : EngineState b) × (drain_loop b c n g ≡ ok g') × Drains g g'
  unfolding drain_loop
  drain_loop-Drains zero g i m = absurd (omega arith)
  drain_loop-Drains (suc n) g i m =
      let g1 = drop_stale b g in
      let d = drop_stale-Drains g i in
      let less = d.no_more in
      elim (Option-cases g1.coordinator) [
        | inl absent ↦ (g1, ground (arith, absent), d)
        | inr (co, has) ↦
            let (g2, any, done, d', progress) =
              drain_round-Drains g1 co d.inv has (drop_stale-fresh g).0 (drop_stale-fresh g).1 in
            elim (Bool-cases any) [
              | inr over ↦ (g2, ground (arith, has, done, over), Drains-trans g g1 g2 d d')
              | inl again ↦
                  let fewer : buffered b c g2 < n = elim progress [
                    | inl over ↦ absurd (cc)
                    | inr less' ↦ omega (arith, less, less', m)
                  ] in
                  let (g3, done', d'') = drain_loop-Drains n g2 d'.inv fewer in
                  (
                    g3,
                    ground (arith, has, done, again, done'),
                    Drains-trans g g1 g3 d (Drains-trans g1 g2 g3 d' d''),
                  )
            ]
      ]

  -- Given that signatures aggregate, on an engine that satisfies the invariant `drain_pending_votes`
  -- ends, without a panic, within one round more than there are buffered votes; it keeps the invariant,
  -- leaves no stale votes and no more votes than there were, and changes nothing but the coordinator
  -- and the buffers.
  pub drain_pending_votes-Drains :
      (g : EngineState b)
      → EngineInv b c g
      → (g' : EngineState b) × (drain_pending_votes b c g ≡ ok g') × Drains g g'
  unfolding drain_pending_votes
  drain_pending_votes-Drains g i = drain_loop-Drains (suc (buffered b c g)) g i (omega arith)
