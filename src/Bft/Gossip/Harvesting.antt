-- ===== src/Bft/Gossip/Harvesting.antt =====
-- The invariant of the gossip driver, and the loop of its harvests.
use aii.Base.{
  ℕ, zero, suc, ◌≡◌, ◌≢◌, refl, sym, ◌∙◌, subst, inl, inr, none, some, [], ◌∷◌, ◌++◌, Result, ok,
  err, panic, Option-cases,
}
use aii.Crypto.{Crypto}
use aii.Block.{Block, Blocks}
use aii.Bft.Error.{BftError}
use aii.Bft.Engine.{EngineState, try_harvest_committed}
use aii.Bft.Engine.Invariant.{EngineInv}
use aii.Bft.Engine.Heads.{Harvests, try_harvest_committed-Harvests}
use aii.Bft.Gossip.{Gossip, Step, harvest_loop, auto_harvest}

module _ (b : Blocks) (c : Crypto) where
  abbrev pub GossipInv : Gossip b → Type 0
  GossipInv g = EngineInv b c g.engine.state

  -- A step that succeeds and keeps the invariant.
  abbrev pub StepKeeps : Step b → Type 0
  StepKeeps (ok (g, n)) = GossipInv g
  StepKeeps (err e) = ⊥
  StepKeeps panic = ⊥

  abbrev pub HandlerKeeps : Gossip b × Result BftError (Unit {0}) → Type 0
  HandlerKeeps (g, reply) = GossipInv g × (reply ≢ panic)

  -- The outcomes of a harvest.
  harvest_loop-idle :
      (n : ℕ) (g : Gossip b)
      → (try_harvest_committed b g.engine.state).1 ≡ none
      → harvest_loop b (suc n) g ≡ g
  unfolding harvest_loop
  harvest_loop-idle n g idle = rw (harvest_loop, idle) refl

  abbrev harvested : Gossip b → Block b.Tx → Gossip b
  harvested g block = record g {
    engine = record g.engine { state = (try_harvest_committed b g.engine.state).0 };
    harvested_blocks = g.harvested_blocks ++ block ∷ [];
  }

  harvest_loop-found :
      (n : ℕ) (g : Gossip b) (block : Block b.Tx)
      → (try_harvest_committed b g.engine.state).1 ≡ some block
      → harvest_loop b (suc n) g ≡ harvest_loop b n (harvested g block)
  unfolding harvest_loop
  harvest_loop-found n g block found = rw (harvest_loop, found) refl

  pub harvest_loop-Inv : (n : ℕ) (g : Gossip b) → GossipInv g → GossipInv (harvest_loop b n g)
  unfolding harvest_loop
  harvest_loop-Inv zero g i = i
  harvest_loop-Inv (suc n) g i =
      let (i', _) = try_harvest_committed-Harvests b c g.engine.state i in
      elim (Option-cases (try_harvest_committed b g.engine.state).1) [
        | inl idle ↦ subst GossipInv (sym (harvest_loop-idle n g idle)) i
        | inr (block, found) ↦
            subst GossipInv (sym (harvest_loop-found n g block found))
              (harvest_loop-Inv n (harvested g block) i')
      ]

  pub auto_harvest-Inv : (g : Gossip b) → GossipInv g → GossipInv (auto_harvest b g)
  unfolding auto_harvest
  auto_harvest-Inv g i = harvest_loop-Inv 2 g i

  no_round : (st : EngineState b) → st.coordinator ≡ none → (try_harvest_committed b st).1 ≡ none
  unfolding try_harvest_committed
  no_round st h = rw (try_harvest_committed, h) refl

  -- After a harvest there is no coordinator, and nothing to harvest.
  harvest-once :
      (st : EngineState b) (block : Block b.Tx)
      → EngineInv b c st
      → (try_harvest_committed b st).1 ≡ some block
      → (try_harvest_committed b (try_harvest_committed b st).0).1 ≡ none
  harvest-once st block i found =
      let (_, h) = try_harvest_committed-Harvests b c st i in
      let (proof, cert, _, _, _, moved, _, _) =
        subst (λ o. Harvests b c st (try_harvest_committed b st).0 o) found h in
      no_round (try_harvest_committed b st).0 moved.no_coordinator

  -- On an engine that satisfies the invariant, the loop of `auto_harvest` ends: after it there is
  -- nothing to harvest, and with any more fuel it comes to the same.
  pub auto_harvest-ends :
      (n : ℕ) (g : Gossip b)
      → GossipInv g
      → ((try_harvest_committed b (auto_harvest b g).engine.state).1 ≡ none)
        × (harvest_loop b (suc (suc n)) g ≡ auto_harvest b g)
  unfolding auto_harvest
  auto_harvest-ends n g i =
      let Goal : Gossip b → Gossip b → Type 0 =
        λ x y. ((try_harvest_committed b x.engine.state).1 ≡ none) × (y ≡ x) in
      elim (Option-cases (try_harvest_committed b g.engine.state).1) [
        | inl idle ↦
            subst (λ x. Goal x (harvest_loop b (suc (suc n)) g)) (sym (harvest_loop-idle 1 g idle))
              (idle, harvest_loop-idle (suc n) g idle)
        | inr (block, found) ↦
            let next = harvested g block in
            let idle = harvest-once g.engine.state block i found in
            let short = harvest_loop-found 1 g block found ∙ harvest_loop-idle 0 next idle in
            let long = harvest_loop-found (suc n) g block found ∙ harvest_loop-idle n next idle in
            subst (λ x. Goal x (harvest_loop b (suc (suc n)) g)) (sym short) (idle, long)
      ]
