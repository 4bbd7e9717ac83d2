-- ===== src/Bft/Engine/Invariant.antt =====
-- The invariant of an engine: the coordinator is that of the next height, the captured proposal is that
-- of the coordinator, and the cached blocks are certified.
use aii.Base.{
  refl, sym, ◌∙◌, subst, inl, inr, Option-cases, Result, panic, ◌≢◌, ℕ, ◌+◌, ◌%◌, ◌≤◌, ◌≡◌, Option,
  none, some, List, ok, length, u64_mod, All,
}
use aii.Base.Maps.{Increasing}
use aii.Crypto.{Crypto}
use aii.Block.{Block, Blocks, block_hash}
use aii.Bft.Validators.{ValidatorSet, IsValid}
use aii.Bft.Votes.{LeaderProof}
use aii.Bft.Certificate.{verify}
use aii.Bft.Error.{BftError}
use aii.Bft.Coordinator.{Coordinator, Outcome, new_coordinator}
use aii.Bft.Coordinator.Steps.{Keeps}
use aii.Bft.Coordinator.Finality.{new_coordinator-Inv}
use aii.Bft.Coordinator.Invariant.{CoordinatorInv}
use aii.Bft.Engine.{EngineState, RecentCommittedBlock, recent_blocks_cap, next_height}

module _ (b : Blocks) (c : Crypto) where
  pub record RoundInv (vs : ValidatorSet) (head : ℕ) (co : Coordinator) : Type 0 where
    pub inv : CoordinatorInv c co
    pub at : co.height ≡ (head + 1) % u64_mod
    pub of_set : co.vs ≡ vs

  -- The block is the one proposed, if there is one.
  abbrev pub Matches : Option ℕ → Block b.Tx → Type 0
  Matches none block = Unit
  Matches (some hash) block = block_hash b block ≡ hash

  abbrev pub Captured : Option ℕ → Option (Block b.Tx × LeaderProof) → Type 0
  Captured proposed none = Unit
  Captured proposed (some (block, proof)) = Matches proposed block

  abbrev pub Active :
      ValidatorSet → ℕ → Option Coordinator → Option (Block b.Tx × LeaderProof) → Type 0
  Active vs head none proposal = proposal ≡ none
  Active vs head (some co) proposal = RoundInv vs head co × Captured co.proposed_block proposal

  -- A cached block stands under its number, and a certificate of its hash verifies under a valid set.
  pub record Certified (entry : ℕ × RecentCommittedBlock b) : Type 0 where
    pub numbered : entry.1.block.header.number ≡ entry.0
    pub signs_block : entry.1.certificate.block_hash ≡ block_hash b entry.1.block
    pub set : ValidatorSet
    pub valid_set : IsValid set
    pub verifies : verify c entry.1.certificate set ≡ ok tt

  pub record CacheInv (recent : List (ℕ × RecentCommittedBlock b)) : Type 0 where
    pub increasing : Increasing recent
    pub bounded : length recent ≤ recent_blocks_cap
    pub certified : All Certified recent

  pub record StateInv (vs : ValidatorSet) (head : ℕ) (coordinator : Option Coordinator)
      (proposal : Option (Block b.Tx × LeaderProof)) (recent : List (ℕ × RecentCommittedBlock b))
      : Type 0 where
    pub valid : IsValid vs
    pub active : Active vs head coordinator proposal
    pub cache : CacheInv recent

  abbrev pub EngineInv : EngineState b → Type 0
  EngineInv g = StateInv g.validator_set g.head_number g.coordinator g.proposal g.recent_blocks

  -- What a method owes.
  pub record KeepsState (o : EngineState b × Result BftError (Unit {0})) : Type 0 where
    pub inv : EngineInv o.0
    pub no_panic : o.1 ≢ panic

  -- The state with another coordinator of its height and set.
  pub with_coordinator-Inv :
      (g : EngineState b) (co : Coordinator)
      → EngineInv g
      → RoundInv g.validator_set g.head_number co
      → Captured co.proposed_block g.proposal
      → EngineInv (record g { coordinator = some co })
  with_coordinator-Inv g co i r captured = record {
    valid = i.valid;
    active = (r, captured);
    cache = i.cache;
  }

  -- The coordinator of an engine that has one.
  pub round_of :
      (g : EngineState b) (co : Coordinator)
      → EngineInv g
      → g.coordinator ≡ some co
      → RoundInv g.validator_set g.head_number co × Captured co.proposed_block g.proposal
  round_of g co i has = subst (λ o. Active g.validator_set g.head_number o g.proposal) has i.active

  pub Keeps-RoundInv :
      (vs : ValidatorSet) (head : ℕ) (co : Coordinator) (o : Outcome)
      → RoundInv vs head co
      → Keeps c co o
      → RoundInv vs head o.0
  Keeps-RoundInv vs head co o r k = record {
    inv = k.inv;
    at = k.same_height ∙ r.at;
    of_set = k.same_vs ∙ r.of_set;
  }

  pub fresh-RoundInv :
      (g : EngineState b)
      → EngineInv g
      → RoundInv g.validator_set g.head_number
          (new_coordinator (next_height b g) g.seed g.validator_set)
  unfolding new_coordinator
  fresh-RoundInv g i = record {
    inv = new_coordinator-Inv c (next_height b g) g.seed g.validator_set i.valid;
    at = refl;
    of_set = refl;
  }

  pub Captured-none :
      (g : EngineState b) (proposed : Option ℕ) → proposed ≡ none → Captured proposed g.proposal
  Captured-none g proposed h = elim (Option-cases g.proposal) [
    | inl absent ↦ subst (Captured proposed) (sym absent) tt
    | inr ((block, proof), has) ↦
        subst (Captured proposed) (sym has) (subst (λ p. Matches p block) (sym h) tt)
  ]
