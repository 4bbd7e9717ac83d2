-- ===== src/Bft/Coordinator/Invariant.antt =====
-- The invariant of a coordinator: which of its fields are set in which phase, and what they hold.
use aii.Base.{ℕ, ◌≤◌, ◌<◌, u32_mod, ◌≡◌, Option, none, some, ok}
use aii.Crypto.{Crypto}
use aii.Bft.Error.{Phase, awaiting_proposal, prevoting, precommitting, committed}
use aii.Bft.Validators.{ValidatorSet, IsValid}
use aii.Bft.Votes.{VoteKind, prevote, precommit}
use aii.Bft.Certificate.{Certificate, verify}
use aii.Bft.Tally.{Tallier}
use aii.Bft.Tally.Invariant.{Inv}
use aii.Bft.Coordinator.{Coordinator, LockedState}

module _ (c : Crypto) (vs : ValidatorSet) (height : ℕ) where
  -- A tallier of a round for a block.
  pub record Tallies {kind : VoteKind} (t : Tallier kind) (block round : ℕ) : Type 0 where
    pub inv : Inv c t
    pub same_vs : t.vs ≡ vs
    pub same_block : t.block_hash ≡ block
    pub same_height : t.height ≡ height
    pub same_round : t.round ≡ round

  -- A certificate for a block and a round, which verifies.
  pub record Proves {kind : VoteKind} (cert : Certificate kind) (block round : ℕ) : Type 0 where
    pub verifies : verify c cert vs ≡ ok tt
    pub for_block : cert.block_hash ≡ block
    pub at_height : cert.height ≡ height
    pub at_round : cert.round ≡ round

  -- The lock, if there is one, rests on a POLC of this round or an earlier one.
  abbrev pub LockHolds : ℕ → Option LockedState → Type 0
  LockHolds round none = Unit
  LockHolds round (some l) = (l.round ≤ round) × Proves l.polc l.block_hash l.round

module _ (c : Crypto) (co : Coordinator) where
  -- The fields by phase.
  abbrev pub Holds : Phase → Type 0
  Holds awaiting_proposal = (co.proposed_block ≡ none) × (co.polc ≡ none) × (co.final_cert ≡ none)
  Holds prevoting =
      (block : ℕ) × (t : Tallier prevote) × (co.proposed_block ≡ some block)
      × (co.prevote_tally ≡ some t)
      × Tallies c co.vs co.height t block co.round
      × (co.polc ≡ none)
      × (co.final_cert ≡ none)
  Holds precommitting =
      (block : ℕ) × (t : Tallier precommit) × (polc : Certificate prevote) × (co.proposed_block
        ≡ some block)
      × (co.precommit_tally ≡ some t)
      × Tallies c co.vs co.height t block co.round
      × (co.polc ≡ some polc)
      × Proves c co.vs co.height polc block co.round
      × (co.final_cert ≡ none)
  Holds committed =
      (block : ℕ) × (polc : Certificate prevote) × (cert : Certificate precommit)
      × (co.proposed_block ≡ some block)
      × (co.polc ≡ some polc)
      × Proves c co.vs co.height polc block co.round
      × (co.final_cert ≡ some cert)
      × Proves c co.vs co.height cert block co.round

  pub record CoordinatorInv : Type 0 where
    pub valid : IsValid co.vs
    pub small : co.round < u32_mod
    pub holds : Holds co.phase
    pub lock : LockHolds c co.vs co.height co.round co.locked
