-- ===== src/Bft/Engine/Serving.antt =====
-- What an engine serves to its peers, whatever has been done with it.
use aii.Base.{ℕ, ◌≡◌, ok, All}
use aii.Crypto.{Crypto}
use aii.Block.{Block, Blocks, block_hash}
use aii.Bft.Votes.{precommit}
use aii.Bft.Validators.{ValidatorSet}
use aii.Bft.Certificate.{Certificate, verify}
use aii.Bft.Engine.{EngineState, RecentCommittedBlock}
use aii.Bft.Engine.Rounds.{
  Call, cast_block, prevote_now, precommit_now, time_out, harvest, take_evidence, remote_proposal,
  remote_prevote, remote_precommit, adopt, rotate, fast_forward,
}
use aii.Bft.Engine.Quiet.{Quiet}

module _ (b : Blocks) (c : Crypto) where
  module _ (K : ValidatorSet → Type 0) where
    -- An entry that is right: a certificate of the block, which verifies under a set of the kind.
    pub record Served (height : ℕ) (block : Block b.Tx) (cert : Certificate precommit)
        : Type 0 where
      pub numbered : block.header.number ≡ height
      pub signs_block : cert.block_hash ≡ block_hash b block
      pub set : ValidatorSet
      pub of_kind : K set
      pub verifies : verify c cert set ≡ ok tt

    abbrev EntryServed : ℕ × RecentCommittedBlock b → Type 0
    EntryServed entry = Served entry.0 entry.1.block entry.1.certificate

    -- What every call keeps: the cached entries are right, and the set is of the kind.
    abbrev Serving : EngineState b → Type 0
    Serving g = All EntryServed g.recent_blocks × K g.validator_set

    -- A rotation is to a set of the kind.
    abbrev pub RotatesTo : Call b c → Type 0
    RotatesTo (rotate vs my_index) = K vs
    RotatesTo cast_block = Unit
    RotatesTo prevote_now = Unit
    RotatesTo precommit_now = Unit
    RotatesTo time_out = Unit
    RotatesTo harvest = Unit
    RotatesTo take_evidence = Unit
    RotatesTo (remote_proposal block proof) = Unit
    RotatesTo (remote_prevote vote) = Unit
    RotatesTo (remote_precommit vote) = Unit
    RotatesTo (adopt block certificate) = Unit
    RotatesTo (fast_forward round) = Unit
