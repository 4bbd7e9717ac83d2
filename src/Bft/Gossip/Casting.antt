-- ===== src/Bft/Gossip/Casting.antt =====
-- What the driver casts and announces in each phase: `bootstrap_propose`, the `maybe_` methods and
-- `drive_phase` of crates/aii-consensus-bft/src/gossip.rs.
use aii.Base.{ℕ, none, some, Result, ok, err, panic, ◌!=◌, if◌then◌else◌}
use aii.Crypto.{Crypto}
use aii.Block.{Block, Blocks}
use aii.Bft.Error.{Phase, awaiting_proposal, prevoting, precommitting, committed, BftError}
use aii.Bft.Votes.{Vote, prevote, precommit, LeaderProof}
use aii.Bft.Engine.{BftEngine}
use aii.Bft.Engine.Rounds.{
  current_round_state, current_leader_index, cast_proposal, cast_prevote, cast_precommit,
}
use aii.Bft.Wire.{prevote_message, precommit_message, encode}
use aii.Bft.Gossip.{
  BlockCodec, already, Gossip, broadcast, with_engine, Step, and_then, retransmit_proposal,
  retransmit_prevote, retransmit_precommit, announce,
}

module _ (b : Blocks) where
  module _ (codec : BlockCodec b) where
    module _ (c : Crypto) where
      unfoldable pub after_bootstrap :
          Gossip b → BftEngine b × Result BftError (Block b.Tx × LeaderProof) → Step b
      after_bootstrap g (e, ok (block, proof)) = elim (current_round_state b e.state) [
        | none ↦ panic
        | some (h, r, _) ↦ ok (announce b codec (with_engine b g e) h r block proof, 1)
      ]
      after_bootstrap g (e, err x) = ok (with_engine b g e, 0)
      after_bootstrap g (e, panic) = panic

      unfoldable pub bootstrap_propose : Gossip b → Step b
      bootstrap_propose g = after_bootstrap g (cast_proposal b c g.engine)

      unfoldable pub after_propose :
          Gossip b → ℕ → ℕ → BftEngine b × Result BftError (Block b.Tx × LeaderProof) → Step b
      after_propose g h r (e, ok (block, proof)) =
          ok (announce b codec (with_engine b g e) h r block proof, 1)
      after_propose g h r (e, err x) = ok (with_engine b g e, 0)
      after_propose g h r (e, panic) = panic

      unfoldable pub maybe_propose : Gossip b → ℕ → ℕ → Step b
      maybe_propose g h r =
          if already g.flags.proposed h r
          then ok (g, 0)
          else elim (current_leader_index b c g.engine.state) [
            | none ↦ ok (g, 0)
            | some leader_idx ↦
                if leader_idx != g.engine.state.my_index
                then ok (g, 0)
                else after_propose g h r (cast_proposal b c g.engine)
          ]

      unfoldable pub after_prevote :
          Gossip b → ℕ → ℕ → BftEngine b × Result BftError (Vote prevote) → Step b
      after_prevote g h r (e, ok vote) =
          let bytes = encode (prevote_message vote) in
          ok (
            broadcast b
                (record g {
                  engine = e;
                  flags = record g.flags { prevoted = some (h, r); last_prevote = some bytes };
                })
                bytes,
            1,
          )
      after_prevote g h r (e, err x) = ok (with_engine b g e, 0)
      after_prevote g h r (e, panic) = panic

      unfoldable pub maybe_prevote : Gossip b → ℕ → ℕ → Step b
      maybe_prevote g h r =
          if already g.flags.prevoted h r
          then ok (g, 0)
          else after_prevote g h r (cast_prevote b c g.engine)

      unfoldable pub after_precommit :
          Gossip b → ℕ → ℕ → BftEngine b × Result BftError (Vote precommit) → Step b
      after_precommit g h r (e, ok vote) =
          let bytes = encode (precommit_message vote) in
          ok (
            broadcast b
                (record g {
                  engine = e;
                  flags = record g.flags {
                    precommitted = some (h, r);
                    last_precommit = some bytes;
                  };
                })
                bytes,
            1,
          )
      after_precommit g h r (e, err x) = ok (with_engine b g e, 0)
      after_precommit g h r (e, panic) = panic

      unfoldable pub maybe_precommit : Gossip b → ℕ → ℕ → Step b
      maybe_precommit g h r =
          if already g.flags.precommitted h r
          then ok (g, 0)
          else after_precommit g h r (cast_precommit b c g.engine)

      unfoldable pub drive_phase : Gossip b → ℕ → ℕ → Phase → Step b
      drive_phase g h r awaiting_proposal = and_then b (maybe_propose g h r) (retransmit_proposal b)
      drive_phase g h r prevoting =
          and_then b (and_then b (maybe_prevote g h r) (retransmit_proposal b))
            (retransmit_prevote b)
      drive_phase g h r precommitting =
          and_then b (and_then b (maybe_precommit g h r) (retransmit_prevote b))
            (retransmit_precommit b)
      drive_phase g h r committed = ok (g, 0)
