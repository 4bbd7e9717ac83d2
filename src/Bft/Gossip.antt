-- ===== src/Bft/Gossip.antt =====
-- The gossip driver: `BftGossip` and its `RoundFlags` of crates/aii-consensus-bft/src/gossip.rs, over an
-- engine. The transport is what has been sent, in order, and the inbox of a tick. Here are the state, the
-- harvest and the broadcasts.
pub mod Casting
pub mod Inbound
pub mod Loop
pub mod Harvesting
pub mod Handling
pub mod Driving
pub mod Ticks
pub mod Skipping
pub mod CatchUp
mod Tests
use aii.Base.{
  ℕ, zero, suc, ◌+◌, Option, none, some, List, [], ◌∷◌, ◌++◌, Result, ok, err, panic, ◌>>=◌, Bool,
  true, false, ◌&&◌, ltb, leb, ◌==◌, ◌!=◌, if◌then◌else◌, saturating_add, u64_mod, contains,
}
use aii.Crypto.{Crypto}
use aii.Block.{BlockBody, Block, Blocks, block_hash}
use aii.Bft.Error.{
  Phase, awaiting_proposal, prevoting, precommitting, committed, BftError, proposal_hash_mismatch,
  invalid_proposal_body,
}
use aii.Bft.Votes.{VoteKind, Vote, prevote, precommit, LeaderProof}
use aii.Bft.Certificate.{Certificate}
use aii.Bft.Engine.{
  EngineState, BftEngine, fast_forward_to_round, try_harvest_committed, committed_block_at,
  adopt_synced_block,
}
use aii.Bft.Engine.Building.{reconstruct_proposed_block_with_body}
use aii.Bft.Engine.Votes.{submit_remote_prevote, submit_remote_precommit}
use aii.Bft.Engine.Rounds.{
  current_round_state, current_leader_index, would_be_leader_next_height, cast_proposal,
  cast_prevote, cast_precommit, submit_remote_proposal,
}
use aii.Bft.Wire.{
  BftMessage, proposal, prevote_message, precommit_message, block_request, block_response, encode,
  decode,
}

-- The RLP of bodies and of blocks, from alloy_rlp and its instances in crates/aii-block. A decoder
-- gives what it read and the bytes after it.
pub record BlockCodec (b : Blocks) : Type 0 where
  pub encode_body : BlockBody b.Tx → List ℕ
  pub decode_body : List ℕ → Option (BlockBody b.Tx × List ℕ)
  pub encode_block : Block b.Tx → List ℕ
  pub decode_block : List ℕ → Option (Block b.Tx × List ℕ)

pub record RoundFlags : Type 0 where
  pub proposed : Option (ℕ × ℕ)
  pub prevoted : Option (ℕ × ℕ)
  pub precommitted : Option (ℕ × ℕ)
  pub last_proposal : Option (List ℕ)
  pub last_prevote : Option (List ℕ)
  pub last_precommit : Option (List ℕ)
  pub requested_blocks : List ℕ

abbrev pub default_flags : RoundFlags
default_flags = record {
  proposed = none;
  prevoted = none;
  precommitted = none;
  last_proposal = none;
  last_prevote = none;
  last_precommit = none;
  requested_blocks = [];
}

-- `already_proposed`, `already_prevoted`, `already_precommitted`, each on its flag.
abbrev pub already : Option (ℕ × ℕ) → ℕ → ℕ → Bool
already none h r = false
already (some (h', r')) h r = h' == h && r' == r

-- `BTreeSet::remove`.
abbrev pub without : ℕ → List ℕ → List ℕ
without k [] = []
without k (x ∷ xs) = let rest = without k xs in if k == x then rest else x ∷ rest

module _ (b : Blocks) where
  pub record Gossip : Type 0 where
    pub engine : BftEngine b
    pub flags : RoundFlags
    pub harvested_blocks : List (Block b.Tx)
    -- What `broadcast` of the transport was given.
    pub sent : List (List ℕ)

  abbrev pub new_gossip : BftEngine b → Gossip
  new_gossip engine = record {
    engine = engine;
    flags = default_flags;
    harvested_blocks = [];
    sent = [];
  }

  unfoldable pub drain_harvested : Gossip → Gossip × List (Block b.Tx)
  drain_harvested g = (record g { harvested_blocks = [] }, g.harvested_blocks)

  abbrev pub broadcast : Gossip → List ℕ → Gossip
  broadcast g bytes = record g { sent = g.sent ++ bytes ∷ [] }

  abbrev pub with_engine : Gossip → BftEngine b → Gossip
  with_engine g e = record g { engine = e }

  abbrev pub with_state : Gossip → EngineState b → Gossip
  with_state g st = record g { engine = record g.engine { state = st } }

  -- The loop of `auto_harvest`, on fuel.
  unfoldable pub harvest_loop : ℕ → Gossip → Gossip
  harvest_loop zero g = g
  harvest_loop (suc n) g =
      let (st, found) = try_harvest_committed b g.engine.state in
      elim found [
        | none ↦ g
        | some block ↦ harvest_loop n (record g {
          engine = record g.engine { state = st };
          harvested_blocks = g.harvested_blocks ++ block ∷ [];
        })
      ]

  -- The second round finds nothing: the first has taken the coordinator away.
  unfoldable pub auto_harvest : Gossip → Gossip
  auto_harvest g = harvest_loop 2 g

  -- A step of a tick, with the messages that it counts.
  abbrev pub Step : Type 0
  Step = Result BftError (Gossip × ℕ)

  -- A step, and then another one that cannot fail.
  abbrev pub and_then : Step → (Gossip → Gossip × ℕ) → Step
  and_then (ok (g, n)) f = let (g', n') = f g in ok (g', n + n')
  and_then (err e) f = err e
  and_then panic f = panic

  unfoldable pub retransmit : Option (List ℕ) → Gossip → Gossip × ℕ
  retransmit none g = (g, 0)
  retransmit (some bytes) g = (broadcast g bytes, 1)

  abbrev pub retransmit_proposal : Gossip → Gossip × ℕ
  retransmit_proposal g = retransmit g.flags.last_proposal g

  abbrev pub retransmit_prevote : Gossip → Gossip × ℕ
  retransmit_prevote g = retransmit g.flags.last_prevote g

  abbrev pub retransmit_precommit : Gossip → Gossip × ℕ
  retransmit_precommit g = retransmit g.flags.last_precommit g

  module _ (codec : BlockCodec b) where
    -- The message, the flags and the broadcast of `bootstrap_propose` and of `maybe_propose`.
    unfoldable pub announce : Gossip → ℕ → ℕ → Block b.Tx → LeaderProof → Gossip
    announce g h r block proof =
        let bytes = encode (
          proposal h r (block_hash b block) proof g.engine.config.coinbase
            (codec.encode_body block.body)) in
        broadcast
          (record g {
            flags = record g.flags { proposed = some (h, r); last_proposal = some bytes };
          })
          bytes
