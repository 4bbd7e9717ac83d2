-- ===== src/Bft/Gossip/Inbound.antt =====
-- The handlers of the messages that arrive, up to `dispatch_inbound` of
-- crates/aii-consensus-bft/src/gossip.rs.
use aii.Base.{
  ℕ, Option, none, some, List, [], ◌∷◌, ◌++◌, Result, ok, err, panic, Bool, true, false, ◌&&◌, ltb,
  leb, ◌==◌, ◌!=◌, if◌then◌else◌, saturating_add, u64_mod, contains,
}
use aii.Crypto.{Crypto}
use aii.Block.{Block, Blocks, block_hash}
use aii.Bft.Error.{Phase, BftError, proposal_hash_mismatch, invalid_proposal_body}
use aii.Bft.Votes.{precommit, LeaderProof}
use aii.Bft.Certificate.{Certificate}
use aii.Bft.Engine.{EngineState, fast_forward_to_round, committed_block_at, adopt_synced_block}
use aii.Bft.Engine.Building.{reconstruct_proposed_block_with_body}
use aii.Bft.Engine.Votes.{submit_remote_prevote, submit_remote_precommit}
use aii.Bft.Engine.Rounds.{current_round_state, submit_remote_proposal}
use aii.Bft.Wire.{
  BftMessage, proposal, prevote_message, precommit_message, block_request, block_response, encode,
}
use aii.Bft.Gossip.{BlockCodec, without, Gossip, broadcast, with_state}

module _ (b : Blocks) where
  module _ (codec : BlockCodec b) where
    module _ (c : Crypto) where
      unfoldable pub request_catchup_if_future_height : Gossip b → ℕ → Gossip b × Bool
      request_catchup_if_future_height g remote_height =
          let next_height = saturating_add u64_mod g.engine.state.head_number 1 in
          let asked =
            broadcast b
              (record g {
                flags = record g.flags {
                  requested_blocks = next_height ∷ g.flags.requested_blocks;
                };
              })
              (encode (block_request next_height)) in
          if leb remote_height next_height
          then (g, false)
          else if contains next_height g.flags.requested_blocks
          then (g, true)
          else (asked, true)

      -- `Block::decode`, and the test that nothing is left.
      unfoldable pub decode_whole_block : List ℕ → Option (Block b.Tx)
      decode_whole_block block_bytes = elim (codec.decode_block block_bytes) [
        | none ↦ none
        | some (block, rest) ↦ elim rest [ [] ↦ some block | _ ∷ _ ↦ none ]
      ]

      unfoldable pub after_adoption :
          Gossip b
          → EngineState b × Result BftError (Block b.Tx)
          → Gossip b × Result BftError (Unit {0})
      after_adoption g (st, ok adopted) =
          let g' = with_state b g st in
          (
            record g' {
              flags = record g.flags {
                requested_blocks = without adopted.header.number g.flags.requested_blocks;
              };
              harvested_blocks = g.harvested_blocks ++ adopted ∷ [];
            },
            ok tt,
          )
      after_adoption g (st, err e) = (with_state b g st, err e)
      after_adoption g (st, panic) = (with_state b g st, panic)

      unfoldable pub handle_block_response :
          Gossip b → List ℕ → Certificate precommit → Gossip b × Result BftError (Unit {0})
      handle_block_response g block_bytes certificate = elim (decode_whole_block block_bytes) [
        | none ↦ (g, err invalid_proposal_body)
        | some block ↦ after_adoption g (adopt_synced_block b c g.engine.state block certificate)
      ]

      -- The rounds that a proposal makes the engine skip, before it is looked at.
      abbrev pub later_round : Option (ℕ × ℕ × Phase) → ℕ → ℕ → Bool
      later_round none height round = true
      later_round (some (active_height, active_round, _)) height round =
          active_height == height && ltb active_round round

      unfoldable pub skip_rounds :
          EngineState b → ℕ → ℕ → EngineState b × Result BftError (Unit {0})
      skip_rounds st height round =
          if (height == saturating_add u64_mod st.head_number 1)
            && (later_round (current_round_state b st) height round && ltb 0 round)
          then fast_forward_to_round b st round
          else (st, ok tt)

      -- The rest of `handle_proposal_msg`.
      unfoldable pub take_proposal :
          Gossip b → ℕ → ℕ → LeaderProof → ℕ → List ℕ → Gossip b × Result BftError (Unit {0})
      take_proposal g height hash leader_proof coinbase body_bytes =
          elim (codec.decode_body body_bytes) [
            | none ↦ (g, err invalid_proposal_body)
            | some (body, _) ↦
                let block =
                  reconstruct_proposed_block_with_body b g.engine height leader_proof coinbase
                    body in
                let (st, reply) = submit_remote_proposal b c g.engine.state block leader_proof in
                if block_hash b block != hash
                then (g, err proposal_hash_mismatch)
                else (with_state b g st, reply)
          ]

      unfoldable pub after_skip :
          Gossip b
          → EngineState b × Result BftError (Unit {0})
          → ℕ
          → ℕ
          → LeaderProof
          → ℕ
          → List ℕ
          → Gossip b × Result BftError (Unit {0})
      after_skip g (st, ok _) height hash leader_proof coinbase body_bytes =
          take_proposal (with_state b g st) height hash leader_proof coinbase body_bytes
      after_skip g (st, err e) height hash leader_proof coinbase body_bytes =
          (with_state b g st, err e)
      after_skip g (st, panic) height hash leader_proof coinbase body_bytes =
          (with_state b g st, panic)

      unfoldable pub handle_proposal_msg :
          Gossip b → ℕ → ℕ → ℕ → LeaderProof → ℕ → List ℕ → Gossip b × Result BftError (Unit {0})
      handle_proposal_msg g height round hash leader_proof coinbase body_bytes =
          after_skip g (skip_rounds g.engine.state height round) height hash leader_proof coinbase
            body_bytes

      abbrev pub in_gossip :
          Gossip b
          → EngineState b × Result BftError (Unit {0})
          → Gossip b × Result BftError (Unit {0})
      in_gossip g (st, reply) = (with_state b g st, reply)

      unfoldable pub serve_block : Gossip b → ℕ → Gossip b
      serve_block g height = elim (committed_block_at b g.engine.state height) [
        | none ↦ g
        | some (block, certificate) ↦
            broadcast b g (encode (block_response (codec.encode_block block) certificate))
      ]

      -- Unless the message is of a future height, handle it.
      abbrev pub unless_future :
          Gossip b × Bool
          → (Gossip b → Gossip b × Result BftError (Unit {0}))
          → Gossip b × Result BftError (Unit {0})
      unless_future (g, true) f = (g, ok tt)
      unless_future (g, false) f = f g

      unfoldable pub dispatch_inbound :
          Gossip b → BftMessage → Gossip b × Result BftError (Unit {0})
      dispatch_inbound g (proposal height round hash leader_proof coinbase body_bytes) =
          unless_future (request_catchup_if_future_height g height)
            (λ g'. handle_proposal_msg g' height round hash leader_proof coinbase body_bytes)
      dispatch_inbound g (prevote_message v) =
          unless_future (request_catchup_if_future_height g v.height)
            (λ g'. in_gossip g' (submit_remote_prevote b c g'.engine.state v))
      dispatch_inbound g (precommit_message v) =
          unless_future (request_catchup_if_future_height g v.height)
            (λ g'. in_gossip g' (submit_remote_precommit b c g'.engine.state v))
      dispatch_inbound g (block_request height) = (serve_block g height, ok tt)
      dispatch_inbound g (block_response block_bytes certificate) =
          handle_block_response g block_bytes certificate
