-- ===== src/Bft/Gossip/Handling.antt =====
-- Each message that arrives keeps the invariant of the engine, and none makes a handler panic.
use aii.Base.{
  ltb, ℕ, ◌≡◌, ◌≢◌, refl, sym, subst, inl, inr, List, Result, ok, err, panic, Bool, true, false,
  ◌!=◌, ◌==◌, ◌&&◌, arith, Bool-cases, Option-cases, saturating_add, u64_mod,
}
use aii.Crypto.{Crypto, Aggregates}
use aii.Block.{Block, Blocks, block_hash}
use aii.Bft.Error.{BftError}
use aii.Bft.Votes.{precommit, LeaderProof}
use aii.Bft.Certificate.{Certificate}
use aii.Bft.Engine.{EngineState, BftEngine, try_harvest_committed, adopt_synced_block, set_head}
use aii.Bft.Engine.Building.{reconstruct_proposed_block_with_body}
use aii.Bft.Engine.Invariant.{EngineInv, KeepsState}
use aii.Bft.Engine.Heads.{adopt_synced_block-Adopts}
use aii.Bft.Engine.Restarts.{fast_forward_to_round-KeepsState}
use aii.Bft.Engine.Keeping.{submit_remote_prevote-KeepsState, submit_remote_precommit-KeepsState}
use aii.Bft.Engine.Proposing.{submit_remote_proposal-KeepsState}
use aii.Bft.Engine.Rounds.{current_round_state}
use aii.Bft.Wire.{
  BftMessage, proposal, prevote_message, precommit_message, block_request, block_response,
}
use aii.Bft.Gossip.{BlockCodec, Gossip, with_state}
use aii.Bft.Gossip.Inbound.{
  request_catchup_if_future_height, decode_whole_block, after_adoption, handle_block_response,
  later_round, skip_rounds, take_proposal, after_skip, handle_proposal_msg, serve_block,
  unless_future, dispatch_inbound,
}
use aii.Bft.Gossip.Harvesting.{GossipInv, HandlerKeeps}

module _ (b : Blocks) (c : Crypto) (codec : BlockCodec b) where
  request_catchup-engine :
      (g : Gossip b) (h : ℕ) → (request_catchup_if_future_height b codec c g h).0.engine ≡ g.engine
  unfolding request_catchup_if_future_height
  request_catchup-engine g h = ground arith

  request_catchup-Inv :
      (g : Gossip b) (h : ℕ)
      → GossipInv b c g
      → GossipInv b c (request_catchup_if_future_height b codec c g h).0
  request_catchup-Inv g h i =
      subst (λ e. EngineInv b c e.state) (sym (request_catchup-engine g h)) i

  unless_future-Keeps :
      (r : Gossip b × Bool) (f : Gossip b → Gossip b × Result BftError (Unit {0}))
      → GossipInv b c r.0
      → ((g : Gossip b) → GossipInv b c g → HandlerKeeps b c (f g))
      → HandlerKeeps b c (unless_future b codec c r f)
  unless_future-Keeps (g, true) f i keeps = (i, λ h. cc)
  unless_future-Keeps (g, false) f i keeps = keeps g i

  pub skip_rounds-KeepsState :
      (st : EngineState b) (height round : ℕ)
      → EngineInv b c st
      → KeepsState b c (skip_rounds b codec c st height round)
  unfolding skip_rounds
  skip_rounds-KeepsState st height round i =
      let t =
        (height == saturating_add u64_mod st.head_number 1)
        && (later_round b codec c (current_round_state b st) height round && ltb 0 round) in
      elim (Bool-cases t) [
        | inl skips ↦ rw skips (fast_forward_to_round-KeepsState b c st round i)
        | inr stays ↦ rw stays (record { inv = i; no_panic = λ h. cc })
      ]

  after_adoption-Keeps :
      (g : Gossip b) (o : EngineState b × Result BftError (Block b.Tx))
      → EngineInv b c o.0
      → o.1 ≢ panic
      → HandlerKeeps b c (after_adoption b codec c g o)
  unfolding after_adoption
  after_adoption-Keeps g (st, ok block) i fine = (i, λ h. cc)
  after_adoption-Keeps g (st, err e) i fine = (i, λ h. cc)
  after_adoption-Keeps g (st, panic) i fine = absurd (fine refl)

  adopt-ne-panic :
      (st : EngineState b) (block : Block b.Tx) (cert : Certificate precommit)
      → EngineInv b c st
      → (adopt_synced_block b c st block cert).1 ≢ panic
  adopt-ne-panic st block cert i =
      let (_, outcome, _) = adopt_synced_block-Adopts b c st block cert i in
      elim outcome [
        | inl (_, done, _, _, _) ↦ λ h. ground (arith, done, h)
        | inr (_, failed, _) ↦ λ h. ground (arith, failed, h)
      ]

  handle_block_response-Keeps :
      (g : Gossip b) (bytes : List ℕ) (cert : Certificate precommit)
      → GossipInv b c g
      → HandlerKeeps b c (handle_block_response b codec c g bytes cert)
  unfolding handle_block_response
  handle_block_response-Keeps g bytes cert i =
      elim (Option-cases (decode_whole_block b codec c bytes)) [
        | inl bad ↦ rw (handle_block_response, bad) (i, λ h. cc)
        | inr (block, good) ↦
            let st = g.engine.state in
            let (j, _, _) = adopt_synced_block-Adopts b c st block cert i in
            rw (handle_block_response, good)
              (after_adoption-Keeps g (adopt_synced_block b c st block cert) j
                (adopt-ne-panic st block cert i))
      ]

  serve_block-Inv :
      (g : Gossip b) (height : ℕ) → GossipInv b c g → GossipInv b c (serve_block b codec c g height)
  unfolding serve_block
  serve_block-Inv g height i =
      elim (Option-cases (aii.Bft.Engine.committed_block_at b g.engine.state height)) [
        | inl absent ↦ rw (serve_block, absent) i
        | inr (found, has) ↦ rw (serve_block, has) i
      ]

  module _ (aggregates : Aggregates c) where
    take_proposal-Keeps :
        (g : Gossip b) (height hash : ℕ) (proof : LeaderProof) (coinbase : ℕ) (bytes : List ℕ)
        → GossipInv b c g
        → HandlerKeeps b c (take_proposal b codec c g height hash proof coinbase bytes)
    unfolding take_proposal
    take_proposal-Keeps g height hash proof coinbase bytes i =
        elim (Option-cases (codec.decode_body bytes)) [
          | inl bad ↦ rw (take_proposal, bad) (i, λ h. cc)
          | inr ((body, rest), good) ↦
              let block =
                reconstruct_proposed_block_with_body b g.engine height proof coinbase body in
              let k =
                submit_remote_proposal-KeepsState b c aggregates g.engine.state block proof i in
              elim (Bool-cases (block_hash b block != hash)) [
                | inl other ↦ rw (take_proposal, good, other) (i, λ h. cc)
                | inr same ↦ rw (take_proposal, good, same) (k.inv, k.no_panic)
              ]
        ]

    after_skip-Keeps :
        (g : Gossip b) (o : EngineState b × Result BftError (Unit {0})) (height hash : ℕ)
        (proof : LeaderProof) (coinbase : ℕ) (bytes : List ℕ)
        → KeepsState b c o
        → HandlerKeeps b c (after_skip b codec c g o height hash proof coinbase bytes)
    unfolding after_skip
    after_skip-Keeps g (st, ok _) height hash proof coinbase bytes k =
        take_proposal-Keeps (with_state b g st) height hash proof coinbase bytes k.inv
    after_skip-Keeps g (st, err e) height hash proof coinbase bytes k = (k.inv, λ h. cc)
    after_skip-Keeps g (st, panic) height hash proof coinbase bytes k = absurd (k.no_panic refl)

    pub dispatch_inbound-Keeps :
        (g : Gossip b) (m : BftMessage)
        → GossipInv b c g
        → HandlerKeeps b c (dispatch_inbound b codec c g m)
    unfolding dispatch_inbound handle_proposal_msg
    dispatch_inbound-Keeps g (proposal height round hash proof coinbase bytes) i =
        unless_future-Keeps (request_catchup_if_future_height b codec c g height) _
          (request_catchup-Inv g height i)
          (λ g' i'.
            after_skip-Keeps g' (skip_rounds b codec c g'.engine.state height round) height hash
              proof coinbase bytes (skip_rounds-KeepsState g'.engine.state height round i'))
    dispatch_inbound-Keeps g (prevote_message v) i =
        unless_future-Keeps (request_catchup_if_future_height b codec c g v.height) _
          (request_catchup-Inv g v.height i)
          (λ g' i'.
            let k = submit_remote_prevote-KeepsState b c aggregates g'.engine.state v i' in
            (k.inv, k.no_panic))
    dispatch_inbound-Keeps g (precommit_message v) i =
        unless_future-Keeps (request_catchup_if_future_height b codec c g v.height) _
          (request_catchup-Inv g v.height i)
          (λ g' i'.
            let k = submit_remote_precommit-KeepsState b c aggregates g'.engine.state v i' in
            (k.inv, k.no_panic))
    dispatch_inbound-Keeps g (block_request height) i = (serve_block-Inv g height i, λ h. cc)
    dispatch_inbound-Keeps g (block_response bytes cert) i =
        handle_block_response-Keeps g bytes cert i
