-- ===== src/Bft/Gossip/CatchUp.antt =====
-- A validator that has fallen behind catches up in three messages.
use aii.Base.{
  ◌<◌, ℕ, ◌+◌, ◌≡◌, refl, ap, sym, ◌∙◌, subst, inl, inr, some, List, [], ◌∷◌, ◌++◌, Result, ok,
  Bool, false, arith, saturating_add, u64_mod, leb, contains,
}
use aii.Crypto.{Crypto}
use aii.Block.{Block, Blocks, block_hash}
use aii.Bft.Error.{BftError}
use aii.Bft.Votes.{Vote, precommit}
use aii.Bft.Certificate.{Certificate}
use aii.Bft.Engine.{adopt_synced_block}
use aii.Bft.Engine.Heads.{adopt_synced_block-Adopts}
use aii.Bft.Wire.{BftMessage, precommit_message, block_request, block_response, decode}
use aii.Bft.Engine.{committed_block_at}
use aii.Bft.Engine.Heads.{Extends}
use aii.Bft.Wire.{encode}
use aii.Bft.Wire.Codec.{Fits}
use aii.Bft.Wire.Codec.Inverse.{decode-encode}
use aii.Bft.Gossip.{BlockCodec, Gossip}
use aii.Bft.Gossip.Inbound.{
  request_catchup_if_future_height, decode_whole_block, after_adoption, handle_block_response,
  serve_block, dispatch_inbound,
}
use aii.Bft.Gossip.Harvesting.{GossipInv}

module _ (b : Blocks) (c : Crypto) (codec : BlockCodec b) (is_point : ℕ → Bool) where
  -- A vote of a future height makes the driver ask for the next block, once.
  ask :
      (g : Gossip b) (v : Vote precommit)
      → g.engine.state.head_number + 1 < v.height
      → g.engine.state.head_number + 1 < u64_mod
      → contains (g.engine.state.head_number + 1) g.flags.requested_blocks ≡ false
      → let next = g.engine.state.head_number + 1 in
        dispatch_inbound b codec c g (precommit_message v) ≡ (
          record g {
            flags = record g.flags { requested_blocks = next ∷ g.flags.requested_blocks };
            sent = g.sent ++ encode (block_request next) ∷ [];
          },
          ok tt,
        )
  unfolding dispatch_inbound request_catchup_if_future_height
  ask g v ahead room fresh =
      let next = g.engine.state.head_number + 1 in
      let at : saturating_add u64_mod g.engine.state.head_number 1 ≡ next = ground (arith, room) in
      let future : leb v.height next ≡ false = ground (arith, ahead) in
      rw (dispatch_inbound, request_catchup_if_future_height, at, future, fresh) refl

  serve :
      (g : Gossip b) (height : ℕ) (block : Block b.Tx) (cert : Certificate precommit)
      → committed_block_at b g.engine.state height ≡ some (block, cert)
      → (dispatch_inbound b codec c g (block_request height)).0.sent
        ≡ g.sent ++ encode (block_response (codec.encode_block block) cert) ∷ []
  unfolding dispatch_inbound serve_block
  serve g height block cert has = rw (serve_block, has) refl

  adopt :
      (g : Gossip b) (block : Block b.Tx) (cert : Certificate precommit)
      → GossipInv b c g
      → codec.decode_block (codec.encode_block block) ≡ some (block, [])
      → Extends b c g.engine.state block cert
      → let (g', reply) =
          dispatch_inbound b codec c g (block_response (codec.encode_block block) cert) in
        (reply ≡ ok tt)
        × (g'.engine.state.head_hash ≡ block_hash b block)
        × (g'.engine.state.head_number ≡ block.header.number)
        × (g'.harvested_blocks ≡ g.harvested_blocks ++ block ∷ [])
  unfolding dispatch_inbound handle_block_response decode_whole_block after_adoption
  adopt g block cert i round_trip x =
      let st = g.engine.state in
      let Goal : Gossip b × Result BftError (Unit {0}) → Type 0 = λ o.
        (o.1 ≡ ok tt)
        × (o.0.engine.state.head_hash ≡ block_hash b block)
        × (o.0.engine.state.head_number ≡ block.header.number)
        × (o.0.harvested_blocks ≡ g.harvested_blocks ++ block ∷ []) in
      let bytes = codec.encode_block block in
      let whole : decode_whole_block b codec c bytes ≡ some block =
        rw (decode_whole_block, round_trip) refl in
      let o = adopt_synced_block b c st block cert in
      let (_, outcome, iff) = adopt_synced_block-Adopts b c st block cert i in
      let handled : handle_block_response b codec c g bytes cert ≡ after_adoption b codec c g o =
        rw (handle_block_response, whole) refl in
      elim outcome [
        | inl (_, done, moved, _, _) ↦
            let end : o ≡ (o.0, ok block) = ap (λ r. (o.0, r)) done in
            subst Goal (sym (handled ∙ ap (after_adoption b codec c g) end))
              (refl, moved.at_hash, moved.at_number, refl)
        | inr (e, failed, _) ↦ absurd (ground (arith, iff.1 x, failed))
      ]

  -- What a peer that has the next block, and whose codec reads back what it writes, does for a driver.
  pub record CanServe (g peer : Gossip b) (block : Block b.Tx) (cert : Certificate precommit)
      : Type 0 where
    pub cached :
        committed_block_at b peer.engine.state (g.engine.state.head_number + 1) ≡ some (block, cert)
    pub reads_back : codec.decode_block (codec.encode_block block) ≡ some (block, [])
    pub fits : Fits is_point (block_response (codec.encode_block block) cert)
    pub extends : Extends b c g.engine.state block cert

  -- A driver whose engine satisfies the invariant and which has not asked for the next block yet sees a
  -- precommit of a height after the next. It then sends a request that decodes as one for the next
  -- block; a peer that has the block in its cache answers it with bytes that decode as the block with its
  -- certificate; and the driver, when it handles them, adopts the block: the block is the head, and is
  -- handed to the host. The certificate verifies under the driver's validator set, the block is the next
  -- one on its head, and its bytes decode to it and fit in a message.
  pub catches_up :
      (g peer : Gossip b) (v : Vote precommit) (block : Block b.Tx) (cert : Certificate precommit)
      → GossipInv b c g
      → g.engine.state.head_number + 1 < v.height
      → g.engine.state.head_number + 1 < u64_mod
      → contains (g.engine.state.head_number + 1) g.flags.requested_blocks ≡ false
      → CanServe g peer block cert
      → let asks = (dispatch_inbound b codec c g (precommit_message v)).0 in
        (request response : List ℕ) × (ask_for answer : BftMessage) × (asks.sent
          ≡ g.sent ++ request ∷ [])
        × (decode is_point request ≡ ok ask_for)
        × ((dispatch_inbound b codec c peer ask_for).0.sent ≡ peer.sent ++ response ∷ [])
        × (decode is_point response ≡ ok answer)
        × (let (g', reply) = dispatch_inbound b codec c asks answer in
            (reply ≡ ok tt)
            × (g'.engine.state.head_hash ≡ block_hash b block)
            × (g'.engine.state.head_number ≡ g.engine.state.head_number + 1)
            × (g'.harvested_blocks ≡ g.harvested_blocks ++ block ∷ []))
  catches_up g peer v block cert i ahead room fresh s =
      let next = g.engine.state.head_number + 1 in
      let request = block_request next in
      let response = block_response (codec.encode_block block) cert in
      let asked : Gossip b = record g {
        flags = record g.flags { requested_blocks = next ∷ g.flags.requested_blocks };
        sent = g.sent ++ encode request ∷ [];
      } in
      let asks : (dispatch_inbound b codec c g (precommit_message v)).0 ≡ asked =
        ap (λ o. o.0) (ask g v ahead room fresh) in
      let (done, hash, number, handed) = adopt asked block cert i s.reads_back s.extends in
      let Adopted : Gossip b → Type 0 = λ x.
        let (g', reply) = dispatch_inbound b codec c x response in
        (reply ≡ ok tt)
        × (g'.engine.state.head_hash ≡ block_hash b block)
        × (g'.engine.state.head_number ≡ next)
        × (g'.harvested_blocks ≡ g.harvested_blocks ++ block ∷ []) in
      let numbered : block.header.number ≡ next =
        let n = s.extends.next in omega (arith, n, room) in
      (
        encode request,
        encode response,
        request,
        response,
        ap (λ x. x.sent) asks,
        decode-encode is_point request (omega (arith, room)),
        serve peer next block cert s.cached,
        decode-encode is_point response s.fits,
        subst Adopted (sym asks) (done, hash, number ∙ numbered, handed),
      )
