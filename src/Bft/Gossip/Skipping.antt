-- ===== src/Bft/Gossip/Skipping.antt =====
-- A proposal message moves the round of an engine before anything in it is checked.
use aii.Base.{
  ltb, ◌<◌, u32_mod, ℕ, zero, suc, ◌+◌, ◌≡◌, refl, ap, sym, ◌∙◌, subst, none, some, List, Result,
  ok, err, true, false, ◌!=◌, ◌==◌, ◌&&◌, arith, saturating_add, u64_mod,
}
use aii.Crypto.{Crypto}
use aii.Block.{Blocks}
use aii.Bft.Error.{awaiting_proposal, BftError, invalid_proposal_body}
use aii.Bft.Votes.{LeaderProof}
use aii.Bft.Engine.{EngineState}
use aii.Bft.Engine.Rounds.{current_round_state}
use aii.Bft.Coordinator.{Coordinator, new_coordinator, fire_timeout}
use aii.Bft.Engine.{next_height, fast_forward_to_round, fire_timeouts}
use aii.Bft.Gossip.{BlockCodec, Gossip, with_state}
use aii.Bft.Gossip.Inbound.{skip_rounds, take_proposal, after_skip, handle_proposal_msg}

module _ (b : Blocks) (c : Crypto) (codec : BlockCodec b) where
  fire_timeouts-fresh :
      (n : ℕ) (co : Coordinator)
      → co.phase ≡ awaiting_proposal
      → co.locked ≡ none
      → co.round + n < u32_mod
      → ((fire_timeouts b n co).phase ≡ awaiting_proposal)
        × ((fire_timeouts b n co).locked ≡ none)
        × ((fire_timeouts b n co).round ≡ co.round + n)
  unfolding fire_timeouts fire_timeout
  fire_timeouts-fresh zero co waits unlocked small = (waits, unlocked, omega arith)
  fire_timeouts-fresh (suc n) co waits unlocked small =
      let next = fire_timeout co in
      let round : next.round ≡ co.round + 1 = ground (arith, waits, small) in
      let (p, l, r) =
        fire_timeouts-fresh n next (ground (arith, waits)) (ground (arith, waits, unlocked))
          (omega (arith, round, small)) in
      (p, l, omega (arith, r, round))

  -- The coordinator of a round that has only begun.
  pub record Reset (st : EngineState b) (round : ℕ) : Type 0 where
    pub co : Coordinator
    pub active : st.coordinator ≡ some co
    pub at_round : co.round ≡ round
    pub unlocked : co.locked ≡ none
    pub waits : co.phase ≡ awaiting_proposal

  fast_forward-Reset :
      (st : EngineState b) (co : Coordinator) (round : ℕ)
      → st.coordinator ≡ some co
      → co.height ≡ next_height b st
      → round < u32_mod
      → ((fast_forward_to_round b st round).1 ≡ ok tt)
        × Reset (fast_forward_to_round b st round).0 round
  unfolding fast_forward_to_round new_coordinator
  fast_forward-Reset st co round has at small =
      let fresh = new_coordinator (next_height b st) st.seed st.validator_set in
      let moved = fire_timeouts b round fresh in
      let (p, l, r) = fire_timeouts-fresh round fresh refl refl (omega (arith, small)) in
      let same : (co.height != next_height b st) ≡ false = ground (arith, at) in
      let end : fast_forward_to_round b st round ≡ (record st { coordinator = some moved }, ok tt) =
        rw (fast_forward_to_round, has, same) refl in
      subst (λ o. (o.1 ≡ ok tt) × Reset o.0 round) (sym end)
        (
          refl,
          record {
            co = moved;
            active = refl;
            at_round = omega (arith, r);
            unlocked = l;
            waits = p;
          },
        )

  -- On an engine with a coordinator at the height after the head, in any phase and with any lock, a
  -- proposal message of this height and a later round whose body does not decode fails; but it leaves a
  -- new coordinator of that round, which waits for a proposal and has no lock. The message may come from
  -- any peer: nothing in it has been verified.
  pub handle_proposal_msg-resets :
      (g : Gossip b) (co : Coordinator) (round hash : ℕ) (proof : LeaderProof) (coinbase : ℕ)
      (bytes : List ℕ)
      → g.engine.state.coordinator ≡ some co
      → co.height ≡ g.engine.state.head_number + 1
      → g.engine.state.head_number + 1 < u64_mod
      → co.round < round
      → round < u32_mod
      → codec.decode_body bytes ≡ none
      → let (g', reply) =
          handle_proposal_msg b codec c g
            (g.engine.state.head_number + 1)
            round
            hash
            proof
            coinbase
            bytes in
        (reply ≡ err invalid_proposal_body) × Reset g'.engine.state round
  unfolding handle_proposal_msg skip_rounds current_round_state after_skip take_proposal
  handle_proposal_msg-resets g co round hash proof coinbase bytes has at room later small garbage =
      let st = g.engine.state in
      let height = st.head_number + 1 in
      let Goal : Gossip b × Result BftError (Unit {0}) → Type 0 =
        λ o. (o.1 ≡ err invalid_proposal_body) × Reset o.0.engine.state round in
      let (done, reset) = fast_forward-Reset st co round has (omega (arith, at, room)) small in
      let moved = (fast_forward_to_round b st round).0 in
      let test : ((height == saturating_add u64_mod st.head_number 1)
            && (((co.height == height) && ltb co.round round) && ltb 0 round))
          ≡ true =
        ground (arith, at, room, later) in
      let skips : skip_rounds b codec c st height round ≡ fast_forward_to_round b st round =
        rw (skip_rounds, current_round_state, has, test) refl in
      let split : fast_forward_to_round b st round ≡ (moved, ok tt) = ap (λ r. (moved, r)) done in
      let end : handle_proposal_msg b codec c g height round hash proof coinbase bytes
          ≡ (with_state b g moved, err invalid_proposal_body) =
        ap (λ o. after_skip b codec c g o height hash proof coinbase bytes) (skips ∙ split)
        ∙ rw (take_proposal, garbage) refl in
      subst Goal (sym end) (refl, reset)
