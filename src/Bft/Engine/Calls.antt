-- ===== src/Bft/Engine/Calls.antt =====
-- Whatever the host and the peers do with an engine; and two ways to lose its way.
use aii.Base.{ℕ, ◌≢◌, refl, inl, inr, List, [], ◌∷◌, panic, arith, All}
use aii.Crypto.{Crypto, Aggregates}
use aii.Block.{Block, Blocks}
use aii.Bft.Validators.{IsValid}
use aii.Bft.Engine.{BftEngine, BftConfig, start_at}
use aii.Bft.Engine.Invariant.{EngineInv}
use aii.Bft.Engine.Keeping.{submit_remote_prevote-KeepsState, submit_remote_precommit-KeepsState}
use aii.Bft.Engine.Heads.{try_harvest_committed-Harvests, adopt_synced_block-Adopts}
use aii.Bft.Engine.Restarts.{rotate_validator_set-KeepsState, fast_forward_to_round-KeepsState}
use aii.Bft.Engine.Proposing.{submit_remote_proposal-KeepsState, tick_timeout-KeepsState}
use aii.Bft.Engine.Casting.{
  cast_proposal-KeepsEngine, cast_prevote-KeepsEngine, cast_precommit-KeepsEngine,
}
use aii.Bft.Engine.Rounds.{
  Call, apply_call, apply_calls, drain_evidence, cast_block, prevote_now, precommit_now, time_out,
  harvest, take_evidence, remote_proposal, remote_prevote, remote_precommit, adopt, rotate,
  fast_forward,
}

module _ (b : Blocks) (c : Crypto) where
  -- The set of a rotation is one that `ValidatorSet::new` accepts.
  abbrev pub Admissible : Call b c → Type 0
  Admissible (rotate vs my_index) = IsValid vs
  Admissible cast_block = Unit
  Admissible prevote_now = Unit
  Admissible precommit_now = Unit
  Admissible time_out = Unit
  Admissible harvest = Unit
  Admissible take_evidence = Unit
  Admissible (remote_proposal block proof) = Unit
  Admissible (remote_prevote vote) = Unit
  Admissible (remote_precommit vote) = Unit
  Admissible (adopt block certificate) = Unit
  Admissible (fast_forward round) = Unit

  pub start_at-Inv :
      (config : BftConfig b) (head : Block b.Tx) (seed : ℕ)
      → IsValid config.validator_set
      → EngineInv b c (start_at b config head seed).state
  unfolding start_at
  start_at-Inv config head seed valid = record {
    valid = valid;
    active = refl;
    cache = record { increasing = tt; bounded = omega arith; certified = tt };
  }

  module _ (aggregates : Aggregates c) where
    pub apply_call-Keeps :
        (e : BftEngine b) (call : Call b c)
        → EngineInv b c e.state
        → Admissible call
        → let (e', reply) = apply_call b c e call in EngineInv b c e'.state × (reply ≢ panic)
    unfolding drain_evidence
    apply_call-Keeps e cast_block i v =
        let k = cast_proposal-KeepsEngine b c aggregates e i in (k.inv, k.no_panic)
    apply_call-Keeps e prevote_now i v =
        let k = cast_prevote-KeepsEngine b c aggregates e i in (k.inv, k.no_panic)
    apply_call-Keeps e precommit_now i v =
        let k = cast_precommit-KeepsEngine b c aggregates e i in (k.inv, k.no_panic)
    apply_call-Keeps e time_out i v =
        let k = tick_timeout-KeepsState b c aggregates e.state i in (k.inv, k.no_panic)
    apply_call-Keeps e harvest i v = ((try_harvest_committed-Harvests b c e.state i).0, λ h. cc)
    apply_call-Keeps e take_evidence i v = (i, λ h. cc)
    apply_call-Keeps e (remote_proposal block proof) i v =
        let k = submit_remote_proposal-KeepsState b c aggregates e.state block proof i in
        (k.inv, k.no_panic)
    apply_call-Keeps e (remote_prevote vote) i v =
        let k = submit_remote_prevote-KeepsState b c aggregates e.state vote i in
        (k.inv, k.no_panic)
    apply_call-Keeps e (remote_precommit vote) i v =
        let k = submit_remote_precommit-KeepsState b c aggregates e.state vote i in
        (k.inv, k.no_panic)
    apply_call-Keeps e (adopt block certificate) i v =
        let (j, outcome, _) = adopt_synced_block-Adopts b c e.state block certificate i in
        (
          j,
          elim outcome [
            | inl (x, done, _, _, _) ↦ λ h. ground (arith, done, h)
            | inr (x, failed, _) ↦ λ h. ground (arith, failed, h)
          ],
        )
    apply_call-Keeps e (rotate vs my_index) i v =
        let k = rotate_validator_set-KeepsState b c e.state vs my_index i v in (k.inv, k.no_panic)
    apply_call-Keeps e (fast_forward round) i v =
        let k = fast_forward_to_round-KeepsState b c e.state round i in (k.inv, k.no_panic)

    pub apply_calls-EngineInv :
        (e : BftEngine b) (calls : List (Call b c))
        → EngineInv b c e.state
        → All Admissible calls
        → EngineInv b c (apply_calls b c e calls).state
    apply_calls-EngineInv e [] i v = i
    apply_calls-EngineInv e (call ∷ calls) i v =
        apply_calls-EngineInv (apply_call b c e call).0 calls (apply_call-Keeps e call i v.0).0 v.1
