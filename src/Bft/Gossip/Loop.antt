-- ===== src/Bft/Gossip/Loop.antt =====
-- A tick: `tick` of crates/aii-consensus-bft/src/gossip.rs.
use aii.Base.{ℕ, ◌+◌, none, some, List, [], ◌∷◌, Result, ok, err, panic, ◌>>=◌, Bool, if◌then◌else◌}
use aii.Crypto.{Crypto}
use aii.Block.{Blocks}
use aii.Bft.Error.{BftError}
use aii.Bft.Engine.Rounds.{current_round_state, would_be_leader_next_height}
use aii.Bft.Wire.{decode}
use aii.Bft.Gossip.{BlockCodec, Gossip, auto_harvest, Step}
use aii.Bft.Gossip.Casting.{bootstrap_propose, drive_phase}
use aii.Bft.Gossip.Inbound.{dispatch_inbound}

module _ (b : Blocks) where
  module _ (codec : BlockCodec b) where
    module _ (c : Crypto) where
      -- One message of the inbox, by its decoding.
      unfoldable pub after_dispatch : Gossip b × Result BftError (Unit {0}) → Step b
      after_dispatch (g, ok _) = ok (auto_harvest b g, 1)
      after_dispatch (g, err e) = ok (auto_harvest b g, 1)
      after_dispatch (g, panic) = panic

      module _ (is_point : ℕ → Bool) where
        unfoldable pub receive : Gossip b → List ℕ → Step b
        receive g bytes = elim (decode is_point bytes) [
          | ok msg ↦ after_dispatch (dispatch_inbound b codec c g msg)
          | err e ↦ ok (auto_harvest b g, 0)
          | panic ↦ panic
        ]

        -- The first loop of `tick`.
        unfoldable pub drain_inbox : List (List ℕ) → Gossip b → Step b
        drain_inbox [] g = ok (g, 0)
        drain_inbox (bytes ∷ inbox) g = do
          (g', n) ← receive g bytes
          (g'', n') ← drain_inbox inbox g'
          ok (g'', n + n')

        unfoldable pub drive : Gossip b → Step b
        drive g = elim (current_round_state b g.engine.state) [
          | some (h, r, phase) ↦ drive_phase b codec c g h r phase
          | none ↦
              let lead = bootstrap_propose b codec c g in
              if would_be_leader_next_height b c g.engine.state then lead else ok (g, 0)
        ]

        unfoldable pub tick : List (List ℕ) → Gossip b → Step b
        tick inbox g = do
          (drained, n) ← drain_inbox inbox g
          (driven, n') ← drive drained
          ok (auto_harvest b driven, n + n')
