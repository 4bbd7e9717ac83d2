-- ===== src/Bft/Gossip/Ticks.antt =====
-- A tick of the gossip driver, whatever arrives.
use aii.Base.{
  ℕ, ◌≡◌, refl, inl, inr, List, [], ◌∷◌, Result, ok, err, panic, ◌>>=◌, Bool, Result-cases,
}
use aii.Crypto.{Crypto, Aggregates}
use aii.Block.{Blocks}
use aii.Bft.Error.{BftError}
use aii.Bft.Wire.{decode}
use aii.Bft.Wire.Codec.Panics.{decode-ne-panic}
use aii.Bft.Gossip.{BlockCodec, Gossip, Step}
use aii.Bft.Gossip.Inbound.{dispatch_inbound}
use aii.Bft.Gossip.Loop.{after_dispatch, receive, drain_inbox, drive, tick}
use aii.Bft.Gossip.Harvesting.{GossipInv, StepKeeps, HandlerKeeps, auto_harvest-Inv}
use aii.Bft.Gossip.Handling.{dispatch_inbound-Keeps}
use aii.Bft.Gossip.Driving.{drive-Keeps}

module _ (b : Blocks) (c : Crypto) (codec : BlockCodec b) (aggregates : Aggregates c) where
  after_dispatch-Keeps :
      (o : Gossip b × Result BftError (Unit {0}))
      → HandlerKeeps b c o
      → StepKeeps b c (after_dispatch b codec c o)
  unfolding after_dispatch
  after_dispatch-Keeps (g, ok _) k = auto_harvest-Inv b c g k.0
  after_dispatch-Keeps (g, err e) k = auto_harvest-Inv b c g k.0
  after_dispatch-Keeps (g, panic) k = absurd (k.1 refl)

  module _ (is_point : ℕ → Bool) where
    receive-Keeps :
        (g : Gossip b) (bytes : List ℕ)
        → GossipInv b c g
        → StepKeeps b c (receive b codec c is_point g bytes)
    unfolding receive
    receive-Keeps g bytes i = elim (Result-cases (decode is_point bytes)) [
      | inl (m, read) ↦
          rw (receive, read)
            (after_dispatch-Keeps (dispatch_inbound b codec c g m)
              (dispatch_inbound-Keeps b c codec aggregates g m i))
      | inr (inl (e, bad)) ↦ rw (receive, bad) (auto_harvest-Inv b c g i)
      | inr (inr panics) ↦ absurd (decode-ne-panic is_point bytes panics)
    ]

    -- One step, and then another.
    bind-Keeps :
        (s : Step b) (next : Gossip b × ℕ → Step b)
        → StepKeeps b c s
        → ((g : Gossip b) (n : ℕ) → GossipInv b c g → StepKeeps b c (next (g, n)))
        → StepKeeps b c (s >>= next)
    bind-Keeps (ok (g, n)) next i keeps = keeps g n i
    bind-Keeps (err e) next i keeps = absurd i
    bind-Keeps panic next i keeps = absurd i

    drain_inbox-Keeps :
        (inbox : List (List ℕ)) (g : Gossip b)
        → GossipInv b c g
        → StepKeeps b c (drain_inbox b codec c is_point inbox g)
    unfolding drain_inbox
    drain_inbox-Keeps [] g i = i
    drain_inbox-Keeps (bytes ∷ inbox) g i =
        bind-Keeps (receive b codec c is_point g bytes) _ (receive-Keeps g bytes i) (λ g' n i'.
          bind-Keeps (drain_inbox b codec c is_point inbox g') _ (drain_inbox-Keeps inbox g' i')
            (λ g'' n' i''. i''))

    -- Given that signatures aggregate: on a driver whose engine satisfies the invariant, `tick` succeeds,
    -- with no panic, whatever bytes are in its inbox and whatever the codec of blocks makes of them, and
    -- the engine satisfies the invariant after it.
    pub tick-Keeps :
        (inbox : List (List ℕ)) (g : Gossip b)
        → GossipInv b c g
        → (g' : Gossip b) × (n : ℕ) × (tick b codec c is_point inbox g ≡ ok (g', n))
          × GossipInv b c g'
    unfolding tick
    tick-Keeps inbox g i = succeeded (tick b codec c is_point inbox g) (
        bind-Keeps (drain_inbox b codec c is_point inbox g) _ (drain_inbox-Keeps inbox g i)
          (λ g' n i'.
            bind-Keeps (drive b codec c is_point g') _
              (drive-Keeps b c codec aggregates is_point g' i')
              (λ g'' n' i''. auto_harvest-Inv b c g'' i'')))
      where
        succeeded :
            (s : Step b)
            → StepKeeps b c s
            → (g' : Gossip b) × (n : ℕ) × (s ≡ ok (g', n)) × GossipInv b c g'
        succeeded (ok (g', n)) i = (g', n, refl, i)
        succeeded (err e) i = absurd i
        succeeded panic i = absurd i
