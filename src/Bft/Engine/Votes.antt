-- ===== src/Bft/Engine/Votes.antt =====
-- The votes of peers in the engine, and the buffers of those that come early: `submit_remote_prevote`,
-- `submit_remote_precommit` and `drain_pending_votes` of crates/aii-consensus-bft/src/engine.rs.
-- The two loops of `drain_pending_votes` over a buffer are one, over the method that takes a vote.
-- Its outer loop runs on fuel: the number of buffered votes and one more. To run out of it is a panic of
-- the model, so that a result that is no panic shows that the loop ends.
pub mod Drain
pub mod Passes
use aii.Base.{
  ℕ, suc, zero, ◌+◌, ◌%◌, Option, none, some, List, [], ◌∷◌, ◌++◌, Result, ok, err, panic, ◌>>=◌,
  Bool, true, false, leb, ltb, if◌then◌else◌, length,
}
use aii.Crypto.{Crypto}
use aii.Block.{Blocks}
use aii.Bft.Error.{BftError, wrong_phase, wrong_round, wrong_height}
use aii.Bft.Votes.{VoteKind, Vote, prevote, precommit}
use aii.Bft.Coordinator.{Coordinator, Outcome, submit_prevote, submit_precommit}
use aii.Bft.Slashing.{record_prevote, record_precommit, Evidence}
use aii.Bft.Engine.{EngineState}

-- The errors on which a vote is buffered: it may be taken later.
abbrev pub is_early : BftError → Bool
is_early (wrong_phase _ _) = true
is_early wrong_round = true
is_early wrong_height = true
is_early _ = false

-- What a pass over a buffer leaves: the coordinator, the votes that stay, and whether one was taken.
pub record Pass (kind : VoteKind) : Type 0 where
  pub coordinator : Coordinator
  pub leftover : List (Vote kind)
  pub applied_any : Bool

module _ {kind : VoteKind} where
  -- The stale votes go.
  unfoldable pub retain_above : ℕ → List (Vote kind) → List (Vote kind)
  retain_above head [] = []
  retain_above head (v ∷ votes) =
      let rest = retain_above head votes in if ltb head v.height then v ∷ rest else rest

  abbrev pub keep_vote : Vote kind → Pass kind → Pass kind
  keep_vote v p = record p { leftover = v ∷ p.leftover }

  unfoldable pub apply_votes :
      (Coordinator → Vote kind → Outcome)
      → Coordinator
      → List (Vote kind)
      → Bool
      → Result BftError (Pass kind)
  apply_votes submit co [] applied_any =
      ok (record { coordinator = co; leftover = []; applied_any = applied_any })
  apply_votes submit co (v ∷ votes) applied_any =
      let (co', reply) = submit co v in
      elim reply [
        | ok _ ↦ apply_votes submit co' votes true
        | err e ↦
            let rest = apply_votes submit co' votes applied_any in
            if is_early e then rest >>= (λ p. ok (keep_vote v p)) else rest
        | panic ↦ panic
      ]

module _ (b : Blocks) where
  unfoldable pub drop_stale : EngineState b → EngineState b
  drop_stale g = record g {
    pending_prevotes = retain_above g.head_number g.pending_prevotes;
    pending_precommits = retain_above g.head_number g.pending_precommits;
  }

  abbrev pub buffer_prevote : EngineState b → Vote prevote → EngineState b
  buffer_prevote g vote = record g { pending_prevotes = g.pending_prevotes ++ vote ∷ [] }

  abbrev pub buffer_precommit : EngineState b → Vote precommit → EngineState b
  buffer_precommit g vote = record g { pending_precommits = g.pending_precommits ++ vote ∷ [] }

  module _ (c : Crypto) where
    -- One round of the outer loop, for a coordinator, on buffers without stale votes: the state that it
    -- leaves, and whether a vote was taken.
    unfoldable pub drain_round :
        EngineState b → Coordinator → Result BftError (EngineState b × Bool)
    drain_round g co = apply_votes (submit_prevote c) co g.pending_prevotes false >>= (λ prevotes.
        apply_votes (submit_precommit c) prevotes.coordinator g.pending_precommits
          prevotes.applied_any
        >>= (λ precommits. ok (
          record g {
            coordinator = some precommits.coordinator;
            pending_prevotes = prevotes.leftover;
            pending_precommits = precommits.leftover;
          },
          precommits.applied_any,
        )))

    unfoldable pub drain_loop : ℕ → EngineState b → Result BftError (EngineState b)
    drain_loop zero g = panic
    drain_loop (suc n) g =
        let fresh = drop_stale g in
        elim fresh.coordinator [
          | none ↦ ok fresh
          | some co ↦
              drain_round fresh co
              >>= (λ o. let rest = drain_loop n o.0 in if o.1 then rest else ok o.0)
        ]

    abbrev pub buffered : EngineState b → ℕ
    buffered g = length g.pending_prevotes + length g.pending_precommits

    unfoldable pub drain_pending_votes : EngineState b → Result BftError (EngineState b)
    drain_pending_votes g = drain_loop (suc (buffered g)) g

    -- A method that ends with `drain_pending_votes`.
    abbrev pub drained : EngineState b → EngineState b × Result BftError (Unit {0})
    drained g = elim (drain_pending_votes g) [
      | ok g' ↦ (g', ok tt)
      | err e ↦ (g, err e)
      | panic ↦ (g, panic)
    ]

    abbrev pub park : EngineState b → Option Evidence → EngineState b
    park g none = g
    park g (some evidence) = record g { pending_evidence = g.pending_evidence ++ evidence ∷ [] }

    -- The rest of a method on a vote: on the coordinator's outcome, with the buffer for an early vote.
    unfoldable pub after_vote :
        EngineState b
        → (EngineState b → EngineState b)
        → Outcome
        → EngineState b × Result BftError (Unit {0})
    after_vote g buffer (co', reply) =
        let left : EngineState b = record g { coordinator = some co' } in
        elim reply [
          | ok _ ↦ drained left
          | err e ↦ if is_early e then (buffer left, ok tt) else (left, err e)
          | panic ↦ (left, panic)
        ]

    -- The rest of `submit_remote_prevote`, once the detector has seen the vote.
    unfoldable pub ingest_prevote :
        EngineState b → Vote prevote → EngineState b × Result BftError (Unit {0})
    ingest_prevote g vote =
        if leb vote.height g.head_number then (g, ok tt) else elim g.coordinator [
          | none ↦ (buffer_prevote g vote, ok tt)
          | some co ↦ after_vote g (λ x. buffer_prevote x vote) (submit_prevote c co vote)
        ]

    unfoldable pub submit_remote_prevote :
        EngineState b → Vote prevote → EngineState b × Result BftError (Unit {0})
    submit_remote_prevote g vote =
        let (detector, found) = record_prevote g.detector vote in
        ingest_prevote (park (record g { detector = detector }) found) vote

    -- `submit_remote_precommit`, likewise.
    unfoldable pub ingest_precommit :
        EngineState b → Vote precommit → EngineState b × Result BftError (Unit {0})
    ingest_precommit g vote =
        if leb vote.height g.head_number then (g, ok tt) else elim g.coordinator [
          | none ↦ (buffer_precommit g vote, ok tt)
          | some co ↦ after_vote g (λ x. buffer_precommit x vote) (submit_precommit c co vote)
        ]

    unfoldable pub submit_remote_precommit :
        EngineState b → Vote precommit → EngineState b × Result BftError (Unit {0})
    submit_remote_precommit g vote =
        let (detector, found) = record_precommit g.detector vote in
        ingest_precommit (park (record g { detector = detector }) found) vote
