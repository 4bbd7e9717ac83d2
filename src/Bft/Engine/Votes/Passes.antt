-- ===== src/Bft/Engine/Votes/Passes.antt =====
-- One pass over a buffer of votes.
use aii.Base.{
  ℕ, ◌≤◌, ◌<◌, ◌≡◌, ◌≢◌, ◌⊎◌, refl, ◌∙◌, inl, inr, Option, List, [], ◌∷◌, ok, panic, Bool, true,
  ltb, length, All, arith, Bool-cases, Result-cases,
}
use aii.Crypto.{Crypto, Aggregates}
use aii.Block.{Blocks}
use aii.Bft.Votes.{VoteKind, Vote, prevote, precommit}
use aii.Bft.Coordinator.{Coordinator, Outcome, submit_prevote, submit_precommit}
use aii.Bft.Coordinator.Prevotes.{submit_prevote-Keeps}
use aii.Bft.Coordinator.Precommits.{submit_precommit-Keeps}
use aii.Bft.Validators.{ValidatorSet}
use aii.Bft.Engine.Invariant.{RoundInv, Keeps-RoundInv}
use aii.Bft.Engine.Votes.{is_early, Pass, retain_above, keep_vote, apply_votes}

-- What a pass leaves of a buffer: fewer votes, if one was taken, of those that were there.
pub record Passes {kind : VoteKind} (I : Coordinator → Type 0) (P : Vote kind → Type 0)
    (votes : List (Vote kind)) (before : Bool) (p : Pass kind) : Type 0 where
  pub keeps : I p.coordinator
  pub still : All P p.leftover
  pub no_more : length p.leftover ≤ length votes
  pub taken : (p.applied_any ≡ before) ⊎ (length p.leftover < length votes)

-- A vote that is not kept makes the buffer shorter.
Passes-cons :
    {kind : VoteKind} (I : Coordinator → Type 0) (P : Vote kind → Type 0) {votes : List (Vote kind)}
    {before before' : Bool} {p : Pass kind} (v : Vote kind)
    → Passes I P votes before' p
    → Passes I P (v ∷ votes) before p
Passes-cons I P v r =
    let less = r.no_more in
    record {
      keeps = r.keeps;
      still = r.still;
      no_more = omega (arith, less);
      taken = inr (omega (arith, less));
    }

module _ {kind : VoteKind} (I : Coordinator → Type 0) (P : Vote kind → Type 0)
    (submit : Coordinator → Vote kind → Outcome)
    (step : (co : Coordinator) (v : Vote kind)
      → I co
      → I (submit co v).0 × ((submit co v).1 ≢ panic)) where
  pub apply_votes-Passes :
      (co : Coordinator) (votes : List (Vote kind)) (before : Bool)
      → I co
      → All P votes
      → (p : Pass kind) × (apply_votes submit co votes before ≡ ok p) × Passes I P votes before p
  unfolding apply_votes
  apply_votes-Passes co [] before i all = (
    record { coordinator = co; leftover = []; applied_any = before },
    refl,
    record { keeps = i; still = tt; no_more = omega arith; taken = inl refl },
  )
  apply_votes-Passes co (v ∷ votes) before i all =
      let (i', fine) = step co v i in
      elim (Result-cases (submit co v).1) [
        | inl (_, took) ↦
            let (p, done, r) = apply_votes-Passes (submit co v).0 votes true i' all.1 in
            (p, ground (arith, took, done), Passes-cons I P v r)
        | inr (inl (e, refused)) ↦
            let (p, done, r) = apply_votes-Passes (submit co v).0 votes before i' all.1 in
            elim (Bool-cases (is_early e)) [
              | inl early ↦ (
                keep_vote v p,
                ground (arith, refused, early, done),
                record {
                  keeps = r.keeps;
                  still = (all.0, r.still);
                  no_more = let w = r.no_more in omega (arith, w);
                  taken = elim r.taken [
                    | inl same ↦ inl same
                    | inr less ↦ inr (omega (arith, less))
                  ];
                },
              )
              | inr dropped ↦ (p, ground (arith, refused, dropped, done), Passes-cons I P v r)
            ]
        | inr (inr panics) ↦ absurd (fine panics)
      ]

pub retain_above_lem :
    {kind : VoteKind} (head : ℕ) (votes : List (Vote kind))
    → All (λ v. head < v.height) (retain_above head votes)
      × (length (retain_above head votes) ≤ length votes)
unfolding retain_above
retain_above_lem head [] = (tt, omega arith)
retain_above_lem head (v ∷ votes) =
    let (all, less) = retain_above_lem head votes in
    elim (Bool-cases (ltb head v.height)) [
      | inl above ↦ rw above ((ground arith, all), omega (arith, less))
      | inr stale ↦ rw stale (all, omega (arith, less))
    ]

module _ (b : Blocks) (c : Crypto) (aggregates : Aggregates c) where
  -- A coordinator of the engine, with what was proposed to it.
  abbrev pub Drives : ValidatorSet → ℕ → Option ℕ → Coordinator → Type 0
  Drives vs head proposed co = RoundInv b c vs head co × (co.proposed_block ≡ proposed)

  pub submit_prevote-proposed :
      (co : Coordinator) (v : Vote prevote)
      → (submit_prevote c co v).0.proposed_block ≡ co.proposed_block
  unfolding submit_prevote aii.Bft.Coordinator.after_prevote aii.Bft.Coordinator.lock_on
  submit_prevote-proposed co v = ground arith

  pub submit_precommit-proposed :
      (co : Coordinator) (v : Vote precommit)
      → (submit_precommit c co v).0.proposed_block ≡ co.proposed_block
  unfolding submit_precommit aii.Bft.Coordinator.after_precommit
  submit_precommit-proposed co v = ground arith

  module _ (vs : ValidatorSet) (head : ℕ) (proposed : Option ℕ) where
    pub prevote-Drives :
        (co : Coordinator) (v : Vote prevote)
        → Drives vs head proposed co
        → Drives vs head proposed (submit_prevote c co v).0 × ((submit_prevote c co v).1 ≢ panic)
    prevote-Drives co v d =
        let k = submit_prevote-Keeps c co v aggregates d.0.inv in
        (
          (
            Keeps-RoundInv b c vs head co (submit_prevote c co v) d.0 k,
            submit_prevote-proposed co v ∙ d.1,
          ),
          k.no_panic,
        )

    pub precommit-Drives :
        (co : Coordinator) (v : Vote precommit)
        → Drives vs head proposed co
        → Drives vs head proposed (submit_precommit c co v).0
          × ((submit_precommit c co v).1 ≢ panic)
    precommit-Drives co v d =
        let k = submit_precommit-Keeps c co v aggregates d.0.inv in
        (
          (
            Keeps-RoundInv b c vs head co (submit_precommit c co v) d.0 k,
            submit_precommit-proposed co v ∙ d.1,
          ),
          k.no_panic,
        )
