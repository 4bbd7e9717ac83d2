-- ===== src/Bft/Engine/Restarts.antt =====
-- The methods that rotate the validators or jump to a round keep the invariant.
use aii.Base.{
  ℕ, suc, zero, ◌≡◌, refl, sym, subst, inl, inr, none, some, [], ok, err, leb, ◌!=◌, arith,
  Bool-cases, Option-cases,
}
use aii.Crypto.{Crypto}
use aii.Block.{Blocks}
use aii.Bft.Error.{BftError, wrong_height, validator_index_out_of_bounds, active_round_in_progress}
use aii.Bft.Validators.{ValidatorSet, IsValid, size}
use aii.Bft.Coordinator.{Coordinator, new_coordinator, fire_timeout}
use aii.Bft.Coordinator.Finality.{fire_timeout-Keeps}
use aii.Bft.Engine.{
  EngineState, next_height, fast_forward_to_round, fire_timeouts, rotate_validator_set,
}
use aii.Bft.Engine.Invariant.{
  KeepsState, with_coordinator-Inv, Keeps-RoundInv, fresh-RoundInv, Captured-none, RoundInv, Active,
  EngineInv,
}

module _ (b : Blocks) (c : Crypto) where
  pub rotate_validator_set-KeepsState :
      (g : EngineState b) (vs : ValidatorSet) (my_index : ℕ)
      → EngineInv b c g
      → IsValid vs
      → KeepsState b c (rotate_validator_set b g vs my_index)
  unfolding rotate_validator_set
  rotate_validator_set-KeepsState g vs my_index i valid =
      let o = rotate_validator_set b g vs my_index in
      let refused : (e : BftError) → o ≡ (g, err e) → KeepsState b c o =
        λ e end. subst (KeepsState b c) (sym end) (record { inv = i; no_panic = λ h. cc }) in
      elim (Bool-cases (leb (size vs) my_index)) [
        | inl outside ↦
            refused (validator_index_out_of_bounds my_index (size vs)) (ground (arith, outside))
        | inr member ↦ elim (Option-cases g.coordinator) [
          | inr (co, has) ↦ refused active_round_in_progress (ground (arith, member, has))
          | inl absent ↦
              let no_proposal : g.proposal ≡ none =
                subst (λ k. Active b c g.validator_set g.head_number k g.proposal) absent
                  i.active in
              let g' : EngineState b = record g {
                pending_prevotes = [];
                pending_precommits = [];
                validator_set = vs;
                my_index = my_index;
              } in
              let end : o ≡ (g', ok tt) = ground (arith, member, absent, no_proposal) in
              subst (KeepsState b c) (sym end) (record {
                inv = record {
                  valid = valid;
                  active =
                      subst (λ k. Active b c vs g.head_number k g.proposal) (sym absent)
                        no_proposal;
                  cache = i.cache;
                };
                no_panic = λ h. cc;
              })
        ]
      ]

  fresh-none :
      (g : EngineState b)
      → (new_coordinator (next_height b g) g.seed g.validator_set).proposed_block ≡ none
  unfolding new_coordinator
  fresh-none g = refl

  fire_timeouts-RoundInv :
      (n : ℕ) (vs : ValidatorSet) (head : ℕ) (co : Coordinator)
      → RoundInv b c vs head co
      → co.proposed_block ≡ none
      → RoundInv b c vs head (fire_timeouts b n co) × ((fire_timeouts b n co).proposed_block ≡ none)
  unfolding fire_timeouts fire_timeout
  fire_timeouts-RoundInv zero vs head co r h = (r, h)
  fire_timeouts-RoundInv (suc n) vs head co r h =
      fire_timeouts-RoundInv n vs head (fire_timeout co)
        (Keeps-RoundInv b c vs head co (fire_timeout co, ok tt) r (fire_timeout-Keeps c co r.inv))
        (ground (arith, h))

  pub fast_forward_to_round-KeepsState :
      (g : EngineState b) (round : ℕ)
      → EngineInv b c g
      → KeepsState b c (fast_forward_to_round b g round)
  unfolding fast_forward_to_round
  fast_forward_to_round-KeepsState g round i =
      let o = fast_forward_to_round b g round in
      let fresh = new_coordinator (next_height b g) g.seed g.validator_set in
      let co = fire_timeouts b round fresh in
      let (r, none_yet) =
        fire_timeouts-RoundInv round g.validator_set g.head_number fresh (fresh-RoundInv b c g i)
          (fresh-none g) in
      let g' : EngineState b = record g { coordinator = some co } in
      let moved : o ≡ (g', ok tt) → KeepsState b c o = λ end.
        subst (KeepsState b c) (sym end) (record {
          inv = with_coordinator-Inv b c g co i r (Captured-none b c g co.proposed_block none_yet);
          no_panic = λ h. cc;
        }) in
      elim (Option-cases g.coordinator) [
        | inl absent ↦ moved (ground (arith, absent))
        | inr (old, has) ↦ elim (Bool-cases (old.height != next_height b g)) [
          | inr same ↦ moved (ground (arith, has, same))
          | inl other ↦
              let end : o ≡ (g, err wrong_height) = ground (arith, has, other) in
              subst (KeepsState b c) (sym end) (record { inv = i; no_panic = λ h. cc })
        ]
      ]
