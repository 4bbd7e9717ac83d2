-- ===== src/Bft/Validators/Quorum.antt =====
-- `ValidatorSet::new` and `quorum_threshold`: which lists of validators are accepted, and when two
-- quorums must share validators.
use native.Mathlib.Decide.{dec_lt}
use aii.Base.{
  ℕ, ◌+◌, ◌*◌, ◌≤◌, ◌<◌, ◌≡◌, ◌↔◌, subst, ap, sym, ◌∙◌, none, some, List, [], ◌∷◌, ok, arith,
  length, u64_mod,
}
use aii.Bft.Validators.{
  Validator, ValidatorSet, IsValid, new_set, add_stakes, stakes, quorum_threshold, max_validators,
}

pub add_stakes-some :
    (t : ℕ) (l : List Validator) → t + stakes l < u64_mod → add_stakes t l ≡ some (t + stakes l)
unfolding add_stakes
add_stakes-some t [] h = ground arith
add_stakes-some t (v ∷ l) h = ground (arith, add_stakes-some (t + v.stake) l)

pub add_stakes-none :
    (t : ℕ) (l : List Validator) → t < u64_mod → u64_mod ≤ t + stakes l → add_stakes t l ≡ none
unfolding add_stakes
add_stakes-none t [] p h = absurd (omega arith)
add_stakes-none t (v ∷ l) p h = ground (arith, add_stakes-none (t + v.stake) l)

new_set-accepts :
    (l : List Validator)
    → 0 < length l
    → length l ≤ max_validators
    → 0 < stakes l
    → stakes l < u64_mod
    → new_set l ≡ ok (record { validators = l; total_stake = stakes l })
unfolding new_set
new_set-accepts l some_member few positive fits = ground (arith, add_stakes-some 0 l)

new_set-IsValid :
    (l : List Validator) {vs : ValidatorSet} → new_set l ≡ ok vs → IsValid vs × (vs.validators ≡ l)
unfolding new_set
new_set-IsValid l h = elim (dec_lt (stakes l) u64_mod) [
  | yes fits ↦ ground (arith, add_stakes-some 0 l)
  | no over ↦ ground (arith, add_stakes-none 0 l)
]

stakes-member : (l : List Validator) → 0 < stakes l → 0 < length l
stakes-member [] h = h
stakes-member (v ∷ l) h = omega arith

IsValid-made : (vs : ValidatorSet) → IsValid vs → new_set vs.validators ≡ ok vs
IsValid-made vs valid =
    new_set-accepts vs.validators
      (stakes-member vs.validators (omega (arith, valid.summed, valid.positive))) valid.bounded
      (omega (arith, valid.summed, valid.positive)) (omega (arith, valid.summed, valid.fits))
    ∙ ap (λ n. ok (record { validators = vs.validators; total_stake = n })) (sym valid.summed)

-- `new` returns a set exactly if the set holds the list that is given and the sum of its stakes, the
-- sum is positive and fits 64 bits, and the list has at most 128 validators.
new_set_iff :
    (l : List Validator) (vs : ValidatorSet)
    → (new_set l ≡ ok vs) ↔ (IsValid vs × (vs.validators ≡ l))
new_set_iff l vs = (
  λ h. new_set-IsValid l h,
  λ (valid, same). subst (λ x. new_set x ≡ ok vs) same (IsValid-made vs valid),
)

-- With a positive total below 2 ^ 63 the threshold is more than two thirds of the total, and at most all.
pub quorum_threshold_bounds :
    (vs : ValidatorSet)
    → 0 < vs.total_stake
    → vs.total_stake * 2 < u64_mod
    → (2 * vs.total_stake < 3 * quorum_threshold vs) × (quorum_threshold vs ≤ vs.total_stake)
unfolding quorum_threshold
quorum_threshold_bounds vs positive small = omega arith

-- From a total of 2 ^ 63 on, up to 2 ^ 64 - 3, the product wraps round, and a third of the total is
-- enough to reach the threshold.
pub quorum_threshold_wraps :
    (vs : ValidatorSet)
    → u64_mod ≤ vs.total_stake * 2
    → vs.total_stake + 3 ≤ u64_mod
    → 3 * quorum_threshold vs ≤ vs.total_stake
unfolding quorum_threshold
quorum_threshold_wraps vs large fits = omega arith
