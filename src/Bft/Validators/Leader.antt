-- ===== src/Bft/Validators/Leader.antt =====
-- `select_leader`: the leader is in the set, and a validator leads for as many picks as it has stake.
use native.Mathlib.Nat.{mod-lt}
use aii.Base.{
  ℕ, suc, ◌+◌, ◌≤◌, ◌<◌, ◌≡◌, ◌∙◌, ap, refl, inl, inr, some, List, [], ◌∷◌, arith, u64_mod,
  get_elem?, take, ltb, Bool-cases,
}
use aii.Crypto.{Crypto}
use aii.Bft.Validators.{
  Validator, ValidatorSet, IsValid, first_above, leader_pick, select_leader, stakes,
}

-- The validator at index i, where the pick lies in the part of the stakes that is its own.
abbrev pub Leads : ℕ → List Validator → ℕ → Type 0
Leads pick vs i =
    (v : Validator) × (get_elem? vs i ≡ some v)
    × (stakes (take i vs) ≤ pick)
    × (pick < stakes (take i vs) + v.stake)

first_above_lem :
    (pick i cum : ℕ) (vs : List Validator)
    → cum ≤ pick
    → pick < cum + stakes vs
    → cum + stakes vs < u64_mod
    → (k : ℕ) × (v : Validator) × (first_above pick i cum vs ≡ some (i + k))
      × (get_elem? vs k ≡ some v)
      × (cum + stakes (take k vs) ≤ pick)
      × (pick < cum + stakes (take k vs) + v.stake)
unfolding first_above
first_above_lem pick i cum [] lo hi fits = absurd (omega arith)
first_above_lem pick i cum (v ∷ vs) lo hi fits = elim (Bool-cases (ltb pick (cum + v.stake))) [
  | inl own ↦ (0, v, ground arith, refl, omega arith, ground arith)
  | inr later ↦
      let (k, w, e, at, l, h) =
        first_above_lem pick (suc i) (cum + v.stake) vs (ground arith) (omega arith)
          (omega arith) in
      (suc k, w, ground (arith, e), at, omega arith, omega arith)
]

leader_pick-lt :
    (c : Crypto) (vs : ValidatorSet) (height round seed : ℕ)
    → 0 < vs.total_stake
    → leader_pick c vs height round seed < vs.total_stake
unfolding leader_pick
leader_pick-lt c vs height round seed positive = mod-lt _ positive

-- The leader of every round is a validator of the set, if the set is valid: the one in whose part of
-- the total stake the pick falls.
pub select_leader-Leads :
    (c : Crypto) (vs : ValidatorSet) (height round seed : ℕ)
    → IsValid vs
    → Leads
        (leader_pick c vs height round seed)
        vs.validators
        (select_leader c vs height round seed)
unfolding select_leader
select_leader-Leads c vs height round seed valid =
    let pick = leader_pick c vs height round seed in
    let (k, w, e, at, l, h) =
      first_above_lem pick 0 0 vs.validators (omega arith)
        (omega (arith, valid.summed, leader_pick-lt c vs height round seed valid.positive))
        (omega (arith, valid.summed, valid.fits)) in
    let found : first_above pick 0 0 vs.validators ≡ some k = e ∙ ap some (omega arith) in
    rw (found, select_leader) (w, at, omega arith, omega arith)
