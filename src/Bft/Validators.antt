-- ===== src/Bft/Validators.antt =====
-- The validator set and its leader: `Validator`, `ValidatorSet` of
-- crates/aii-consensus-bft/src/bft.rs. Indices, stakes and heights are numbers in the range of
-- their Rust types; a `usize` has 64 bits.
pub mod Quorum
pub mod Leader
use aii.Base.{
  ℕ, suc, ◌+◌, ◌-◌, ◌*◌, ◌/◌, ◌%◌, ◌<◌, ◌≤◌, ◌≡◌, Option, none, some, List, [], ◌∷◌, ◌++◌, Result,
  ok, err, ltb, ◌==◌, if◌then◌else◌, length, take, u64_mod, checked_add, saturating_add,
  to_be_bytes, from_be_bytes,
}
use aii.Crypto.{Crypto}
use aii.Bft.Error.{
  BftError, empty_validator_set, validator_set_too_large, total_stake_overflow, zero_total_stake,
}

abbrev pub max_validators : ℕ
max_validators = 128

pub record Validator : Type 0 where
  pub bls_pubkey : ℕ
  pub vrf_pubkey : ℕ
  pub stake : ℕ

pub record ValidatorSet : Type 0 where
  pub validators : List Validator
  pub total_stake : ℕ

-- The loop of `new`: the sum of the stakes, none if it leaves 64 bits.
unfoldable pub add_stakes : ℕ → List Validator → Option ℕ
add_stakes total [] = some total
add_stakes total (v ∷ vs) = elim (checked_add u64_mod total v.stake) [
  | none ↦ none
  | some t ↦ add_stakes t vs
]

-- `ValidatorSet::new`.
unfoldable pub new_set : List Validator → Result BftError ValidatorSet
new_set validators =
    if length validators == 0
    then err empty_validator_set
    else if ltb max_validators (length validators)
    then err (validator_set_too_large (length validators) max_validators)
    else elim (add_stakes 0 validators) [
      | none ↦ err total_stake_overflow
      | some total ↦
          if total == 0
          then err zero_total_stake
          else ok (record { validators = validators; total_stake = total })
    ]

abbrev pub size : ValidatorSet → ℕ
size vs = length vs.validators

-- `(self.total_stake * 2) / 3 + 1`, in 64 bits: the release profile does not check overflow.
unfoldable pub quorum_threshold : ValidatorSet → ℕ
quorum_threshold vs = (vs.total_stake * 2) % u64_mod / 3 + 1

-- The bytes that the leader of a round is drawn from.
unfoldable pub leader_input : ℕ → ℕ → ℕ → List ℕ
leader_input height round seed =
    to_be_bytes 8 height ++ (to_be_bytes 4 round ++ to_be_bytes 32 seed)

-- `pick`: the first eight bytes of their hash, modulo the total stake.
unfoldable pub leader_pick : Crypto → ValidatorSet → ℕ → ℕ → ℕ → ℕ
leader_pick c vs height round seed =
    from_be_bytes (take 8 (to_be_bytes 32 (c.keccak256 (leader_input height round seed))))
    % vs.total_stake

-- The loop of `select_leader` from index i, where the stakes before it sum to `cum`.
unfoldable pub first_above : ℕ → ℕ → ℕ → List Validator → Option ℕ
first_above pick i cum [] = none
first_above pick i cum (v ∷ vs) =
    let next = saturating_add u64_mod cum v.stake in
    let rest = first_above pick (suc i) next vs in if ltb pick next then some i else rest

-- `ValidatorSet::select_leader`.
unfoldable pub select_leader : Crypto → ValidatorSet → ℕ → ℕ → ℕ → ℕ
select_leader c vs height round seed =
    elim (first_above (leader_pick c vs height round seed) 0 0 vs.validators) [
      | some i ↦ i
      | none ↦ size vs - 1
    ]

-- The stakes of a list of validators, as a plain sum.
abbrev pub stakes : List Validator → ℕ
stakes [] = 0
stakes (v ∷ vs) = v.stake + stakes vs

-- What `new` establishes.
pub record IsValid (vs : ValidatorSet) : Type 0 where
  pub summed : vs.total_stake ≡ stakes vs.validators
  pub positive : 0 < vs.total_stake
  pub fits : vs.total_stake < u64_mod
  pub bounded : size vs ≤ max_validators
