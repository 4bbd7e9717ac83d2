-- ===== src/Vnode.antt =====
-- The validator accounts of crates/aii-vnode/src/lib.rs: `VNode`, `VSet` and `split_reward`. Amounts
-- are numbers below 2 ^ 256, on which `+`, `-` and `*` wrap.
pub mod Accounts
pub mod Ledger
pub mod Reward
pub mod Runs
mod Tests
use aii.Base.{
  ℕ, ◌+◌, ◌-◌, ◌*◌, ◌/◌, ◌%◌, ◌^◌, List, [], ◌∷◌, none, some, Result, ok, err, Bool, false, leb,
  ltb, ◌==◌, if◌then◌else◌, u256_mod,
}
use aii.Base.Maps.{map_get, map_insert, map_remove}

abbrev pub min_stake_wei : ℕ
min_stake_wei = 100000 * 1000000000000000000

abbrev validator_share_pct : ℕ
validator_share_pct = 80

pub record VNode : Type 0 where
  pub address : ℕ
  pub bls_pubkey : ℕ
  pub stake : ℕ
  pub active : Bool

pub record VSet : Type 0 where
  pub nodes : List (ℕ × VNode)

pub data VNodeError : Type 0 where
  zero_amount unknown underflow : VNodeError

-- `VNode::meets_minimum_stake`.
abbrev pub meets_minimum_stake : VNode → Bool
meets_minimum_stake v = leb min_stake_wei v.stake

-- `VSet::new`.
abbrev pub new_vset : VSet
new_vset = record { nodes = [] }

unfoldable pub active_nodes : List (ℕ × VNode) → List VNode
active_nodes [] = []
active_nodes ((a, v) ∷ m) = let rest = active_nodes m in if v.active then v ∷ rest else rest

unfoldable pub add_stakes : ℕ → List VNode → ℕ
add_stakes acc [] = acc
add_stakes acc (v ∷ vs) = add_stakes ((acc + v.stake) % u256_mod) vs

-- `VSet::total_active_stake`.
unfoldable pub total_active_stake : VSet → ℕ
total_active_stake s = add_stakes 0 (active_nodes s.nodes)

-- `VSet::apply_stake`.
unfoldable pub apply_stake : VSet → ℕ → ℕ → ℕ → VSet × Result VNodeError Unit
apply_stake s address bls_pubkey amount =
    let entry : VNode = elim (map_get address s.nodes) [
      | none ↦ record { address = address; bls_pubkey = bls_pubkey; stake = 0; active = false }
      | some v ↦ v
    ] in
    let topped : VNode = record entry { stake = (entry.stake + amount) % u256_mod } in
    if amount == 0 then (s, err zero_amount) else (
      record {
        nodes = map_insert address (record topped { active = meets_minimum_stake topped }) s.nodes;
      },
      ok tt,
    )

-- `VSet::apply_unstake`.
unfoldable pub apply_unstake : VSet → ℕ → ℕ → VSet × Result VNodeError Unit
apply_unstake s address amount = elim (map_get address s.nodes) [
  | none ↦ (s, err unknown)
  | some v ↦
      let left : VNode = record v { stake = v.stake - amount } in
      if ltb v.stake amount
      then (s, err underflow)
      else if left.stake == 0
      then (record { nodes = map_remove address s.nodes }, ok tt)
      else (
        record {
          nodes = map_insert address (record left { active = meets_minimum_stake left }) s.nodes;
        },
        ok tt,
      )
]

-- `split_reward`: the shares of the validator and of the treasury.
unfoldable pub split_reward : ℕ → ℕ × ℕ
split_reward total =
    let validator = total * validator_share_pct % u256_mod / 100 in
    (validator, (total + (u256_mod - validator)) % u256_mod)
