-- ===== src/Vnode/Tests.antt =====
-- Two validators: tests, and the theorems applied.
use aii.Base.{
  ℕ, ◌+◌, ◌*◌, ◌≡◌, ◌≤◌, ◌<◌, ◌/◌, ◌⊎◌, refl, List, [], ◌∷◌, ok, err, arith, true, false, u256_mod,
}
use aii.Vnode.{
  unknown, new_vset, min_stake_wei, total_active_stake, apply_stake, apply_unstake, active_nodes,
  add_stakes,
}
use aii.Vnode.Accounts.{VSetInv, stake_of}
use aii.Vnode.Runs.{Call, stake, unstake, apply_calls, ledger_calls, apply_calls-ledger_calls}

-- The second validator is below the minimum until it adds to its stake.
abbrev calls : List Call
calls =
    stake 8 80 min_stake_wei
    ∷ stake 3 30 (min_stake_wei * 2)
    ∷ unstake 3 (min_stake_wei + 5)
    ∷ unstake 9 1
    ∷ []

calls-run : (apply_calls new_vset calls).1 ≡ ok tt ∷ ok tt ∷ ok tt ∷ err unknown ∷ []
unfolding apply_stake apply_unstake aii.Base.Maps.map_get aii.Base.Maps.map_insert
    aii.Base.Maps.map_remove
calls-run = refl

calls-total : total_active_stake (apply_calls new_vset calls).0 ≡ min_stake_wei
unfolding total_active_stake active_nodes add_stakes apply_stake apply_unstake aii.Base.Maps.map_get
    aii.Base.Maps.map_insert aii.Base.Maps.map_remove
calls-total = refl

apply_calls-ledger_calls_example :
    let (s, rs) = apply_calls new_vset calls in
    VSetInv s × (((λ k. stake_of s k), rs) ≡ ledger_calls (λ _. 0) calls)
apply_calls-ledger_calls_example = apply_calls-ledger_calls calls (omega arith)
