-- ===== src/Staking/Tests.antt =====
-- Two stakers on a store in memory: a test, and the theorems applied.
use aii.Base.{
  ℕ, ◌+◌, ◌^◌, ◌<◌, ◌≤◌, ◌≡◌, refl, none, some, List, [], ◌∷◌, ok, arith, All, u64_mod, u256_mod,
}
use aii.Storage.Memory.{Store, new_store}
use aii.Storage.Memory.Laws.{memory_backend}
use aii.Staking.{StakeRecord, get_stake, encode_value, decode_value, read_record}
use aii.Staking.Effects.{StakeOp, bond_more, slash_by, sweep_at, unbond_from, apply}
use aii.Staking.Ledger.{flows, Balances, flows-Balances}

-- Staker 7 bonds, is slashed, leaves at 100 and sweeps too early and in time.
abbrev calls : List (ℕ × StakeOp)
calls =
    (7, bond_more 600)
    ∷ (8, bond_more 90)
    ∷ (7, slash_by 60)
    ∷ (7, unbond_from 100 50)
    ∷ (7, sweep_at 149)
    ∷ (7, sweep_at 150)
    ∷ []

calls-in_range : All (λ call. call.0 < 2 ^ 160) calls
calls-in_range = ground arith

nobody : get_stake memory_backend new_store 7 ≡ ok none
unfolding get_stake new_store read_record memory_backend aii.Storage.Memory.memory_get
    aii.Storage.Memory.map_get
nobody = refl

calls-paid : (flows memory_backend 7 new_store calls).paid ≡ 540
unfolding apply aii.Staking.bond get_stake new_store memory_backend aii.Storage.Memory.memory_get
    aii.Staking.put_stake aii.Storage.Memory.memory_put aii.Storage.Memory.set_family
    aii.Staking.slash read_record aii.Storage.Memory.map_get aii.Storage.Memory.map_insert
    aii.Staking.stake_key aii.Base.to_be_bytes decode_value encode_value aii.Staking.begin_unbond
    aii.Staking.withdraw aii.Base.from_be_bytes aii.Storage.Memory.memory_delete
calls-paid = refl

flows-Balances_example : Balances memory_backend 7 none (flows memory_backend 7 new_store calls)
flows-Balances_example =
    flows-Balances memory_backend 7 new_store calls none (omega arith) calls-in_range nobody tt
