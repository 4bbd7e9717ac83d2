-- ===== src/Vnode/Runs.antt =====
-- Lists of calls on a set: what they leave and what they return is what a ledger of amounts says.
use aii.Base.{
  ℕ, ◌+◌, ◌≤◌, ◌<◌, ◌≡◌, refl, ap, sym, ◌∙◌, subst, List, [], ◌∷◌, Result, arith, u256_mod, map_err,
  leb, ltb, ◌==◌, if◌then◌else◌,
}
use aii.Vnode.{VSet, VNodeError, new_vset, apply_stake, apply_unstake}
use aii.Vnode.Accounts.{VSetInv, stake_of}
use aii.Vnode.Ledger.{
  Ledger, add_amount, take_amount, Refines, apply_stake-Refines, apply_unstake-Refines,
}

-- A call: an amount staked for an address and a key, or unstaked.
pub data Call : Type 0 where
  stake : ℕ → ℕ → ℕ → Call
  unstake : ℕ → ℕ → Call

abbrev pub apply_call : VSet → Call → VSet × Result VNodeError Unit
apply_call s (stake a pk n) = apply_stake s a pk n
apply_call s (unstake a n) = apply_unstake s a n

abbrev pub apply_calls : VSet → List Call → VSet × List (Result VNodeError Unit)
apply_calls s [] = (s, [])
apply_calls s (call ∷ calls) =
    let o = apply_call s call in let rest = apply_calls o.0 calls in (rest.0, o.1 ∷ rest.1)

abbrev pub ledger_call : Ledger → Call → Ledger × Result VNodeError Unit
ledger_call f (stake a pk n) = add_amount f a n
ledger_call f (unstake a n) = take_amount f a n

abbrev pub ledger_calls : Ledger → List Call → Ledger × List (Result VNodeError Unit)
ledger_calls f [] = (f, [])
ledger_calls f (call ∷ calls) =
    let o = ledger_call f call in let rest = ledger_calls o.0 calls in (rest.0, o.1 ∷ rest.1)

abbrev credit : Call → ℕ
credit (stake a pk n) = n
credit (unstake a n) = 0

-- The sum of the amounts staked.
abbrev pub credited : List Call → ℕ
credited [] = 0
credited (call ∷ calls) = credit call + credited calls

ledger_call-credit :
    (f : Ledger) (call : Call) (k : ℕ) → (ledger_call f call).0 k ≤ f k + credit call
ledger_call-credit f (stake a pk n) k = ground arith
ledger_call-credit f (unstake a n) k = ground arith

apply_call-Refines :
    (s : VSet) (call : Call)
    → VSetInv s
    → ((k : ℕ) → stake_of s k + credit call < u256_mod)
    → Refines (apply_call s call) (ledger_call (λ k. stake_of s k) call)
apply_call-Refines s (stake a pk n) i small = apply_stake-Refines s a pk n i (small a)
apply_call-Refines s (unstake a n) i small = apply_unstake-Refines s a n i

apply_calls-Refines :
    (s : VSet) (calls : List Call)
    → VSetInv s
    → ((k : ℕ) → stake_of s k + credited calls < u256_mod)
    → let (s', rs) = apply_calls s calls in
      VSetInv s' × (((λ k. stake_of s' k), rs) ≡ ledger_calls (λ k. stake_of s k) calls)
apply_calls-Refines s [] i small = (i, refl)
apply_calls-Refines s (call ∷ calls) i small =
    let (i', one) = apply_call-Refines s call i (λ k. let w = small k in omega (arith, w)) in
    let s' = (apply_call s call).0 in
    let next = apply_calls-Refines s' calls i' (λ k.
      let now : stake_of s' k ≡ (ledger_call (λ j. stake_of s j) call).0 k = ap (λ p. p.0 k) one in
      let most = ledger_call-credit (λ j. stake_of s j) call k in
      let w = small k in omega (arith, now, most, w)) in
    (
      next.0,
      ap (λ p. (p.0, (apply_call s call).1 ∷ p.1)) next.1
          ∙ ap (λ p. ((ledger_calls p.0 calls).0, p.1 ∷ (ledger_calls p.0 calls).1)) one,
    )

-- The calls `apply_stake` and `apply_unstake` on a new set return what they would on a ledger of amounts
-- that starts empty, and the stake of each address is what the ledger has, if the amounts staked add up
-- to less than 2 ^ 256; the addresses of the set increase, and each has its own record, with a stake
-- that is not zero, active just if the stake is at least the minimum.
pub apply_calls-ledger_calls :
    (calls : List Call)
    → credited calls < u256_mod
    → let (s, rs) = apply_calls new_vset calls in
      VSetInv s × (((λ k. stake_of s k), rs) ≡ ledger_calls (λ _. 0) calls)
unfolding aii.Base.Maps.map_get
apply_calls-ledger_calls calls small =
    apply_calls-Refines new_vset calls
      (record { increasing = tt; accounts = λ k v h. ground (arith, h) })
      (λ k. omega (arith, small))
