-- ===== src/Vnode/Ledger.antt =====
-- Calls of `apply_stake` and `apply_unstake`, against a ledger of amounts.
use mathlib.Core.Path.{fun_ext}
use aii.Base.{
  ℕ, ◌+◌, ◌-◌, ◌%◌, ◌<◌, ◌≡◌, refl, ap, sym, ◌∙◌, subst, Result, ok, err, Bool-cases, Option-cases,
  inl, inr, leb, ltb, ◌==◌, if◌then◌else◌, arith, u256_mod, false,
}
use aii.Base.Maps.{map_get, map_insert, map_remove}
use aii.Vnode.{
  VNode, VSet, VNodeError, zero_amount, unknown, underflow, min_stake_wei, apply_stake,
  apply_unstake,
}
use aii.Vnode.Accounts.{Account, VSetInv, stake_of, put-Inv, put-stake, drop-Inv, drop-stake}

abbrev pub Ledger : Type 0
Ledger = ℕ → ℕ

abbrev pub set_amount : Ledger → ℕ → ℕ → Ledger
set_amount f a n k = if a == k then n else f k

-- The calls, on the ledger: an amount is added to an account, or taken from one that has it.
abbrev pub add_amount : Ledger → ℕ → ℕ → Ledger × Result VNodeError Unit
add_amount f a n = if n == 0 then (f, err zero_amount) else (set_amount f a (f a + n), ok tt)

abbrev pub take_amount : Ledger → ℕ → ℕ → Ledger × Result VNodeError Unit
take_amount f a n =
    if f a == 0
    then (f, err unknown)
    else if ltb (f a) n
    then (f, err underflow)
    else (set_amount f a (f a - n), ok tt)

-- The set as a ledger.
abbrev pub view : VSet × Result VNodeError Unit → Ledger × Result VNodeError Unit
view (s, r) = (λ k. stake_of s k, r)

abbrev pub Refines : VSet × Result VNodeError Unit → Ledger × Result VNodeError Unit → Type 0
Refines o p = VSetInv o.0 × (view o ≡ p)

Refines-transport :
    {o o' : VSet × Result VNodeError Unit} {p p' : Ledger × Result VNodeError Unit}
    → o ≡ o'
    → p ≡ p'
    → Refines o' p'
    → Refines o p
Refines-transport {o} {o'} {p} {p'} x y r =
    subst (λ u. Refines u p) (sym x) (subst (λ u. Refines o' u) (sym y) r)

put-Refines :
    (s : VSet) (a : ℕ) (v : VNode)
    → VSetInv s
    → Account a v
    → Refines
        (record { nodes = map_insert a v s.nodes }, ok tt)
        (set_amount (λ k. stake_of s k) a v.stake, ok tt)
put-Refines s a v i account =
    (put-Inv s a v i account, ap (λ f. (f, ok tt)) (fun_ext (λ k. put-stake s a v k)))

drop-Refines :
    (s : VSet) (a : ℕ)
    → VSetInv s
    → Refines
        (record { nodes = map_remove a s.nodes }, ok tt)
        (set_amount (λ k. stake_of s k) a 0, ok tt)
drop-Refines s a i = (drop-Inv s a i, ap (λ f. (f, ok tt)) (fun_ext (λ k. drop-stake s a k i)))

pub apply_stake-Refines :
    (s : VSet) (a pk n : ℕ)
    → VSetInv s
    → stake_of s a + n < u256_mod
    → Refines (apply_stake s a pk n) (add_amount (λ k. stake_of s k) a n)
unfolding apply_stake
apply_stake-Refines s a pk n i small =
    let f : Ledger = λ k. stake_of s k in
    elim (Bool-cases (n == 0)) [
      | inl zero ↦
          let end : apply_stake s a pk n ≡ (s, err zero_amount) = ground (arith, zero) in
          let goal : add_amount f a n ≡ (f, err zero_amount) = ground (arith, zero) in
          Refines-transport end goal (i, refl)
      | inr more ↦ elim (Option-cases (map_get a s.nodes)) [
        | inl absent ↦
            let v : VNode = record {
              address = a;
              bls_pubkey = pk;
              stake = n;
              active = leb min_stake_wei n;
            } in
            let none_yet : stake_of s a ≡ 0 = ground (arith, absent) in
            let whole : (0 + n) % u256_mod ≡ n = omega (arith, none_yet, small) in
            let end : apply_stake s a pk n ≡ (record { nodes = map_insert a v s.nodes }, ok tt) =
              ground (arith, more, absent, whole) in
            let goal : add_amount f a n ≡ (set_amount f a n, ok tt) =
              ground (arith, more, absent) in
            Refines-transport end goal (
              put-Refines s a v i
                (record { own = refl; staked = ground (arith, more); flag = refl }))
        | inr (w, present) ↦
            let total = w.stake + n in
            let v : VNode = record w { stake = total; active = leb min_stake_wei total } in
            let had : stake_of s a ≡ w.stake = ground (arith, present) in
            let whole : total % u256_mod ≡ total = omega (arith, had, small) in
            let end : apply_stake s a pk n ≡ (record { nodes = map_insert a v s.nodes }, ok tt) =
              ground (arith, more, present, whole) in
            let goal : add_amount f a n ≡ (set_amount f a total, ok tt) =
              ground (arith, more, had) in
            Refines-transport end goal (
              put-Refines s a v i (record {
                own = (i.accounts a w present).own;
                staked = ground (arith, more);
                flag = refl;
              }))
      ]
    ]

pub apply_unstake-Refines :
    (s : VSet) (a n : ℕ)
    → VSetInv s
    → Refines (apply_unstake s a n) (take_amount (λ k. stake_of s k) a n)
unfolding apply_unstake
apply_unstake-Refines s a n i =
    let f : Ledger = λ k. stake_of s k in
    elim (Option-cases (map_get a s.nodes)) [
      | inl absent ↦
          let end : apply_unstake s a n ≡ (s, err unknown) = ground (arith, absent) in
          let goal : take_amount f a n ≡ (f, err unknown) = ground (arith, absent) in
          Refines-transport end goal (i, refl)
      | inr (w, present) ↦
          let had : stake_of s a ≡ w.stake = ground (arith, present) in
          let staked = (i.accounts a w present).staked in
          let known : (w.stake == 0) ≡ false = ground (arith, staked) in
          elim (Bool-cases (ltb w.stake n)) [
            | inl short ↦
                let end : apply_unstake s a n ≡ (s, err underflow) =
                  ground (arith, present, short) in
                let goal : take_amount f a n ≡ (f, err underflow) =
                  ground (arith, had, known, short) in
                Refines-transport end goal (i, refl)
            | inr enough ↦
                let goal : take_amount f a n ≡ (set_amount f a (w.stake - n), ok tt) =
                  ground (arith, had, known, enough) in
                elim (Bool-cases (w.stake - n == 0)) [
                  | inl all ↦
                      let end : apply_unstake s a n
                          ≡ (record { nodes = map_remove a s.nodes }, ok tt) =
                        ground (arith, present, enough, all) in
                      let nothing : 0 ≡ w.stake - n = ground (arith, all) in
                      Refines-transport end
                        (goal ∙ ap (λ k. (set_amount f a k, ok tt)) (sym nothing))
                        (drop-Refines s a i)
                  | inr some_left ↦
                      let left = w.stake - n in
                      let v : VNode = record w { stake = left; active = leb min_stake_wei left } in
                      let end : apply_unstake s a n
                          ≡ (record { nodes = map_insert a v s.nodes }, ok tt) =
                        ground (arith, present, enough, some_left) in
                      Refines-transport end goal (
                        put-Refines s a v i (record {
                          own = (i.accounts a w present).own;
                          staked = ground (arith, some_left);
                          flag = refl;
                        }))
                ]
          ]
    ]
