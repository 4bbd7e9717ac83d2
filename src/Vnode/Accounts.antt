-- ===== src/Vnode/Accounts.antt =====
-- The accounts as a ledger of amounts: `apply_stake` adds to one, `apply_unstake` takes from one.
use aii.Base.{
  ℕ, ◌<◌, ◌≡◌, sym, ◌∙◌, subst, Option, none, some, Bool-cases, inl, inr, leb, ◌==◌, if◌then◌else◌,
  arith,
}
use aii.Base.Maps.{
  map_get, map_insert, map_remove, Increasing, map_get-insert, map_get-insert_other, map_get-remove,
  map_get-remove_other, insert-Increasing, remove-Increasing,
}
use aii.Vnode.{VNode, VSet, min_stake_wei}

-- A record under its own address, with a stake that is not zero, active if that is enough.
pub record Account (k : ℕ) (v : VNode) : Type 0 where
  pub own : v.address ≡ k
  pub staked : 0 < v.stake
  pub flag : v.active ≡ leb min_stake_wei v.stake

pub record VSetInv (s : VSet) : Type 0 where
  pub increasing : Increasing s.nodes
  pub accounts : (k : ℕ) (v : VNode) → map_get k s.nodes ≡ some v → Account k v

abbrev pub stake_in : Option VNode → ℕ
stake_in none = 0
stake_in (some v) = v.stake

abbrev pub stake_of : VSet → ℕ → ℕ
stake_of s k = stake_in (map_get k s.nodes)

-- A record put in.
pub put-Inv :
    (s : VSet) (a : ℕ) (v : VNode)
    → VSetInv s
    → Account a v
    → VSetInv (record { nodes = map_insert a v s.nodes })
put-Inv s a v i account = record {
  increasing = insert-Increasing a v s.nodes i.increasing;
  accounts = λ k w h. elim (Bool-cases (a == k)) [
    | inl same ↦
        let at : a ≡ k = ground arith in
        let found : map_get k (map_insert a v s.nodes) ≡ some v =
          subst (λ j. map_get j (map_insert a v s.nodes) ≡ some v) at
            (map_get-insert a v s.nodes) in
        let one : v ≡ w = cc in subst (Account k) one (subst (λ j. Account j v) at account)
    | inr other ↦ i.accounts k w (sym (map_get-insert_other a k v s.nodes other) ∙ h)
  ];
}

pub put-stake :
    (s : VSet) (a : ℕ) (v : VNode) (k : ℕ)
    → stake_of (record { nodes = map_insert a v s.nodes }) k
      ≡ (if a == k then v.stake else stake_of s k)
put-stake s a v k = elim (Bool-cases (a == k)) [
  | inl same ↦
      let at : a ≡ k = ground arith in
      let found : map_get k (map_insert a v s.nodes) ≡ some v =
        subst (λ j. map_get j (map_insert a v s.nodes) ≡ some v) at (map_get-insert a v s.nodes) in
      ground (arith, same, found)
  | inr other ↦ let kept = map_get-insert_other a k v s.nodes other in ground (arith, other, kept)
]

pub drop-Inv : (s : VSet) (a : ℕ) → VSetInv s → VSetInv (record { nodes = map_remove a s.nodes })
drop-Inv s a i = record {
  increasing = remove-Increasing a s.nodes i.increasing;
  accounts = λ k w h. elim (Bool-cases (a == k)) [
    | inl same ↦
        let at : a ≡ k = ground arith in
        let gone : map_get k (map_remove a s.nodes) ≡ none =
          subst (λ j. map_get j (map_remove a s.nodes) ≡ none) at
            (map_get-remove a s.nodes i.increasing) in
        ground (arith, gone, h)
    | inr other ↦ i.accounts k w (sym (map_get-remove_other a k s.nodes other) ∙ h)
  ];
}

pub drop-stake :
    (s : VSet) (a k : ℕ)
    → VSetInv s
    → stake_of (record { nodes = map_remove a s.nodes }) k ≡ (if a == k then 0 else stake_of s k)
drop-stake s a k i = elim (Bool-cases (a == k)) [
  | inl same ↦
      let at : a ≡ k = ground arith in
      let gone : map_get k (map_remove a s.nodes) ≡ none =
        subst (λ j. map_get j (map_remove a s.nodes) ≡ none) at
          (map_get-remove a s.nodes i.increasing) in
      ground (arith, same, gone)
  | inr other ↦ let kept = map_get-remove_other a k s.nodes other in ground (arith, other, kept)
]
