-- ===== src/TxPool/Evicting.antt =====
-- `evict_to`: the pool shrinks to the size asked for, by its cheapest entries.
use aii.Base.{
  ℕ, ◌+◌, ◌-◌, ◌≤◌, ◌≡◌, ◌⊎◌, refl, sym, ◌∙◌, subst, true, none, some, List, [], ◌∷◌, ◌++◌, arith,
  Bool-cases, inl, inr, All, leb, length, min, take, drop,
}
use aii.Base.Slices.{All-take, All-map, All-both, All-append, take-drop, split_lengths}
use aii.TxPool.{
  Key, key_eq, PoolEntry, Pool, key_of, find, keys_of, sort_by_price, erase_all, evict_to,
}
use aii.TxPool.Map.{Sorted}
use aii.TxPool.Prices.{
  sort_by_price-All, All-sort_by_price, sort_by_price-Ordered, Ordered-split,
  sort_by_price-Distinct, take-Distinct, length-sort_by_price,
}
use aii.TxPool.Removing.{has_key, Found, find-erase_all, Sorted-Found, length-erase_all}

module _ {Tx : Type 0} where
  -- What holds of all entries holds of one that is found.
  find-All :
      (P : PoolEntry Tx → Type 0) (k : Key) (es : List (PoolEntry Tx)) (x : PoolEntry Tx)
      → All P es
      → find k es ≡ some x
      → P x × (key_of x ≡ k)
  unfolding find
  find-All P k [] x all h = absurd (cc)
  find-All P k (e ∷ es) x all h = elim (Bool-cases (key_eq (key_of e) k)) [
    | inl same ↦
        let at : key_of e ≡ k = ground arith in
        let one : some e ≡ some x = ground (arith, same, h) in
        let is : e ≡ x = cc in subst (λ y. P y × (key_of y ≡ k)) is (all.0, at)
    | inr differs ↦
        let later : find k es ≡ some x = ground (arith, differs, h) in find-All P k es x all.1 later
  ]

  has_key-All :
      (P : PoolEntry Tx → Type 0) (k : Key) (ds : List (PoolEntry Tx))
      → All P ds
      → has_key k ds ≡ true
      → (d : PoolEntry Tx) × (key_of d ≡ k) × P d
  has_key-All P k [] all h = absurd (cc)
  has_key-All P k (d ∷ ds) all h = elim (Bool-cases (key_eq (key_of d) k)) [
    | inl same ↦ (d, ground arith, all.0)
    | inr differs ↦
        let later : has_key k ds ≡ true = ground (arith, differs, h) in
        has_key-All P k ds all.1 later
  ]

  has_key_later :
      (d : PoolEntry Tx) (ds xs : List (PoolEntry Tx))
      → All (λ x. has_key (key_of x) ds ≡ true) xs
      → All (λ x. has_key (key_of x) (d ∷ ds) ≡ true) xs
  has_key_later d ds [] all = tt
  has_key_later d ds (x ∷ xs) all =
      (let first = all.0 in ground (arith, first), has_key_later d ds xs all.1)

  has_key_self : (ds : List (PoolEntry Tx)) → All (λ d. has_key (key_of d) ds ≡ true) ds
  has_key_self [] = tt
  has_key_self (d ∷ ds) = (ground arith, has_key_later d ds ds (has_key_self ds))

  -- The cheapest entries, and the others.
  module _ (es : List (PoolEntry Tx)) (n : ℕ) (s : Sorted es) where
    abbrev cheapest : List (PoolEntry Tx)
    cheapest = take n (sort_by_price es)

    cheapest-Found : Found es cheapest
    cheapest-Found = All-take _ n (sort_by_price es) (sort_by_price-All _ es (Sorted-Found es s))

    -- An entry is among the cheapest, or at least as expensive as one that is.
    cheapest-dear :
        (k k' : Key) (e e' : PoolEntry Tx)
        → find k es ≡ some e
        → find k' es ≡ some e'
        → has_key k cheapest ≡ true
        → (has_key k' cheapest ≡ true) ⊎ (e.effective_gas_price ≤ e'.effective_gas_price)
    cheapest-dear k k' e e' h h' cheap =
        let sorted = sort_by_price es in
        let split = Ordered-split n sorted (sort_by_price-Ordered es) in
        let (d, at, both) =
          has_key-All _ k cheapest (All-both _ _ cheapest cheapest-Found split) cheap in
        let (found, below) = both in
        let same : find k es ≡ some d = subst (λ j. find j es ≡ some d) at found in
        let one : some d ≡ some e = sym same ∙ h in
        let is : d ≡ e = cc in
        let above : All (λ r. e.effective_gas_price ≤ r.effective_gas_price) (drop n sorted) =
          subst (λ x. All (λ r. x.effective_gas_price ≤ r.effective_gas_price) (drop n sorted)) is
            below in
        let Q : PoolEntry Tx → Type 0 = λ y.
          (has_key (key_of y) cheapest ≡ true) ⊎ (e.effective_gas_price ≤ y.effective_gas_price) in
        let parts : All Q (cheapest ++ drop n sorted) =
          All-append Q cheapest (drop n sorted)
            (All-map _ Q cheapest (λ y p. inl p) (has_key_self cheapest))
            (All-map _ Q (drop n sorted) (λ y p. inr p) above) in
        let every : All Q es =
          All-sort_by_price Q es (subst (All Q) (sym (take-drop n sorted)) parts) in
        let (q, at') = find-All Q k' es e' every h' in
        subst (λ j. (has_key j cheapest ≡ true) ⊎ (e.effective_gas_price ≤ e'.effective_gas_price))
          at' q

    length-evicted : n ≤ length es → length (erase_all (keys_of cheapest) es) + n ≡ length es
    length-evicted enough =
        let total = length-sort_by_price es in
        let (size, _) =
          split_lengths n (length es - n) (sort_by_price es) (omega (arith, total, enough)) in
        let count =
          length-erase_all cheapest es s
            (take-Distinct n (sort_by_price es) (sort_by_price-Distinct es s)) cheapest-Found in
        omega (arith, size, count)

  -- What is left of a pool, where an entry goes only if each entry that stays is at least as expensive.
  abbrev pub Evicts : Pool Tx → ℕ → Key → Key → PoolEntry Tx → PoolEntry Tx → Pool Tx → Type 0
  Evicts p target k k' e e' p' =
      (length p'.entries ≡ min (length p.entries) target)
      × (p'.capacity ≡ p.capacity)
      × ((find k p'.entries ≡ none) ⊎ (find k p'.entries ≡ some e))
      × ((find k p'.entries ≡ some e)
          ⊎ (find k' p'.entries ≡ none)
          ⊎ (e.effective_gas_price ≤ e'.effective_gas_price))

  -- On a pool whose keys increase, `evict_to` leaves the size asked for, or the pool as it is if it is not
  -- larger; each entry stays as it is or goes, and of two entries, if the first goes and the second
  -- stays, the first is at most as expensive.
  pub evict_to-Evicts :
      (p : Pool Tx) (target : ℕ) (k k' : Key) (e e' : PoolEntry Tx)
      → Sorted p.entries
      → find k p.entries ≡ some e
      → find k' p.entries ≡ some e'
      → Evicts p target k k' e e' (evict_to p target)
  unfolding evict_to
  evict_to-Evicts p target k k' e e' s h h' = elim (Bool-cases (leb (length p.entries) target)) [
    | inl fits ↦
        let end : evict_to p target ≡ p = ground (arith, fits) in
        subst (Evicts p target k k' e e') (sym end) (ground (arith, fits), refl, inr h, inl h)
    | inr over ↦
        let n = length p.entries - target in
        let gone = cheapest p.entries n s in
        let p' : Pool Tx = record p { entries = erase_all (keys_of gone) p.entries } in
        let end : evict_to p target ≡ p' = ground (arith, over) in
        let size = length-evicted p.entries n s (omega arith) in
        let at = find-erase_all gone p.entries k in
        let at' = find-erase_all gone p.entries k' in
        let fate : ((find k p'.entries ≡ none) ⊎ (find k p'.entries ≡ some e))
            × ((find k p'.entries ≡ some e)
                ⊎ (find k' p'.entries ≡ none)
                ⊎ (e.effective_gas_price ≤ e'.effective_gas_price)) =
          elim (Bool-cases (has_key k gone)) [
            | inl cheap ↦ (
              inl (ground (arith, at, cheap)),
              inr (elim (cheapest-dear p.entries n s k k' e e' h h' cheap) [
                | inl cheap' ↦ inl (ground (arith, at', cheap'))
                | inr le ↦ inr le
              ]),
            )
            | inr dear ↦
                let kept : find k p'.entries ≡ some e = ground (arith, at, dear, h) in
                (inr kept, inl kept)
          ] in
        subst (Evicts p target k k' e e') (sym end)
          (ground (arith, over, size), refl, fate.0, fate.1)
  ]
