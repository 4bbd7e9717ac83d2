-- ===== src/TxPool/Adding.antt =====
-- What `add` does in each case, and the invariant of the pool.
use aii.Base.{
  suc, ◌≤◌, ◌<◌, ◌≡◌, ◌⊎◌, refl, ap, sym, ◌∙◌, subst, if◌then◌else◌, none, some, ok, err, Result,
  arith, Bool-cases, Option-cases, inl, inr, length, leb,
}
use aii.TxPool.{
  Key, key_eq, PoolEntry, Pool, AddOutcome, inserted, rejected_underpriced, replaced, PoolError,
  full, key_of, find, insert, add,
}
use aii.TxPool.Map.{
  Sorted, find-insert, find-insert_other, length-insert_new, length-insert_found, insert-Sorted,
}

module _ {Tx : Type 0} where
  -- The keys increase, and the pool is not over its capacity.
  pub record PoolInv (p : Pool Tx) : Type 0 where
    pub sorted : Sorted p.entries
    pub within : length p.entries ≤ p.capacity

  -- The entry of each key after an entry is put in.
  abbrev Holds : PoolEntry Tx → Key → Pool Tx → Pool Tx → Type 0
  Holds e k p p' = find k p'.entries ≡ (if key_eq (key_of e) k then some e else find k p.entries)

  -- What a call of `add` may come to: the pool is full and nothing changes; an entry of the same sender
  -- and nonce is at least as expensive, and nothing changes; or it is cheaper and is replaced; or
  -- there is none, and the entry is added.
  abbrev pub Adds :
      Pool Tx → PoolEntry Tx → Key → Pool Tx → Result PoolError (AddOutcome Tx) → Type 0
  Adds p e k p' r =
      ((p.capacity ≤ length p.entries) × (r ≡ err full) × (p' ≡ p))
      ⊎ ((old : PoolEntry Tx) × (find (key_of e) p.entries ≡ some old)
          × (e.effective_gas_price ≤ old.effective_gas_price)
          × (r ≡ ok rejected_underpriced)
          × (p' ≡ p))
      ⊎ ((old : PoolEntry Tx) × (find (key_of e) p.entries ≡ some old)
          × (old.effective_gas_price < e.effective_gas_price)
          × (r ≡ ok (replaced old))
          × Holds e k p p'
          × (length p'.entries ≡ length p.entries))
      ⊎ ((find (key_of e) p.entries ≡ none)
          × (r ≡ ok inserted)
          × Holds e k p p'
          × (length p'.entries ≡ suc (length p.entries)))

  put_in : Pool Tx → PoolEntry Tx → Pool Tx
  put_in p e = record p { entries = insert e p.entries }

  put_in-Holds : (p : Pool Tx) (e : PoolEntry Tx) (k : Key) → Holds e k p (put_in p e)
  unfolding put_in
  put_in-Holds p e k = elim (Bool-cases (key_eq (key_of e) k)) [
    | inl same ↦
        let at : key_of e ≡ k = ground arith in
        ap (λ j. find j (insert e p.entries)) (sym at)
        ∙ find-insert e p.entries
        ∙ ground (arith, same)
    | inr other ↦ find-insert_other e k p.entries other ∙ ground (arith, other)
  ]

  -- On a pool whose keys increase and that is not over its capacity, `add` does one of the four, where
  -- each key keeps its entry but for that of the entry put in, and the pool stays so and keeps its
  -- capacity.
  pub add_lem :
      (p : Pool Tx) (e : PoolEntry Tx) (k : Key)
      → PoolInv p
      → let (p', r) = add p e in Adds p e k p' r × PoolInv p' × (p'.capacity ≡ p.capacity)
  unfolding add put_in
  add_lem p e k i =
      let goal : Pool Tx × Result PoolError (AddOutcome Tx) → Type 0 =
        λ o. Adds p e k o.0 o.1 × PoolInv o.0 × (o.0.capacity ≡ p.capacity) in
      elim (Bool-cases (leb p.capacity (length p.entries))) [
        | inl is_full ↦
            let done : add p e ≡ (p, err full) = ground (arith, is_full) in
            subst goal (sym done) (inl (ground arith, refl, refl), i, refl)
        | inr room ↦ elim (Option-cases (find (key_of e) p.entries)) [
          | inl absent ↦
              let done : add p e ≡ (put_in p e, ok inserted) = ground (arith, room, absent) in
              let longer = length-insert_new e p.entries absent in
              subst goal (sym done) (
                inr (inr (inr (absent, refl, put_in-Holds p e k, longer))),
                record {
                  sorted = insert-Sorted e p.entries i.sorted;
                  within = ground (arith, longer);
                },
                refl,
              )
          | inr (old, present) ↦
              elim (Bool-cases (leb e.effective_gas_price old.effective_gas_price)) [
                | inl dear ↦
                    let done : add p e ≡ (p, ok rejected_underpriced) =
                      ground (arith, room, present, dear) in
                    subst goal (sym done)
                      (inr (inl (old, present, ground arith, refl, refl)), i, refl)
                | inr cheap ↦
                    let done : add p e ≡ (put_in p e, ok (replaced old)) =
                      ground (arith, room, present, cheap) in
                    let same = length-insert_found e p.entries old i.sorted present in
                    subst goal (sym done) (
                      inr (inr (inl (old, present, ground arith, refl, put_in-Holds p e k, same))),
                      record {
                        sorted = insert-Sorted e p.entries i.sorted;
                        within = let w = i.within in omega (arith, same, w);
                      },
                      refl,
                    )
              ]
        ]
      ]
