-- ===== src/TxPool/Prices.antt =====
-- The sort of `evict_to` by price: it orders the entries and keeps them, each once.
use aii.Base.{
  length, ℕ, zero, suc, ◌≤◌, ◌≡◌, refl, ap, ◌∙◌, subst, true, false, List, [], ◌∷◌, arith,
  Bool-cases, inl, inr, All, leb, take, drop,
}
use aii.TxPool.{key_eq, key_lt, PoolEntry, key_of, by_price, sort_by_price}
use aii.Base.Slices.{All-take, All-drop}
use aii.TxPool.Map.{Sorted}

module _ {Tx : Type 0} where
  -- The prices do not decrease.
  abbrev pub Ordered : List (PoolEntry Tx) → Type 0
  Ordered [] = Unit
  Ordered (x ∷ xs) = All (λ y. x.effective_gas_price ≤ y.effective_gas_price) xs × Ordered xs

  -- No key comes twice.
  abbrev pub Distinct : List (PoolEntry Tx) → Type 0
  Distinct [] = Unit
  Distinct (x ∷ xs) = All (λ y. key_eq (key_of x) (key_of y) ≡ false) xs × Distinct xs

  by_price-All :
      (P : PoolEntry Tx → Type 0) (x : PoolEntry Tx) (xs : List (PoolEntry Tx))
      → P x
      → All P xs
      → All P (by_price x xs)
  unfolding by_price
  by_price-All P x [] px all = (px, tt)
  by_price-All P x (y ∷ ys) px all =
      elim (Bool-cases (leb x.effective_gas_price y.effective_gas_price)) [
        | inl low ↦ rw low (px, all)
        | inr high ↦ rw high (all.0, by_price-All P x ys px all.1)
      ]

  pub sort_by_price-All :
      (P : PoolEntry Tx → Type 0) (xs : List (PoolEntry Tx)) → All P xs → All P (sort_by_price xs)
  unfolding sort_by_price
  sort_by_price-All P [] all = tt
  sort_by_price-All P (x ∷ xs) all =
      by_price-All P x (sort_by_price xs) all.0 (sort_by_price-All P xs all.1)

  All-by_price :
      (P : PoolEntry Tx → Type 0) (x : PoolEntry Tx) (xs : List (PoolEntry Tx))
      → All P (by_price x xs)
      → P x × All P xs
  unfolding by_price
  All-by_price P x [] all = (all.0, tt)
  All-by_price P x (y ∷ ys) all =
      elim (Bool-cases (leb x.effective_gas_price y.effective_gas_price)) [
        | inl low ↦
            let same : by_price x (y ∷ ys) ≡ x ∷ y ∷ ys = ground (arith, low) in
            subst (All P) same all
        | inr high ↦
            let same : by_price x (y ∷ ys) ≡ y ∷ by_price x ys = ground (arith, high) in
            let (py, rest) = subst (All P) same all in
            let (px, pys) = All-by_price P x ys rest in (px, (py, pys))
      ]

  pub All-sort_by_price :
      (P : PoolEntry Tx → Type 0) (xs : List (PoolEntry Tx)) → All P (sort_by_price xs) → All P xs
  unfolding sort_by_price
  All-sort_by_price P [] all = tt
  All-sort_by_price P (x ∷ xs) all =
      let (px, rest) = All-by_price P x (sort_by_price xs) all in (px, All-sort_by_price P xs rest)

  All-weaken :
      (a b : ℕ) (xs : List (PoolEntry Tx))
      → a ≤ b
      → All (λ y. b ≤ y.effective_gas_price) xs
      → All (λ y. a ≤ y.effective_gas_price) xs
  All-weaken a b [] h all = tt
  All-weaken a b (x ∷ xs) h all =
      (let first = all.0 in omega (arith, h, first), All-weaken a b xs h all.1)

  by_price-Ordered :
      (x : PoolEntry Tx) (xs : List (PoolEntry Tx)) → Ordered xs → Ordered (by_price x xs)
  unfolding by_price
  by_price-Ordered x [] o = (tt, tt)
  by_price-Ordered x (y ∷ ys) o =
      elim (Bool-cases (leb x.effective_gas_price y.effective_gas_price)) [
        | inl low ↦
            let le : x.effective_gas_price ≤ y.effective_gas_price = ground arith in
            rw low ((le, All-weaken x.effective_gas_price y.effective_gas_price ys le o.0), o)
        | inr high ↦
            let le : y.effective_gas_price ≤ x.effective_gas_price = ground arith in
            rw high (by_price-All _ x ys le o.0, by_price-Ordered x ys o.1)
      ]

  pub sort_by_price-Ordered : (xs : List (PoolEntry Tx)) → Ordered (sort_by_price xs)
  unfolding sort_by_price
  sort_by_price-Ordered [] = tt
  sort_by_price-Ordered (x ∷ xs) = by_price-Ordered x (sort_by_price xs) (sort_by_price-Ordered xs)

  by_price-Distinct :
      (x : PoolEntry Tx) (xs : List (PoolEntry Tx))
      → All (λ y. key_eq (key_of x) (key_of y) ≡ false) xs
      → Distinct xs
      → Distinct (by_price x xs)
  unfolding by_price
  by_price-Distinct x [] new d = (tt, tt)
  by_price-Distinct x (y ∷ ys) new d =
      elim (Bool-cases (leb x.effective_gas_price y.effective_gas_price)) [
        | inl low ↦ rw low (new, d)
        | inr high ↦
            let first = new.0 in
            let other : key_eq (key_of y) (key_of x) ≡ false = ground (arith, first) in
            rw high (by_price-All _ x ys other d.0, by_price-Distinct x ys new.1 d.1)
      ]

  All-differ :
      (x : PoolEntry Tx) (xs : List (PoolEntry Tx))
      → All (λ y. key_lt (key_of x) (key_of y) ≡ true) xs
      → All (λ y. key_eq (key_of x) (key_of y) ≡ false) xs
  All-differ x [] all = tt
  All-differ x (y ∷ ys) all = (let first = all.0 in ground (arith, first), All-differ x ys all.1)

  pub sort_by_price-Distinct : (xs : List (PoolEntry Tx)) → Sorted xs → Distinct (sort_by_price xs)
  unfolding sort_by_price
  sort_by_price-Distinct [] s = tt
  sort_by_price-Distinct (x ∷ xs) s =
      by_price-Distinct x (sort_by_price xs) (sort_by_price-All _ xs (All-differ x xs s.0))
        (sort_by_price-Distinct xs s.1)

  pub take-Distinct : (n : ℕ) (xs : List (PoolEntry Tx)) → Distinct xs → Distinct (take n xs)
  take-Distinct zero xs d = tt
  take-Distinct (suc n) [] d = tt
  take-Distinct (suc n) (x ∷ xs) d = (All-take _ n xs d.0, take-Distinct n xs d.1)

  length-by_price :
      (x : PoolEntry Tx) (xs : List (PoolEntry Tx)) → length (by_price x xs) ≡ suc (length xs)
  unfolding by_price
  length-by_price x [] = refl
  length-by_price x (y ∷ ys) = ground (arith, length-by_price x ys)

  pub length-sort_by_price : (xs : List (PoolEntry Tx)) → length (sort_by_price xs) ≡ length xs
  unfolding sort_by_price
  length-sort_by_price [] = refl
  length-sort_by_price (x ∷ xs) =
      length-by_price x (sort_by_price xs) ∙ ap suc (length-sort_by_price xs)

  -- The first entries are at most as expensive as the others.
  pub Ordered-split :
      (n : ℕ) (xs : List (PoolEntry Tx))
      → Ordered xs
      → All (λ d. All (λ r. d.effective_gas_price ≤ r.effective_gas_price) (drop n xs)) (take n xs)
  Ordered-split zero xs o = tt
  Ordered-split (suc n) [] o = tt
  Ordered-split (suc n) (x ∷ xs) o = (All-drop _ n xs o.0, Ordered-split n xs o.1)
