-- ===== src/TxPool/Removing.antt =====
-- The loop of `evict_to`, which removes entries by their keys.
use aii.Base.{
  suc, ◌+◌, ◌≡◌, refl, subst, Bool, true, false, ◌||◌, none, some, List, [], ◌∷◌, arith, Bool-cases,
  inl, inr, All, length, if◌then◌else◌,
}
use aii.TxPool.{Key, key_eq, key_lt, PoolEntry, key_of, find, erase, keys_of, erase_all}
use aii.TxPool.Map.{Sorted, find-erase, erase-Sorted}
use aii.TxPool.Batching.{erase-above}
use aii.TxPool.Prices.{Distinct}

module _ {Tx : Type 0} where
  abbrev pub has_key : Key → List (PoolEntry Tx) → Bool
  has_key k [] = false
  has_key k (d ∷ ds) = key_eq (key_of d) k || has_key k ds

  -- Each entry is that of its key.
  abbrev pub Found : List (PoolEntry Tx) → List (PoolEntry Tx) → Type 0
  Found es = All (λ d. find (key_of d) es ≡ some d)

  pub find-erase_all :
      (ds es : List (PoolEntry Tx)) (k : Key)
      → find k (erase_all (keys_of ds) es) ≡ (if has_key k ds then none else find k es)
  unfolding erase_all
  find-erase_all [] es k = refl
  find-erase_all (d ∷ ds) es k =
      ground (arith, find-erase_all ds (erase (key_of d) es) k, find-erase (key_of d) k es)

  Found-later :
      (e : PoolEntry Tx) (ds es : List (PoolEntry Tx))
      → All (λ y. key_lt (key_of e) (key_of y) ≡ true) ds
      → Found es ds
      → Found (e ∷ es) ds
  unfolding find
  Found-later e [] es above found = tt
  Found-later e (d ∷ ds) es above found =
      let first = above.0 in
      let here = found.0 in (ground (arith, first, here), Found-later e ds es above.1 found.1)

  pub Sorted-Found : (es : List (PoolEntry Tx)) → Sorted es → Found es es
  unfolding find
  Sorted-Found [] s = tt
  Sorted-Found (e ∷ es) s = (ground arith, Found-later e es es s.0 (Sorted-Found es s.1))

  length-erase :
      (k : Key) (es : List (PoolEntry Tx)) (x : PoolEntry Tx)
      → Sorted es
      → find k es ≡ some x
      → suc (length (erase k es)) ≡ length es
  unfolding find erase
  length-erase k [] x s h = absurd (cc)
  length-erase k (e ∷ es) x s h = elim (Bool-cases (key_eq (key_of e) k)) [
    | inl same ↦
        let at : key_of e ≡ k = ground arith in
        let rest : erase k es ≡ es =
          erase-above k es (subst (λ j. All (λ y. key_lt j (key_of y) ≡ true) es) at s.0) in
        ground (arith, same, rest)
    | inr differs ↦
        let later : find k es ≡ some x = ground (arith, differs, h) in
        ground (arith, differs, length-erase k es x s.1 later)
  ]

  Found-erase :
      (k : Key) (ds es : List (PoolEntry Tx))
      → All (λ y. key_eq k (key_of y) ≡ false) ds
      → Found es ds
      → Found (erase k es) ds
  Found-erase k [] es new found = tt
  Found-erase k (d ∷ ds) es new found =
      let first = new.0 in
      let here = found.0 in
      (ground (arith, find-erase k (key_of d) es, first, here), Found-erase k ds es new.1 found.1)

  pub length-erase_all :
      (ds es : List (PoolEntry Tx))
      → Sorted es
      → Distinct ds
      → Found es ds
      → length (erase_all (keys_of ds) es) + length ds ≡ length es
  unfolding erase_all
  length-erase_all [] es s distinct found = omega arith
  length-erase_all (d ∷ ds) es s distinct found =
      let one = length-erase (key_of d) es d s found.0 in
      let more =
        length-erase_all ds (erase (key_of d) es) (erase-Sorted (key_of d) es s) distinct.1
          (Found-erase (key_of d) ds es distinct.0 found.1) in
      omega (arith, one, more)
