-- ===== src/TxPool/Map.antt =====
-- The map of the pool: lookups after an insertion and a removal, and its size.
use aii.Base.{
  suc, ◌≤◌, ◌<◌, ◌≡◌, refl, subst, none, some, true, false, List, [], ◌∷◌, arith, Bool-cases, inl,
  inr, length, All, if◌then◌else◌,
}
use aii.TxPool.{Key, key_eq, key_lt, PoolEntry, key_of, find, insert, erase}

module _ {Tx : Type 0} where
  -- The keys increase.
  abbrev pub Sorted : List (PoolEntry Tx) → Type 0
  Sorted [] = Unit
  Sorted (e ∷ es) = All (λ x. key_lt (key_of e) (key_of x) ≡ true) es × Sorted es

  pub find-insert :
      (x : PoolEntry Tx) (es : List (PoolEntry Tx)) → find (key_of x) (insert x es) ≡ some x
  unfolding find insert
  find-insert x [] = ground arith
  find-insert x (e ∷ es) = ground (arith, find-insert x es)

  pub find-insert_other :
      (x : PoolEntry Tx) (k : Key) (es : List (PoolEntry Tx))
      → key_eq (key_of x) k ≡ false
      → find k (insert x es) ≡ find k es
  unfolding find insert
  find-insert_other x k [] ne = ground arith
  find-insert_other x k (e ∷ es) ne = elim (Bool-cases (key_eq (key_of e) (key_of x))) [
    | inl same ↦
        let other : key_eq (key_of e) k ≡ false = ground arith in ground (arith, same, other)
    | inr differs ↦ ground (arith, differs, find-insert_other x k es ne)
  ]

  pub find-erase :
      (k j : Key) (es : List (PoolEntry Tx))
      → find j (erase k es) ≡ (if key_eq k j then none else find j es)
  unfolding find erase
  find-erase k j [] = ground arith
  find-erase k j (e ∷ es) = elim (Bool-cases (key_eq (key_of e) k)) [
    | inl same ↦
        let both : key_eq (key_of e) j ≡ key_eq k j = ground arith in
        ground (arith, same, both, find-erase k j es)
    | inr differs ↦ ground (arith, differs, find-erase k j es)
  ]

  pub length-erase_le : (k : Key) (es : List (PoolEntry Tx)) → length (erase k es) ≤ length es
  unfolding erase
  length-erase_le k [] = omega arith
  length-erase_le k (e ∷ es) = ground (arith, length-erase_le k es)

  pub length-erase_found :
      (k : Key) (es : List (PoolEntry Tx)) (x : PoolEntry Tx)
      → find k es ≡ some x
      → length (erase k es) < length es
  unfolding find erase
  length-erase_found k [] x h = absurd (cc)
  length-erase_found k (e ∷ es) x h =
      ground (arith, length-erase_le k es, length-erase_found k es x)

  -- A key below the first one is not there.
  find-below :
      (k : Key) (e : PoolEntry Tx) (es : List (PoolEntry Tx))
      → key_lt k (key_of e) ≡ true
      → All (λ x. key_lt (key_of e) (key_of x) ≡ true) es
      → find k (e ∷ es) ≡ none
  unfolding find
  find-below k e [] below above = ground arith
  find-below k e (x ∷ es) below above =
      let next : key_lt k (key_of x) ≡ true = let a = above.0 in ground arith in
      let rest = find-below k e es below above.1 in ground (arith, next, rest)

  pub length-insert_new :
      (x : PoolEntry Tx) (es : List (PoolEntry Tx))
      → find (key_of x) es ≡ none
      → length (insert x es) ≡ suc (length es)
  unfolding find insert
  length-insert_new x [] h = refl
  length-insert_new x (e ∷ es) h = ground (arith, length-insert_new x es)

  pub length-insert_found :
      (x : PoolEntry Tx) (es : List (PoolEntry Tx)) (y : PoolEntry Tx)
      → Sorted es
      → find (key_of x) es ≡ some y
      → length (insert x es) ≡ length es
  unfolding find insert
  length-insert_found x [] y s h = absurd (cc)
  length-insert_found x (e ∷ es) y s h =
      let above = s.0 in
      elim (Bool-cases (key_lt (key_of x) (key_of e))) [
        | inl below ↦ let absent = find-below (key_of x) e es below above in absurd (cc)
        | inr after ↦ ground (arith, after, length-insert_found x es y s.1)
      ]

  All-below :
      (k : Key) (e : PoolEntry Tx) (es : List (PoolEntry Tx))
      → key_lt k (key_of e) ≡ true
      → All (λ y. key_lt (key_of e) (key_of y) ≡ true) es
      → All (λ y. key_lt k (key_of y) ≡ true) es
  All-below k e [] lt all = tt
  All-below k e (y ∷ es) lt all = let first = all.0 in (ground arith, All-below k e es lt all.1)

  insert-All :
      (k : Key) (x : PoolEntry Tx) (es : List (PoolEntry Tx))
      → key_lt k (key_of x) ≡ true
      → All (λ y. key_lt k (key_of y) ≡ true) es
      → All (λ y. key_lt k (key_of y) ≡ true) (insert x es)
  unfolding insert
  insert-All k x [] lt all = (lt, tt)
  insert-All k x (e ∷ es) lt all = elim (Bool-cases (key_eq (key_of e) (key_of x))) [
    | inl same ↦ rw same (lt, all.1)
    | inr differs ↦ elim (Bool-cases (key_lt (key_of x) (key_of e))) [
      | inl before ↦ rw (differs, before) (lt, all)
      | inr after ↦ rw (differs, after) (all.0, insert-All k x es lt all.1)
    ]
  ]

  pub insert-Sorted :
      (x : PoolEntry Tx) (es : List (PoolEntry Tx)) → Sorted es → Sorted (insert x es)
  unfolding insert
  insert-Sorted x [] s = (tt, tt)
  insert-Sorted x (e ∷ es) s = elim (Bool-cases (key_eq (key_of e) (key_of x))) [
    | inl same ↦
        let at : key_of e ≡ key_of x = ground arith in
        rw same (subst (λ k. All (λ y. key_lt k (key_of y) ≡ true) es) at s.0, s.1)
    | inr differs ↦ elim (Bool-cases (key_lt (key_of x) (key_of e))) [
      | inl before ↦ rw (differs, before) ((before, All-below (key_of x) e es before s.0), s)
      | inr after ↦
          let above : key_lt (key_of e) (key_of x) ≡ true = ground arith in
          rw (differs, after) (insert-All (key_of e) x es above s.0, insert-Sorted x es s.1)
    ]
  ]

  erase-All :
      (j k : Key) (es : List (PoolEntry Tx))
      → All (λ y. key_lt j (key_of y) ≡ true) es
      → All (λ y. key_lt j (key_of y) ≡ true) (erase k es)
  unfolding erase
  erase-All j k [] all = tt
  erase-All j k (e ∷ es) all = elim (Bool-cases (key_eq (key_of e) k)) [
    | inl same ↦ rw same (erase-All j k es all.1)
    | inr differs ↦ rw differs (all.0, erase-All j k es all.1)
  ]

  pub erase-Sorted : (k : Key) (es : List (PoolEntry Tx)) → Sorted es → Sorted (erase k es)
  unfolding erase
  erase-Sorted k [] s = tt
  erase-Sorted k (e ∷ es) s = elim (Bool-cases (key_eq (key_of e) k)) [
    | inl same ↦ rw same (erase-Sorted k es s.1)
    | inr differs ↦ rw differs (erase-All (key_of e) k es s.0, erase-Sorted k es s.1)
  ]
