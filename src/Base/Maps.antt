-- ===== src/Base/Maps.antt =====
-- A BTreeMap with number keys, as the list of its entries.
use aii.Base.{
  suc, ◌≤◌, length, All, subst, ℕ, ◌<◌, ◌≡◌, refl, Option, none, some, List, [], ◌∷◌, arith, false,
  Bool-cases, inl, inr, ltb, ◌==◌, if◌then◌else◌,
}

module _ {V : Type 0} where
  unfoldable pub map_get : ℕ → List (ℕ × V) → Option V
  map_get k [] = none
  map_get k ((j, v) ∷ m) = if k == j then some v else map_get k m

  unfoldable pub map_insert : ℕ → V → List (ℕ × V) → List (ℕ × V)
  map_insert k v [] = (k, v) ∷ []
  map_insert k v ((j, w) ∷ m) =
      let rest = map_insert k v m in
      if ltb k j then (k, v) ∷ (j, w) ∷ m else if k == j then (k, v) ∷ m else (j, w) ∷ rest

  unfoldable pub map_remove : ℕ → List (ℕ × V) → List (ℕ × V)
  map_remove k [] = []
  map_remove k ((j, w) ∷ m) = let rest = map_remove k m in if k == j then m else (j, w) ∷ rest

  -- The keys increase.
  abbrev pub Above : ℕ → List (ℕ × V) → Type 0
  Above j [] = Unit
  Above j ((i, v) ∷ m) = (j < i) × Above j m

  abbrev pub Increasing : List (ℕ × V) → Type 0
  Increasing [] = Unit
  Increasing ((j, v) ∷ m) = Above j m × Increasing m

  pub map_get-insert : (k : ℕ) (v : V) (m : List (ℕ × V)) → map_get k (map_insert k v m) ≡ some v
  unfolding map_get map_insert
  map_get-insert k v [] = ground arith
  map_get-insert k v ((j, w) ∷ m) = ground (arith, map_get-insert k v m)

  pub map_get-insert_other :
      (k i : ℕ) (v : V) (m : List (ℕ × V))
      → (k == i) ≡ false
      → map_get i (map_insert k v m) ≡ map_get i m
  unfolding map_get map_insert
  map_get-insert_other k i v [] h = ground (arith, h)
  map_get-insert_other k i v ((j, w) ∷ m) h = ground (arith, h, map_get-insert_other k i v m h)

  pub Above-weaken : (i j : ℕ) (m : List (ℕ × V)) → i < j → Above j m → Above i m
  Above-weaken i j [] h a = tt
  Above-weaken i j ((k, v) ∷ m) h a =
      (let first = a.0 in omega (arith, h, first), Above-weaken i j m h a.1)

  map_get-Above : (k : ℕ) (m : List (ℕ × V)) → Above k m → map_get k m ≡ none
  unfolding map_get
  map_get-Above k [] a = refl
  map_get-Above k ((j, v) ∷ m) a = let first = a.0 in ground (arith, first, map_get-Above k m a.1)

  pub map_get-remove : (k : ℕ) (m : List (ℕ × V)) → Increasing m → map_get k (map_remove k m) ≡ none
  unfolding map_get map_remove
  map_get-remove k [] s = refl
  map_get-remove k ((j, v) ∷ m) s = elim (Bool-cases (k == j)) [
    | inl same ↦
        let at : j ≡ k = ground arith in
        let above : map_get k m ≡ none = map_get-Above k m (subst (λ i. Above i m) at s.0) in
        ground (arith, same, above)
    | inr other ↦ ground (arith, other, map_get-remove k m s.1)
  ]

  pub map_get-remove_other :
      (k i : ℕ) (m : List (ℕ × V)) → (k == i) ≡ false → map_get i (map_remove k m) ≡ map_get i m
  unfolding map_get map_remove
  map_get-remove_other k i [] h = refl
  map_get-remove_other k i ((j, v) ∷ m) h = ground (arith, h, map_get-remove_other k i m h)

  insert-Above :
      (j k : ℕ) (v : V) (m : List (ℕ × V)) → j < k → Above j m → Above j (map_insert k v m)
  unfolding map_insert
  insert-Above j k v [] h a = (h, tt)
  insert-Above j k v ((i, w) ∷ m) h a = elim (Bool-cases (ltb k i)) [
    | inl before ↦ rw before (h, a)
    | inr after ↦ elim (Bool-cases (k == i)) [
      | inl same ↦ rw (after, same) (h, a.1)
      | inr differs ↦ rw (after, differs) (a.0, insert-Above j k v m h a.1)
    ]
  ]

  pub insert-Increasing :
      (k : ℕ) (v : V) (m : List (ℕ × V)) → Increasing m → Increasing (map_insert k v m)
  unfolding map_insert
  insert-Increasing k v [] s = (tt, tt)
  insert-Increasing k v ((j, w) ∷ m) s = elim (Bool-cases (ltb k j)) [
    | inl before ↦ let lt : k < j = ground arith in rw before ((lt, Above-weaken k j m lt s.0), s)
    | inr after ↦ elim (Bool-cases (k == j)) [
      | inl same ↦
          let at : j ≡ k = ground arith in rw (after, same) (subst (λ i. Above i m) at s.0, s.1)
      | inr differs ↦
          let lt : j < k = ground arith in
          rw (after, differs) (insert-Above j k v m lt s.0, insert-Increasing k v m s.1)
    ]
  ]

  remove-Above : (j k : ℕ) (m : List (ℕ × V)) → Above j m → Above j (map_remove k m)
  unfolding map_remove
  remove-Above j k [] a = tt
  remove-Above j k ((i, w) ∷ m) a = elim (Bool-cases (k == i)) [
    | inl same ↦ rw same a.1
    | inr differs ↦ rw differs (a.0, remove-Above j k m a.1)
  ]

  pub remove-Increasing : (k : ℕ) (m : List (ℕ × V)) → Increasing m → Increasing (map_remove k m)
  unfolding map_remove
  remove-Increasing k [] s = tt
  remove-Increasing k ((j, w) ∷ m) s = elim (Bool-cases (k == j)) [
    | inl same ↦ rw same s.1
    | inr differs ↦ rw differs (remove-Above j k m s.0, remove-Increasing k m s.1)
  ]

  pub length-map_insert_le :
      (k : ℕ) (v : V) (m : List (ℕ × V)) → length (map_insert k v m) ≤ suc (length m)
  unfolding map_insert
  length-map_insert_le k v [] = omega arith
  length-map_insert_le k v ((j, w) ∷ m) = ground (arith, length-map_insert_le k v m)

  pub map_insert-All :
      (P : ℕ × V → Type 0) (k : ℕ) (v : V) (m : List (ℕ × V))
      → P (k, v)
      → All P m
      → All P (map_insert k v m)
  unfolding map_insert
  map_insert-All P k v [] p all = (p, tt)
  map_insert-All P k v ((j, w) ∷ m) p all = elim (Bool-cases (ltb k j)) [
    | inl before ↦ rw before (p, all)
    | inr after ↦ elim (Bool-cases (k == j)) [
      | inl same ↦ rw (after, same) (p, all.1)
      | inr differs ↦ rw (after, differs) (all.0, map_insert-All P k v m p all.1)
    ]
  ]

  pub map_get-All :
      (P : ℕ × V → Type 0) (k : ℕ) (m : List (ℕ × V)) {v : V}
      → All P m
      → map_get k m ≡ some v
      → P (k, v)
  unfolding map_get
  map_get-All P k [] all h = absurd (cc)
  map_get-All P k ((j, w) ∷ m) {v} all h = elim (Bool-cases (k == j)) [
    | inl same ↦
        let at : j ≡ k = ground arith in
        let one : some w ≡ some v = ground (arith, same, h) in
        let is : w ≡ v = cc in subst (λ i. P (i, v)) at (subst (λ x. P (j, x)) is all.0)
    | inr differs ↦
        let later : map_get k m ≡ some v = ground (arith, differs, h) in
        map_get-All P k m all.1 later
  ]
