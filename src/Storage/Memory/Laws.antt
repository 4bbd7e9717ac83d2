-- ===== src/Storage/Memory/Laws.antt =====
-- The backend in memory satisfies the laws of the interface, and what a batch of writes comes to.
use aii.Base.{
  ◌≡◌, ◌≢◌, refl, ap, sym, ◌∙◌, none, some, [], ◌∷◌, ok, arith, true, false, Bool-cases,
  Option-cases, inl, inr,
}
use aii.Storage.{ColumnFamily, cf_eq, KvBackend, Bytes}
use aii.Storage.Memory.{
  bytes_eq, CfMap, map_get, map_insert, map_remove, Store, set_family, memory_get, memory_put,
  memory_delete, iter_prefix,
}

pub bytes_eq_refl : (k : Bytes) → bytes_eq k k ≡ true
bytes_eq_refl [] = refl
bytes_eq_refl (x ∷ k) = ground (arith, bytes_eq_refl k)

pub bytes_eq→eq : (k j : Bytes) → bytes_eq k j ≡ true → k ≡ j
bytes_eq→eq [] [] h = refl
bytes_eq→eq [] (y ∷ j) h = absurd (cc)
bytes_eq→eq (x ∷ k) [] h = absurd (cc)
bytes_eq→eq (x ∷ k) (y ∷ j) h =
    let same : x ≡ y = ground arith in let rest = bytes_eq→eq k j (ground arith) in cc

pub bytes_eq-false : (k j : Bytes) → k ≢ j → bytes_eq k j ≡ false
bytes_eq-false k j ne = elim (Bool-cases (bytes_eq k j)) [
  | inl same ↦ absurd (ne (bytes_eq→eq k j same))
  | inr other ↦ other
]

pub map_get-insert : (k v : Bytes) (m : CfMap) → map_get k (map_insert k v m) ≡ some v
unfolding map_get map_insert
map_get-insert k v [] = ground (arith, bytes_eq_refl k)
map_get-insert k v (e ∷ m) = ground (arith, bytes_eq_refl k, map_get-insert k v m)

pub map_get-insert_other :
    (k v j : Bytes) (m : CfMap) → k ≢ j → map_get j (map_insert k v m) ≡ map_get j m
unfolding map_get map_insert
map_get-insert_other k v j [] ne = ground (arith, bytes_eq-false k j ne)
map_get-insert_other k v j (e ∷ m) ne = elim (Bool-cases (bytes_eq e.0 k)) [
  | inl same ↦
      let at : e.0 ≡ k = bytes_eq→eq e.0 k same in
      ground (arith, same, bytes_eq-false k j ne, ap (λ x. bytes_eq x j) at)
  | inr other ↦ ground (arith, other, bytes_eq-false k j ne, map_get-insert_other k v j m ne)
]

pub map_get-remove : (k : Bytes) (m : CfMap) → map_get k (map_remove k m) ≡ none
unfolding map_get map_remove
map_get-remove k [] = refl
map_get-remove k (e ∷ m) = ground (arith, map_get-remove k m)

pub map_get-remove_other :
    (k j : Bytes) (m : CfMap) → k ≢ j → map_get j (map_remove k m) ≡ map_get j m
unfolding map_get map_remove
map_get-remove_other k j [] ne = refl
map_get-remove_other k j (e ∷ m) ne = elim (Bool-cases (bytes_eq e.0 k)) [
  | inl same ↦
      let at : e.0 ≡ k = bytes_eq→eq e.0 k same in
      ground (
        arith,
        same,
        bytes_eq-false k j ne,
        ap (λ x. bytes_eq x j) at,
        map_get-remove_other k j m ne,
      )
  | inr other ↦ ground (arith, other, map_get-remove_other k j m ne)
]

pub cf_eq_refl : (cf : ColumnFamily) → cf_eq cf cf ≡ true
cf_eq_refl cf = ground arith

module _ (s s' : Store) (cf : ColumnFamily) (k : Bytes) where
  pub memory_get-set_family : (m : CfMap) → memory_get (set_family s cf m) cf k ≡ ok (map_get k m)
  unfolding memory_get set_family
  memory_get-set_family m = ground (arith, cf_eq_refl cf)

  pub memory_put-ok :
      (v : Bytes)
      → memory_put s cf k v ≡ ok s'
      → (m : CfMap) × (s cf ≡ some m) × (s' ≡ set_family s cf (map_insert k v m))
  unfolding memory_put
  memory_put-ok v h = elim (Option-cases (s cf)) [
    | inl missing ↦ absurd (ground (arith, missing))
    | inr (m, found) ↦ (m, found, ground (arith, found))
  ]

  pub memory_delete-ok :
      memory_delete s cf k ≡ ok s'
      → (m : CfMap) × (s cf ≡ some m) × (s' ≡ set_family s cf (map_remove k m))
  unfolding memory_delete
  memory_delete-ok h = elim (Option-cases (s cf)) [
    | inl missing ↦ absurd (ground (arith, missing))
    | inr (m, found) ↦ (m, found, ground (arith, found))
  ]

pub memory_get-family :
    (s : Store) (cf : ColumnFamily) (k : Bytes) (m : CfMap)
    → s cf ≡ some m
    → memory_get s cf k ≡ ok (map_get k m)
unfolding memory_get
memory_get-family s cf k m found = ground (arith, found)

unfoldable pub memory_backend : KvBackend Store
memory_backend = record {
  get = memory_get;
  put = memory_put;
  delete = memory_delete;
  iter_prefix = iter_prefix;
  put-get = λ s s' cf k v h.
      let (m, found, left) = memory_put-ok s s' cf k v h in
      ap (λ t. memory_get t cf k) left
      ∙ memory_get-set_family s s' cf k (map_insert k v m)
      ∙ ap ok (map_get-insert k v m);
  put-get_other = λ s s' cf k v j h ne.
      let (m, found, left) = memory_put-ok s s' cf k v h in
      ap (λ t. memory_get t cf j) left
      ∙ memory_get-set_family s s' cf j (map_insert k v m)
      ∙ ap ok (map_get-insert_other k v j m ne)
      ∙ sym (memory_get-family s cf j m found);
  delete-get = λ s s' cf k h.
      let (m, found, left) = memory_delete-ok s s' cf k h in
      ap (λ t. memory_get t cf k) left
      ∙ memory_get-set_family s s' cf k (map_remove k m)
      ∙ ap ok (map_get-remove k m);
  delete-get_other = λ s s' cf k j h ne.
      let (m, found, left) = memory_delete-ok s s' cf k h in
      ap (λ t. memory_get t cf j) left
      ∙ memory_get-set_family s s' cf j (map_remove k m)
      ∙ ap ok (map_get-remove_other k j m ne)
      ∙ sym (memory_get-family s cf j m found);
}
