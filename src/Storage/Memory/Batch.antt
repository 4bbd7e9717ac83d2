-- ===== src/Storage/Memory/Batch.antt =====
-- Batches of writes on the backend in memory: with every family registered a batch never fails, and
-- each key ends with the last value that the batch has for it.
use aii.Base.{
  get_elem?, ◌≡◌, refl, ap, sym, ◌∙◌, Option, none, some, List, [], ◌∷◌, ok, arith, true, ◌&&◌,
  Bool-cases, inl, inr, if◌then◌else◌,
}
use aii.Storage.{
  ColumnFamily, default_cf, headers, bodies, receipts, transactions, state, account_storage,
  tx_lookup, meta, micro_chain, code, all_families, cf_index, cf_eq, Bytes,
}
use aii.Storage.Memory.{
  bytes_eq, CfMap, map_get, map_insert, map_remove, Store, set_family, memory_get, memory_put,
  memory_delete, Op, put, delete, apply_op, memory_write,
}
use aii.Storage.Memory.Laws.{
  bytes_eq→eq, bytes_eq_refl, map_get-insert, map_get-insert_other, map_get-remove,
  map_get-remove_other,
}

-- Is every family registered?
abbrev pub Registered : Store → Type 0
Registered s = (cf : ColumnFamily) → (m : CfMap) × (s cf ≡ some m)

-- What a key holds after a batch: the last value that the batch has for it, or what it held before.
abbrev pub batch_get : List Op → ColumnFamily → Bytes → Option Bytes → Option Bytes
batch_get [] cf k before = before
batch_get (put cf' k' v ∷ ops) cf k before =
    batch_get ops cf k (if cf_eq cf' cf && bytes_eq k' k then some v else before)
batch_get (delete cf' k' ∷ ops) cf k before =
    batch_get ops cf k (if cf_eq cf' cf && bytes_eq k' k then none else before)

all_families-cf_index : (cf : ColumnFamily) → get_elem? all_families (cf_index cf) ≡ some cf
all_families-cf_index default_cf = refl
all_families-cf_index headers = refl
all_families-cf_index bodies = refl
all_families-cf_index receipts = refl
all_families-cf_index transactions = refl
all_families-cf_index state = refl
all_families-cf_index account_storage = refl
all_families-cf_index tx_lookup = refl
all_families-cf_index meta = refl
all_families-cf_index micro_chain = refl
all_families-cf_index code = refl

cf_eq→eq : (a b : ColumnFamily) → cf_eq a b ≡ true → a ≡ b
cf_eq→eq a b h =
    let same : cf_index a ≡ cf_index b = ground arith in
    let one : some a ≡ some b =
      sym (all_families-cf_index a) ∙ ap (get_elem? all_families) same ∙ all_families-cf_index b in
    cc

map_get-put :
    (k k' v : Bytes) (m : CfMap)
    → map_get k (map_insert k' v m) ≡ (if bytes_eq k' k then some v else map_get k m)
map_get-put k k' v m = elim (Bool-cases (bytes_eq k' k)) [
  | inl same ↦
      let at : k' ≡ k = bytes_eq→eq k' k same in
      ap (λ x. map_get k (map_insert x v m)) at ∙ map_get-insert k v m ∙ ground (arith, same)
  | inr other ↦
      map_get-insert_other k' v k m
        (λ e. ground (arith, other, bytes_eq_refl k, ap (λ x. bytes_eq x k) e))
      ∙ ground (arith, other)
]

map_get-delete :
    (k k' : Bytes) (m : CfMap)
    → map_get k (map_remove k' m) ≡ (if bytes_eq k' k then none else map_get k m)
map_get-delete k k' m = elim (Bool-cases (bytes_eq k' k)) [
  | inl same ↦
      let at : k' ≡ k = bytes_eq→eq k' k same in
      ap (λ x. map_get k (map_remove x m)) at ∙ map_get-remove k m ∙ ground (arith, same)
  | inr other ↦
      map_get-remove_other k' k m
        (λ e. ground (arith, other, bytes_eq_refl k, ap (λ x. bytes_eq x k) e))
      ∙ ground (arith, other)
]

module _ (s : Store) (registered : Registered s) where
  set_family-Registered : (cf : ColumnFamily) (m : CfMap) → Registered (set_family s cf m)
  unfolding set_family
  set_family-Registered cf m other = elim (Bool-cases (cf_eq cf other)) [
    | inl same ↦ (m, ground (arith, same))
    | inr differs ↦ let (m', found) = registered other in (m', ground (arith, differs, found))
  ]

  -- The next read after a family is replaced by a map that differs in one key.
  read_after :
      (cf cf' : ColumnFamily) (k k' : Bytes) (m m' : CfMap) (v before : Option Bytes)
      → s cf' ≡ some m
      → map_get k m' ≡ (if bytes_eq k' k then v else map_get k m)
      → memory_get s cf k ≡ ok before
      → memory_get (set_family s cf' m') cf k
        ≡ ok (if cf_eq cf' cf && bytes_eq k' k then v else before)
  unfolding memory_get set_family
  read_after cf cf' k k' m m' v before found new old = elim (Bool-cases (cf_eq cf' cf)) [
    | inl same ↦
        let here : s cf ≡ some m = ap s (sym (cf_eq→eq cf' cf same)) ∙ found in
        ground (arith, same, here, new)
    | inr differs ↦ ground (arith, differs)
  ]

-- One entry of a batch.
apply_op-lem :
    (s : Store) (op : Op) (cf : ColumnFamily) (k : Bytes) (before : Option Bytes)
    → Registered s
    → memory_get s cf k ≡ ok before
    → (s' : Store) × (apply_op s op ≡ ok s')
      × Registered s'
      × (memory_get s' cf k ≡ ok (batch_get (op ∷ []) cf k before))
unfolding apply_op memory_put memory_delete
apply_op-lem s (put cf' k' v) cf k before registered old =
    let (m, found) = registered cf' in
    let m' = map_insert k' v m in
    (
      set_family s cf' m',
      ground (arith, found),
      set_family-Registered s registered cf' m',
      read_after s registered cf cf' k k' m m' (some v) before found (map_get-put k k' v m) old,
    )
apply_op-lem s (delete cf' k') cf k before registered old =
    let (m, found) = registered cf' in
    let m' = map_remove k' m in
    (
      set_family s cf' m',
      ground (arith, found),
      set_family-Registered s registered cf' m',
      read_after s registered cf cf' k k' m m' none before found (map_get-delete k k' m) old,
    )

-- With every family registered, a batch succeeds as a whole, and afterwards each key of each family
-- holds the last value that the batch has for it, none if that is a deletion, and what it held
-- before if the batch does not name it.
memory_write-batch_get :
    (s : Store) (ops : List Op) (cf : ColumnFamily) (k : Bytes) (before : Option Bytes)
    → Registered s
    → memory_get s cf k ≡ ok before
    → ((memory_write s ops).1 ≡ ok tt)
      × (memory_get (memory_write s ops).0 cf k ≡ ok (batch_get ops cf k before))
unfolding memory_write
memory_write-batch_get s [] cf k before registered old = (refl, old)
memory_write-batch_get s (put cf' k' v ∷ ops) cf k before registered old =
    let (s', done, left, now) = apply_op-lem s (put cf' k' v) cf k before registered old in
    ground (arith, done, memory_write-batch_get s' ops cf k _ left now)
memory_write-batch_get s (delete cf' k' ∷ ops) cf k before registered old =
    let (s', done, left, now) = apply_op-lem s (delete cf' k') cf k before registered old in
    ground (arith, done, memory_write-batch_get s' ops cf k _ left now)
