-- ===== src/Storage/Memory.antt =====
-- The backend in memory, `MemoryBackend` of crates/aii-storage/src/memory.rs, and the write batches of
-- batch.rs. A `BTreeMap` is the list of its entries in the order of the keys.
pub mod Laws
pub mod Batch
use aii.Base.{
  ℕ, Option, none, some, List, [], ◌∷◌, Result, ok, err, panic, Bool, true, false, ltb, ◌==◌, ◌&&◌,
  ◌||◌, not, if◌then◌else◌,
}
use aii.Storage.{ColumnFamily, cf_eq, StorageError, invalid_column_family, Bytes}

-- Byte strings: equality, and the order of `Vec<u8>`.
abbrev pub bytes_eq : Bytes → Bytes → Bool
bytes_eq [] [] = true
bytes_eq (x ∷ xs) (y ∷ ys) = x == y && bytes_eq xs ys
bytes_eq _ _ = false

abbrev pub bytes_lt : Bytes → Bytes → Bool
bytes_lt xs [] = false
bytes_lt [] (y ∷ ys) = true
bytes_lt (x ∷ xs) (y ∷ ys) = ltb x y || (x == y && bytes_lt xs ys)

abbrev pub starts_with : Bytes → Bytes → Bool
starts_with xs [] = true
starts_with [] (y ∷ ys) = false
starts_with (x ∷ xs) (y ∷ ys) = x == y && starts_with xs ys

abbrev pub CfMap : Type 0
CfMap = List (Bytes × Bytes)

-- `BTreeMap::get`, `insert`, `remove`.
unfoldable pub map_get : Bytes → CfMap → Option Bytes
map_get k [] = none
map_get k (e ∷ m) = let rest = map_get k m in if bytes_eq e.0 k then some e.1 else rest

unfoldable pub map_insert : Bytes → Bytes → CfMap → CfMap
map_insert k v [] = (k, v) ∷ []
map_insert k v (e ∷ m) =
    let rest = map_insert k v m in
    if bytes_eq e.0 k then (k, v) ∷ m else if bytes_lt k e.0 then (k, v) ∷ e ∷ m else e ∷ rest

unfoldable pub map_remove : Bytes → CfMap → CfMap
map_remove k [] = []
map_remove k (e ∷ m) = let rest = map_remove k m in if bytes_eq e.0 k then rest else e ∷ rest

-- `Store`: a map for each family that is registered.
abbrev pub Store : Type 0
Store = ColumnFamily → Option CfMap

-- `MemoryBackend::new`: every family, empty.
unfoldable pub new_store : Store
new_store cf = some []

-- What `get_mut` followed by an assignment does.
unfoldable pub set_family : Store → ColumnFamily → CfMap → Store
set_family s cf m other = if cf_eq cf other then some m else s other

-- `MemoryBackend::get`, `put`, `delete`.
unfoldable pub memory_get : Store → ColumnFamily → Bytes → Result StorageError (Option Bytes)
memory_get s cf k = elim (s cf) [
  | some m ↦ ok (map_get k m)
  | none ↦ err (invalid_column_family cf)
]

unfoldable pub memory_put : Store → ColumnFamily → Bytes → Bytes → Result StorageError Store
memory_put s cf k v = elim (s cf) [
  | some m ↦ ok (set_family s cf (map_insert k v m))
  | none ↦ err (invalid_column_family cf)
]

unfoldable pub memory_delete : Store → ColumnFamily → Bytes → Result StorageError Store
memory_delete s cf k = elim (s cf) [
  | some m ↦ ok (set_family s cf (map_remove k m))
  | none ↦ err (invalid_column_family cf)
]

-- `Op`, the entries of a `WriteBatch`.
pub data Op : Type 0 where
  put : ColumnFamily → Bytes → Bytes → Op
  delete : ColumnFamily → Bytes → Op

unfoldable pub apply_op : Store → Op → Result StorageError Store
apply_op s (put cf k v) = memory_put s cf k v
apply_op s (delete cf k) = memory_delete s cf k

-- `MemoryBackend::write`: the store that is left and the result.
unfoldable pub memory_write : Store → List Op → Store × Result StorageError (Unit {0})
memory_write s [] = (s, ok tt)
memory_write s (op ∷ ops) = elim (apply_op s op) [
  | ok s' ↦ memory_write s' ops
  | err e ↦ (s, err e)
  | panic ↦ (s, panic)
]

-- `MemoryBackend::iter_prefix`: from the first key that is not below the prefix, while it is one.
abbrev pub skip_below : Bytes → CfMap → CfMap
skip_below prefix [] = []
skip_below prefix (e ∷ m) =
    let rest = skip_below prefix m in if bytes_lt e.0 prefix then rest else e ∷ m

abbrev pub while_prefix : Bytes → CfMap → CfMap
while_prefix prefix [] = []
while_prefix prefix (e ∷ m) =
    let rest = while_prefix prefix m in if starts_with e.0 prefix then e ∷ rest else []

unfoldable pub iter_prefix : Store → ColumnFamily → Bytes → Result StorageError CfMap
iter_prefix s cf prefix = elim (s cf) [
  | some m ↦ ok (while_prefix prefix (skip_below prefix m))
  | none ↦ err (invalid_column_family cf)
]
