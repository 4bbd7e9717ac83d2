-- ===== src/Storage.antt =====
-- Key-value storage, crates/aii-storage/src: column families and errors (cf.rs, error.rs), and the
-- trait `KvBackend` (backend.rs) as an interface with the laws that its clients rely on.
pub mod Memory
mod Tests
use aii.Base.{ℕ, ◌≡◌, ◌≢◌, ◌⊎◌, Option, none, some, List, [], ◌∷◌, Result, ok, Bool, ◌==◌}

-- `ColumnFamily`, in the order of `ColumnFamily::ALL`.
pub data ColumnFamily : Type 0 where
  default_cf headers bodies receipts transactions state account_storage tx_lookup : ColumnFamily
  meta micro_chain code : ColumnFamily

-- `ColumnFamily::ALL`.
abbrev pub all_families : List ColumnFamily
all_families =
    default_cf ∷ headers ∷ bodies ∷ receipts ∷ transactions ∷ state ∷ account_storage ∷ tx_lookup
    ∷ meta ∷ micro_chain ∷ code ∷ []

-- The place of a family in `ColumnFamily::ALL`.
abbrev pub cf_index : ColumnFamily → ℕ
cf_index default_cf = 0
cf_index headers = 1
cf_index bodies = 2
cf_index receipts = 3
cf_index transactions = 4
cf_index state = 5
cf_index account_storage = 6
cf_index tx_lookup = 7
cf_index meta = 8
cf_index micro_chain = 9
cf_index code = 10

-- The derived `PartialEq`.
abbrev pub cf_eq : ColumnFamily → ColumnFamily → Bool
cf_eq a b = cf_index a == cf_index b

-- The texts of the first and the last kind are left out.
pub data StorageError : Type 0 where
  backend io : StorageError
  invalid_column_family : ColumnFamily → StorageError

abbrev pub Bytes : Type 0
Bytes = List ℕ

-- The methods of `KvBackend` that touch one key, and the scan of a prefix. A write that fails leaves the store as it was. The
-- laws: a write shows in the next read of its key, and in no read of another key of the family.
pub record KvBackend (S : Type 0) : Type 0 where
  pub get : S → ColumnFamily → Bytes → Result StorageError (Option Bytes)
  pub put : S → ColumnFamily → Bytes → Bytes → Result StorageError S
  pub delete : S → ColumnFamily → Bytes → Result StorageError S
  pub iter_prefix : S → ColumnFamily → Bytes → Result StorageError (List (Bytes × Bytes))
  pub put-get :
      (s s' : S) (cf : ColumnFamily) (k v : Bytes)
      → put s cf k v ≡ ok s'
      → get s' cf k ≡ ok (some v)
  pub put-get_other :
      (s s' : S) (cf : ColumnFamily) (k v j : Bytes)
      → put s cf k v ≡ ok s'
      → k ≢ j
      → get s' cf j ≡ get s cf j
  pub delete-get :
      (s s' : S) (cf : ColumnFamily) (k : Bytes) → delete s cf k ≡ ok s' → get s' cf k ≡ ok none
  pub delete-get_other :
      (s s' : S) (cf : ColumnFamily) (k j : Bytes)
      → delete s cf k ≡ ok s'
      → k ≢ j
      → get s' cf j ≡ get s cf j
