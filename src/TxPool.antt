-- ===== src/TxPool.antt =====
-- The transaction pool: `TxPool`, `PoolEntry`, `AddOutcome`, `PoolError` of
-- crates/aii-net-txpool/src/lib.rs, over any type of transactions. Addresses, nonces and prices are
-- numbers. The map from (sender, nonce) to entries is the list of the entries in the order of these
-- keys. Each method holds the lock throughout, so it is one step.
pub mod Map
pub mod Prices
pub mod Adding
pub mod Draining
pub mod Batching
pub mod Evicting
pub mod Removing
mod Tests
use aii.Base.{
  ℕ, zero, suc, ◌+◌, ◌-◌, Option, none, some, List, [], ◌∷◌, ◌++◌, Result, ok, err, panic, Bool,
  ltb, leb, ◌==◌, ◌&&◌, ◌||◌, if◌then◌else◌, length, take, u64_mod,
}

-- Keys: equality, and the order of the pairs.
pub record Key : Type 0 where
  pub sender : ℕ
  pub nonce : ℕ

abbrev pub key_eq : Key → Key → Bool
key_eq a b = a.sender == b.sender && a.nonce == b.nonce

abbrev pub key_lt : Key → Key → Bool
key_lt a b = ltb a.sender b.sender || (a.sender == b.sender && ltb a.nonce b.nonce)

module _ (Tx : Type 0) where
  pub record PoolEntry : Type 0 where
    pub sender : ℕ
    pub nonce : ℕ
    pub effective_gas_price : ℕ
    pub tx : Tx

  pub record Pool : Type 0 where
    pub entries : List PoolEntry
    pub capacity : ℕ

  pub data AddOutcome : Type 0 where
    inserted rejected_underpriced : AddOutcome
    replaced : PoolEntry → AddOutcome

pub data PoolError : Type 0 where
  full : PoolError

module _ {Tx : Type 0} where
  abbrev pub key_of : PoolEntry Tx → Key
  key_of e = record { sender = e.sender; nonce = e.nonce }

  -- `BTreeMap::get`, `insert`, `remove`.
  unfoldable pub find : Key → List (PoolEntry Tx) → Option (PoolEntry Tx)
  find k [] = none
  find k (e ∷ es) = let rest = find k es in if key_eq (key_of e) k then some e else rest

  unfoldable pub insert : PoolEntry Tx → List (PoolEntry Tx) → List (PoolEntry Tx)
  insert x [] = x ∷ []
  insert x (e ∷ es) =
      let rest = insert x es in
      if key_eq (key_of e) (key_of x)
      then x ∷ es
      else if key_lt (key_of x) (key_of e)
      then x ∷ e ∷ es
      else e ∷ rest

  unfoldable pub erase : Key → List (PoolEntry Tx) → List (PoolEntry Tx)
  erase k [] = []
  erase k (e ∷ es) = let rest = erase k es in if key_eq (key_of e) k then rest else e ∷ rest

  -- `TxPool::new`.
  unfoldable pub new_pool : ℕ → Pool Tx
  new_pool capacity = record { entries = []; capacity = capacity }

  -- `TxPool::add`.
  unfoldable pub add : Pool Tx → PoolEntry Tx → Pool Tx × Result PoolError (AddOutcome Tx)
  add p entry =
      if leb p.capacity (length p.entries)
      then (p, err full)
      else elim (find (key_of entry) p.entries) [
        | some existing ↦
            if leb entry.effective_gas_price existing.effective_gas_price
            then (p, ok rejected_underpriced)
            else (record p { entries = insert entry p.entries }, ok (replaced existing))
        | none ↦ (record p { entries = insert entry p.entries }, ok inserted)
      ]

  -- `TxPool::remove`.
  unfoldable pub remove : Pool Tx → ℕ → ℕ → Pool Tx × Option (PoolEntry Tx)
  remove p sender nonce =
      let k : Key = record { sender = sender; nonce = nonce } in
      (record p { entries = erase k p.entries }, find k p.entries)

  abbrev pub prepend : Tx → Result PoolError (List Tx) → Result PoolError (List Tx)
  prepend tx (ok txs) = ok (tx ∷ txs)
  prepend tx (err e) = err e
  prepend tx panic = panic

  -- The loop of `drain_ready`. Each round removes an entry, so the number of entries is fuel enough.
  -- The `expect` on the next nonce fails at the highest nonce.
  unfoldable pub drain_from :
      ℕ → List (PoolEntry Tx) → ℕ → ℕ → List (PoolEntry Tx) × Result PoolError (List Tx)
  drain_from zero es sender next_nonce = (es, ok [])
  drain_from (suc fuel) es sender next_nonce =
      let k : Key = record { sender = sender; nonce = next_nonce } in
      let (left, txs) = drain_from fuel (erase k es) sender (next_nonce + 1) in
      elim (find k es) [
        | none ↦ (es, ok [])
        | some entry ↦
            if ltb (next_nonce + 1) u64_mod
            then (left, prepend entry.tx txs)
            else (erase k es, panic)
      ]

  -- `TxPool::drain_ready`.
  unfoldable pub drain_ready : Pool Tx → ℕ → ℕ → Pool Tx × Result PoolError (List Tx)
  drain_ready p sender current_nonce =
      let (left, txs) = drain_from (length p.entries) p.entries sender current_nonce in
      (record p { entries = left }, txs)

  -- The loop of `drain_up_to` over the keys.
  unfoldable pub drain_keys : List Key → List (PoolEntry Tx) → List (PoolEntry Tx) × List Tx
  drain_keys [] es = (es, [])
  drain_keys (k ∷ ks) es =
      let (left, txs) = drain_keys ks (erase k es) in
      elim (find k es) [ none ↦ drain_keys ks es | some e ↦ (left, e.tx ∷ txs) ]

  abbrev pub keys_of : List (PoolEntry Tx) → List Key
  keys_of [] = []
  keys_of (e ∷ es) = key_of e ∷ keys_of es

  -- `TxPool::drain_up_to`.
  unfoldable pub drain_up_to : Pool Tx → ℕ → Pool Tx × List Tx
  drain_up_to p n =
      let (left, txs) = drain_keys (keys_of (take n p.entries)) p.entries in
      (record p { entries = left }, txs)

  -- The stable sort by price of `evict_to`.
  unfoldable pub by_price : PoolEntry Tx → List (PoolEntry Tx) → List (PoolEntry Tx)
  by_price x [] = x ∷ []
  by_price x (e ∷ es) =
      let rest = by_price x es in
      if leb x.effective_gas_price e.effective_gas_price then x ∷ e ∷ es else e ∷ rest

  unfoldable pub sort_by_price : List (PoolEntry Tx) → List (PoolEntry Tx)
  sort_by_price [] = []
  sort_by_price (e ∷ es) = by_price e (sort_by_price es)

  unfoldable pub erase_all : List Key → List (PoolEntry Tx) → List (PoolEntry Tx)
  erase_all [] es = es
  erase_all (k ∷ ks) es = erase_all ks (erase k es)

  -- `TxPool::evict_to`.
  unfoldable pub evict_to : Pool Tx → ℕ → Pool Tx
  evict_to p target =
      if leb (length p.entries) target
      then p
      else let to_drop = length p.entries - target in
        record p {
          entries = erase_all (keys_of (take to_drop (sort_by_price p.entries))) p.entries;
        }
