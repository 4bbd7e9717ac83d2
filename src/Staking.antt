-- ===== src/Staking.antt =====
-- On-chain staking: `StakeRecord` and `StakeTable` of crates/aii-node/src/staking.rs, over any
-- `KvBackend`. An address is a number below 2 ^ 160. A method that writes returns the store that it
-- leaves, or the error, on which the store stays as it was.
pub mod Records
pub mod Effects
pub mod Ledger
mod Tests
use aii.Base.{
  ℕ, ◌+◌, ◌-◌, Option, none, some, List, [], ◌∷◌, ◌++◌, Result, ok, err, panic, ◌>>=◌, map_err,
  Bool, ltb, ◌==◌, ◌!=◌, ◌&&◌, ◌||◌, not, if◌then◌else◌, length, take, drop, to_be_bytes,
  from_be_bytes, saturating_add, u64_mod, u256_mod,
}
use aii.Storage.{KvBackend, StorageError, Bytes, meta}

pub record StakeRecord : Type 0 where
  pub staker : ℕ
  pub amount_wei : ℕ
  pub unbond_at : ℕ

-- `StakeRecord::is_bonded`.
abbrev pub is_bonded : StakeRecord → Bool
is_bonded r = r.unbond_at == 0 && r.amount_wei != 0

-- The errors: one of the backend, or a text of the table's own.
pub data StakeError : Type 0 where
  storage : StorageError → StakeError
  no_stake : ℕ → StakeError

-- `KEY_PREFIX`: "stake:".
abbrev pub key_prefix : Bytes
key_prefix = b's' ∷ b't' ∷ b'a' ∷ b'k' ∷ b'e' ∷ b':' ∷ []

-- `StakeTable::key`.
unfoldable pub stake_key : ℕ → Bytes
stake_key addr = key_prefix ++ to_be_bytes 20 addr

-- `StakeTable::encode_value`, `StakeTable::decode_value`.
unfoldable pub encode_value : ℕ → ℕ → Bytes
encode_value amount unbond_at = to_be_bytes 32 amount ++ to_be_bytes 8 unbond_at

unfoldable pub decode_value : Bytes → Option (ℕ × ℕ)
decode_value bytes =
    if length bytes != 40
    then none
    else some (from_be_bytes (take 32 bytes), from_be_bytes (drop 32 bytes))

-- The record of an address, from the bytes that are stored.
unfoldable pub read_record : ℕ → Option Bytes → Option StakeRecord
read_record addr none = none
read_record addr (some bytes) = elim (decode_value bytes) [
  | none ↦ none
  | some v ↦ some (record { staker = addr; amount_wei = v.0; unbond_at = v.1 })
]

-- The loop of `list_all` over the entries under the prefix.
unfoldable pub collect : List (Bytes × Bytes) → List StakeRecord
collect [] = []
collect (e ∷ entries) =
    let rest = collect entries in
    if length e.0 != length key_prefix + 20
    then rest
    else elim (read_record (from_be_bytes (drop (length key_prefix) e.0)) (some e.1)) [
      | none ↦ rest
      | some r ↦ r ∷ rest
    ]

-- The loop of `total_bonded`.
unfoldable pub add_bonded : ℕ → List StakeRecord → ℕ
add_bonded total [] = total
add_bonded total (r ∷ records) =
    add_bonded (if is_bonded r then saturating_add u256_mod total r.amount_wei else total) records

module _ {S : Type 0} (kv : KvBackend S) where
  -- `StakeTable::get`.
  unfoldable pub get_stake : S → ℕ → Result StakeError (Option StakeRecord)
  get_stake s addr =
      map_err storage (kv.get s meta (stake_key addr)) >>= (λ bytes. ok (read_record addr bytes))

  -- The `put` that the methods end with.
  unfoldable pub put_stake : S → ℕ → ℕ → ℕ → Result StakeError S
  put_stake s addr amount unbond_at =
      map_err storage (kv.put s meta (stake_key addr) (encode_value amount unbond_at))

  -- `StakeTable::bond`.
  unfoldable pub bond : S → ℕ → ℕ → Result StakeError S
  bond s addr delta = get_stake s addr >>= (λ prev.
      let amount : ℕ = elim prev [ none ↦ 0 | some r ↦ r.amount_wei ] in
      put_stake s addr (saturating_add u256_mod amount delta) 0)

  -- `StakeTable::begin_unbond`.
  unfoldable pub begin_unbond : S → ℕ → ℕ → ℕ → Result StakeError S
  begin_unbond s addr current_height unbonding_period = get_stake s addr >>= (λ prev. elim prev [
    | none ↦ err (no_stake addr)
    | some r ↦
        put_stake s addr r.amount_wei (saturating_add u64_mod current_height unbonding_period)
  ])

  -- `StakeTable::withdraw`: the store that is left, with the amount that is paid.
  unfoldable pub withdraw : S → ℕ → ℕ → Result StakeError (S × Option ℕ)
  withdraw s addr current_height = get_stake s addr >>= (λ prev. elim prev [
    | none ↦ ok (s, none)
    | some r ↦
        if r.unbond_at == 0 || ltb current_height r.unbond_at
        then ok (s, none)
        else map_err storage (kv.delete s meta (stake_key addr))
          >>= (λ s'. ok (s', some r.amount_wei))
  ])

  -- `StakeTable::slash`.
  unfoldable pub slash : S → ℕ → ℕ → Result StakeError S
  slash s addr delta = get_stake s addr >>= (λ prev. elim prev [
    | none ↦ err (no_stake addr)
    | some r ↦ put_stake s addr (r.amount_wei - delta) r.unbond_at
  ])

  -- `StakeTable::list_all`.
  unfoldable pub list_all : S → Result StakeError (List StakeRecord)
  list_all s =
      map_err storage (kv.iter_prefix s meta key_prefix) >>= (λ entries. ok (collect entries))

  -- `StakeTable::total_bonded`.
  unfoldable pub total_bonded : S → Result StakeError ℕ
  total_bonded s = list_all s >>= (λ records. ok (add_bonded 0 records))
