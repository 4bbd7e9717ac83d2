-- ===== src/Crosschain/Federation.antt =====
-- The federated bridge: `FederationSet`, `LockReceipt`, `AttestationBundle`, `Vault`, `BridgeError` of
-- crates/aii-crosschain/src/federation.rs. Keys, hashes, amounts and addresses are the numbers that
-- their bytes spell.
pub mod Signers
pub mod Release
pub mod Digest
use aii.Base.{
  ℕ, suc, ◌≤◌, ◌<◌, List, [], ◌∷◌, ◌++◌, Result, ok, err, panic, Bool, ltb, leb, ◌==◌, ◌!=◌, ◌&&◌,
  ◌||◌, if◌then◌else◌, length, contains, to_be_bytes,
}
use aii.Base.Bits.{bit, ilog2, count_ones}
use aii.Crypto.{Crypto, fast_aggregate_verify}

abbrev pub max_federation_size : ℕ
max_federation_size = 64

pub record FederationSet : Type 0 where
  pub pubkeys : List ℕ
  pub threshold : ℕ

pub data BridgeError : Type 0 where
  empty_federation invalid_aggregate_sig : BridgeError
  federation_too_large : ℕ → ℕ → BridgeError
  invalid_threshold : ℕ → ℕ → BridgeError
  signer_bitmap_oversized : ℕ → ℕ → BridgeError
  below_threshold : ℕ → ℕ → BridgeError
  nonce_reused : ℕ → BridgeError

-- `FederationSet::new`.
unfoldable pub new_federation : List ℕ → ℕ → Result BridgeError FederationSet
new_federation pubkeys threshold =
    if length pubkeys == 0
    then err empty_federation
    else if ltb max_federation_size (length pubkeys)
    then err (federation_too_large (length pubkeys) max_federation_size)
    else if threshold == 0 || ltb (length pubkeys) threshold
    then err (invalid_threshold threshold (length pubkeys))
    else ok (record { pubkeys = pubkeys; threshold = threshold })

-- The loop of `id`: 48 bytes for each key.
unfoldable pub key_bytes : List ℕ → List ℕ
key_bytes [] = []
key_bytes (pk ∷ pks) = to_be_bytes 48 pk ++ key_bytes pks

-- The bytes under the hash of `FederationSet::id`.
unfoldable pub federation_input : FederationSet → List ℕ
federation_input f = to_be_bytes 8 f.threshold ++ key_bytes f.pubkeys

-- `FederationSet::id`.
unfoldable pub federation_id : Crypto → FederationSet → ℕ
federation_id c f = c.keccak256 (federation_input f)

pub record LockReceipt : Type 0 where
  pub src_chain_id : ℕ
  pub asset : ℕ
  pub amount : ℕ
  pub recipient : ℕ
  pub nonce : ℕ

-- The bytes under the hash of `LockReceipt::digest`.
unfoldable pub receipt_input : LockReceipt → ℕ → List ℕ
receipt_input r federation =
    to_be_bytes 32 federation
    ++ (to_be_bytes 8 r.src_chain_id
        ++ (to_be_bytes 32 r.asset
            ++ (to_be_bytes 32 r.amount ++ (to_be_bytes 20 r.recipient ++ to_be_bytes 8 r.nonce))))

-- `LockReceipt::digest`.
unfoldable pub receipt_digest : Crypto → LockReceipt → ℕ → ℕ
receipt_digest c r federation = c.keccak256 (receipt_input r federation)

-- `signer_bitmap` has 64 bits.
pub record AttestationBundle : Type 0 where
  pub receipt : LockReceipt
  pub aggregated_sig : ℕ
  pub signer_bitmap : ℕ

pub record Released : Type 0 where
  pub receipt : LockReceipt

-- `used_nonces` is a `BTreeSet`: the list of its members.
pub record Vault : Type 0 where
  pub federation : FederationSet
  pub used_nonces : List ℕ

-- `Vault::new`.
unfoldable pub new_vault : FederationSet → Vault
new_vault federation = record { federation = federation; used_nonces = [] }

-- The filter of `release`: the keys of the signers, from index i.
unfoldable pub selected : ℕ → ℕ → List ℕ → List ℕ
selected bitmap i [] = []
selected bitmap i (pk ∷ pks) =
    let rest = selected bitmap (suc i) pks in if bit bitmap i then pk ∷ rest else rest

module _ (c : Crypto) where
  -- Step 4 of `release`.
  unfoldable pub check_aggregate : Vault → AttestationBundle → Result BridgeError (Unit {0})
  check_aggregate v b =
      let digest = receipt_digest c b.receipt (federation_id c v.federation) in
      elim (fast_aggregate_verify c b.aggregated_sig (to_be_bytes 32 digest)
        (selected b.signer_bitmap 0 v.federation.pubkeys)) [
          | ok _ ↦ ok tt
          | err _ ↦ err invalid_aggregate_sig
          | panic ↦ panic
        ]

  -- `Vault::release`.
  unfoldable pub release : Vault → AttestationBundle → Vault × Result BridgeError Released
  release v b =
      let n = length v.federation.pubkeys in
      let highest_bit = ilog2 64 b.signer_bitmap in
      let signers = count_ones 64 b.signer_bitmap in
      if b.signer_bitmap != 0 && leb n highest_bit
      then (v, err (signer_bitmap_oversized highest_bit n))
      else if ltb signers v.federation.threshold
      then (v, err (below_threshold signers v.federation.threshold))
      else if contains b.receipt.nonce v.used_nonces
      then (v, err (nonce_reused b.receipt.nonce))
      else elim (check_aggregate v b) [
        | ok _ ↦ (
          record v { used_nonces = b.receipt.nonce ∷ v.used_nonces },
          ok (record { receipt = b.receipt }),
        )
        | err e ↦ (v, err e)
        | panic ↦ (v, panic)
      ]

-- What `FederationSet::new` establishes.
pub record IsFederation (f : FederationSet) : Type 0 where
  pub positive : 0 < f.threshold
  pub reachable : f.threshold ≤ length f.pubkeys
  pub bounded : length f.pubkeys ≤ max_federation_size
