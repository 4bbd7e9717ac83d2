-- ===== src/Microchain.antt =====
-- The sub-chains of crates/aii-microchain/src/lib.rs: `Registry` and `parse_flush_anchor`. A name is
-- the list of its bytes.
pub mod Flushes
pub mod Frames
mod Tests
use aii.Base.{
  ℕ, List, [], ◌∷◌, Option, none, some, Result, ok, err, Bool, true, false, ◌==◌, ◌&&◌,
  if◌then◌else◌, length, take, drop, from_be_bytes,
}
use aii.Base.Maps.{map_get, map_insert}

-- `FLUSH_TX_MAGIC`, the bytes of "AII_FLUSH".
abbrev pub flush_tx_magic : List ℕ
flush_tx_magic = 65 ∷ 73 ∷ 73 ∷ 95 ∷ 70 ∷ 76 ∷ 85 ∷ 83 ∷ 72 ∷ []

pub record FlushTxPayload : Type 0 where
  pub sub_chain_id : ℕ
  pub sub_block_hash : ℕ
  pub sub_block_number : ℕ

unfoldable pub starts_with : List ℕ → List ℕ → Bool
starts_with bytes [] = true
starts_with [] (m ∷ magic) = false
starts_with (b ∷ bytes) (m ∷ magic) = (b == m) && starts_with bytes magic

unfoldable pub parse_flush_anchor : List ℕ → Option FlushTxPayload
parse_flush_anchor bytes =
    let rest = drop 9 bytes in
    if (length bytes == 53) && starts_with bytes flush_tx_magic
    then some (record {
      sub_chain_id = from_be_bytes (take 4 rest);
      sub_block_hash = from_be_bytes (take 32 (drop 4 rest));
      sub_block_number = from_be_bytes (take 8 (drop 36 rest));
    })
    else none

pub data ConsensusKind : Type 0 where
  bft poa : ConsensusKind

pub record MicroChainSpec : Type 0 where
  pub id : ℕ
  pub name : List ℕ
  pub flush_interval_blocks : ℕ
  pub consensus : ConsensusKind

pub record FlushAnchor : Type 0 where
  pub sub_block_hash : ℕ
  pub parent_block_hash : ℕ
  pub sub_block_number : ℕ

pub record Registry : Type 0 where
  pub specs : List (ℕ × MicroChainSpec)
  pub anchors : List (ℕ × FlushAnchor)

pub data MicroChainError : Type 0 where
  reserved_id duplicate invalid_flush_interval unknown : MicroChainError

-- `MicroChainId::MAIN`.
abbrev pub main_chain : ℕ
main_chain = 0

-- `Registry::new`.
abbrev pub new_registry : Registry
new_registry = record { specs = []; anchors = [] }

-- `Registry::register`.
unfoldable pub register : Registry → MicroChainSpec → Registry × Result MicroChainError Unit
register r spec =
    if spec.id == main_chain then (r, err reserved_id) else elim (map_get spec.id r.specs) [
      | some _ ↦ (r, err duplicate)
      | none ↦
          if spec.flush_interval_blocks == 0
          then (r, err invalid_flush_interval)
          else (record r { specs = map_insert spec.id spec r.specs }, ok tt)
    ]

-- `Registry::record_flush`.
unfoldable pub record_flush : Registry → ℕ → FlushAnchor → Registry × Result MicroChainError Unit
record_flush r id anchor = elim (map_get id r.specs) [
  | none ↦ (r, err unknown)
  | some _ ↦ (record r { anchors = map_insert id anchor r.anchors }, ok tt)
]

-- `Registry::last_flush`.
unfoldable pub last_flush : Registry → ℕ → Option FlushAnchor
last_flush r id = map_get id r.anchors
