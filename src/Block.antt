-- ===== src/Block.antt =====
-- Blocks: `Header`, `BlockBody`, `Withdrawal`, `Block` of crates/aii-block/src, over any type of
-- transactions. Hashes, addresses, blooms and 256-bit numbers are the numbers that they spell.
use aii.Base.{ℕ, List, Option}

pub record Header : Type 0 where
  pub parent_hash : ℕ
  pub ommers_hash : ℕ
  pub beneficiary : ℕ
  pub state_root : ℕ
  pub transactions_root : ℕ
  pub receipts_root : ℕ
  pub logs_bloom : ℕ
  pub difficulty : ℕ
  pub number : ℕ
  pub gas_limit : ℕ
  pub gas_used : ℕ
  pub timestamp : ℕ
  pub extra_data : List ℕ
  pub mix_hash : ℕ
  pub nonce : ℕ
  pub base_fee_per_gas : ℕ
  pub withdrawals_root : ℕ
  pub blob_gas_used : Option ℕ
  pub excess_blob_gas : Option ℕ
  pub parent_beacon_block_root : Option ℕ

pub record Withdrawal : Type 0 where
  pub index : ℕ
  pub validator_index : ℕ
  pub address : ℕ
  pub amount : ℕ

module _ (Tx : Type 0) where
  pub record BlockBody : Type 0 where
    pub transactions : List Tx
    pub ommers : List Header
    pub withdrawals : List Withdrawal

  pub record Block : Type 0 where
    pub header : Header
    pub body : BlockBody

-- `EMPTY_LIST_HASH` and `EMPTY_TRIE_HASH`.
abbrev pub empty_list_hash : ℕ
empty_list_hash = 0x1dcc4de8dec75d7aab85b567b6ccd41ad312451b948a7413f0a142fd40d49347

abbrev pub empty_trie_hash : ℕ
empty_trie_hash = 0x56e81f171bcc55a6ff8345e692c0f86e5b48e01b996cadc001622fb5e363b421

-- The transactions of a chain, the Keccak hash of the RLP of a header, and the root of the trie of the
-- transactions of a body (crates/aii-state/src/trie.rs), which other code uses by their results alone.
pub record Blocks : Type 1 where
  pub Tx : Type 0
  pub header_hash : Header → ℕ
  pub root_of : BlockBody Tx → ℕ

module _ (b : Blocks) where
  -- `Block::hash`.
  abbrev pub block_hash : Block b.Tx → ℕ
  block_hash block = b.header_hash block.header
