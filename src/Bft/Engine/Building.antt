-- ===== src/Bft/Engine/Building.antt =====
-- How the engine builds a block: `build_block_with_body`, `reconstruct_proposed_block_with_body` and
-- `drain_pending_txs_into_body` of crates/aii-consensus-bft/src/engine.rs.
use aii.Base.{ℕ, ◌+◌, ◌*◌, ◌/◌, ◌%◌, min, none, some, [], ◌∷◌, length, take, drop, u64_mod}
use aii.Block.{BlockBody, Block, Blocks, empty_list_hash, empty_trie_hash}
use aii.Bft.Votes.{LeaderProof}
use aii.Bft.Engine.{BftEngine, BftConfig, PostBlockRoots, placeholder_tx_gas}

module _ (b : Blocks) where
  -- `build_block_with_body`, with the roots of the oracle or those that stand for them.
  unfoldable pub roots_for : BftConfig b → BlockBody b.Tx → ℕ → ℕ → PostBlockRoots
  roots_for config body coinbase height =
      let placeholder : PostBlockRoots = record {
        state_root = empty_trie_hash;
        receipts_root = empty_trie_hash;
        logs_bloom = 0;
        gas_used = length body.transactions * placeholder_tx_gas % u64_mod;
      } in
      elim config.executor [
        | none ↦ placeholder
        | some execute_for_proposal ↦ elim (execute_for_proposal body coinbase height) [
          | none ↦ placeholder
          | some roots ↦ roots
        ]
      ]

  unfoldable pub build_block_with_body :
      BftConfig b → ℕ → ℕ → ℕ → LeaderProof → ℕ → BlockBody b.Tx → Block b.Tx
  build_block_with_body config parent_hash parent_timestamp height leader_proof coinbase body =
      let roots = roots_for config body coinbase height in
      record {
        header = record {
          parent_hash = parent_hash;
          ommers_hash = empty_list_hash;
          beneficiary = coinbase;
          state_root = roots.state_root;
          transactions_root = b.root_of body;
          receipts_root = roots.receipts_root;
          logs_bloom = roots.logs_bloom;
          difficulty = 0;
          number = height;
          gas_limit = config.gas_limit;
          gas_used = roots.gas_used;
          timestamp = (parent_timestamp + config.slot_seconds) % u64_mod;
          extra_data = b'a' ∷ b'i' ∷ b'i' ∷ b'-' ∷ b'b' ∷ b'f' ∷ b't' ∷ [];
          mix_hash = leader_proof.vrf_output;
          nonce = 0;
          base_fee_per_gas = config.base_fee_per_gas;
          withdrawals_root = empty_trie_hash;
          blob_gas_used = none;
          excess_blob_gas = none;
          parent_beacon_block_root = none;
        };
        body = body;
      }

  unfoldable pub reconstruct_proposed_block_with_body :
      BftEngine b → ℕ → LeaderProof → ℕ → BlockBody b.Tx → Block b.Tx
  reconstruct_proposed_block_with_body e height leader_proof coinbase body =
      build_block_with_body e.config e.state.head_hash e.state.head_timestamp height leader_proof
        coinbase body

  -- `drain_pending_txs_into_body`.
  unfoldable pub drain_pending_txs_into_body : BftEngine b → BftEngine b × BlockBody b.Tx
  drain_pending_txs_into_body e =
      let max_txs = e.config.gas_limit / placeholder_tx_gas in
      let taken = min (length e.pending_txs) max_txs in
      (
        record e { pending_txs = drop taken e.pending_txs },
        record { transactions = take taken e.pending_txs; ommers = []; withdrawals = [] },
      )
