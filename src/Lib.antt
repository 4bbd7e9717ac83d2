-- ===== src/Lib.antt =====
-- Verification library of the AII chain.
--
-- The program is a Rust workspace for a proof-of-stake chain. Here are its parts that are modelled, and
-- the files that model them; paths are from the root of the repository.
--
-- - Base and its children: lists, options and results, words of 32, 64 and 256 bits with wrapping,
--   checked and saturating operations, big-endian bytes, the bits of a bitmap, and maps by number.
-- - Crypto: the primitives. crates/aii-crypto wraps third-party code (Keccak, BLS signatures, a VRF),
--   which is the parameter `Crypto`. What blst and schnorrkel document is stated as `Aggregates`,
--   `Signs` and `Proves`; Crypto/Toy is a scheme that satisfies them, on which the tests run. The
--   wrappers' own checks are definitions (bls.rs: Signature::verify, aggregate_signatures,
--   fast_aggregate_verify).
-- - Bft: the consensus engine's core, crates/aii-consensus-bft/src/bft.rs, coordinator.rs and
--   slashing.rs. Bft/Validators has the validator set, its threshold and the draw of the leader;
--   Bft/Votes the votes, their digests and the leader proofs; Bft/Certificate the quorum certificates;
--   Bft/Tally the collectors of votes, which make certificates; Bft/Coordinator the state machine of one
--   height, which feeds a tallier of each kind per round and moves on by timeouts; Bft/Slashing the
--   detector of equivocation and its evidence.
-- - Block: the data of a block, crates/aii-block/src (header.rs, body.rs, withdrawal.rs, block.rs,
--   consts.rs), over any type of transactions. The hash of a header and the root of a body are the
--   parameter `Blocks`.
-- - Bft/Engine: the engine of the chain over the coordinator, crates/aii-consensus-bft/src/engine.rs.
--   Bft/Engine has its state and the methods on the head, Bft/Engine/Building how a block is built,
--   Bft/Engine/Votes the votes of the peers and their buffers, Bft/Engine/Rounds the node's own
--   proposals and votes, the proposals of the peers and the timeouts, Bft/Engine/Single the engine of
--   one validator and the trait `Engine`. `Call` lists what the host and the peers may do. The proofs:
--   Bft/Engine/Invariant the invariant, Cache the cache of committed blocks, Heads, Restarts, Proposing,
--   Casting and Calls that each method keeps it, Votes/Passes one pass over a buffer and Votes/Drain the
--   loop over the buffers, whose fuel is one more than the buffered votes, since each round but the last
--   takes one out; Alone the single validator, Stepping the step of several, Quiet the calls that leave
--   the cache and the validators alone, Serving what peers are served; Hazards what can go wrong. Each
--   method holds the lock of the state, so it is one step. The oracle `BlockExecutor` is a parameter.
-- - Bft/Wire: the messages on the wire, crates/aii-consensus-bft/src/wire.rs. Bft/Wire/Layout has
--   records of fields of fixed widths, Bft/Wire/Codec the encoder against the decoder. A slice past the
--   end panics; Bft/Wire/Codec/Total shows that the tests of the length keep the decoders from it.
-- - Bft/Gossip: the gossip driver, crates/aii-consensus-bft/src/gossip.rs, which feeds the engine what
--   arrives and sends what it casts. Its transport is the list of what was sent and the inbox of a tick;
--   the RLP codec of bodies and blocks is the parameter `BlockCodec`. The loop of `auto_harvest` runs on
--   two rounds of fuel, since a harvest leaves nothing to harvest. Bft/Gossip has the state of the
--   driver, Bft/Gossip/Inbound the handlers of messages, Casting what it casts in each phase, Loop the
--   tick. The proofs: Bft/Gossip/Handling the handlers of messages, Driving the node's own part, Ticks a
--   whole tick, Harvesting the loop, CatchUp the block sync between two drivers over Bft/Wire, Skipping
--   what a proposal does to the round.
-- - Crosschain: crates/aii-crosschain/src. Crosschain/Htlc has the time-locked contracts of htlc.rs,
--   Crosschain/Federation the federations, receipts and vaults of federation.rs.
-- - Storage: crates/aii-storage/src. Storage has the column families of cf.rs and the trait `KvBackend`
--   of backend.rs as an interface with laws, Storage/Memory the backend of memory.rs with the batches of
--   batch.rs, which fills the interface (Storage/Memory/Laws).
-- - Staking: the stake table of crates/aii-node/src/staking.rs, over any `KvBackend`: RocksDB, which the
--   node uses, is third-party code. Staking/Effects specifies the calls on the record of one address,
--   Staking/Ledger follows lists of calls for many addresses.
-- - Governance: the proposals, votes and tallies of crates/aii-node/src/governance.rs, over any
--   `KvBackend` and the stake table of Staking. Governance has the records and their bytes,
--   Governance/Calls the methods on the store; Governance/Records shows that a proposal is read back,
--   Governance/Tallying what a tally decides. The table may stand in another store, so its store is an
--   argument of its own.
-- - TxPool: the transaction pool of crates/aii-net-txpool/src/lib.rs, over any type of transactions.
--   TxPool/Map has its map, TxPool/Adding `add`, TxPool/Draining `drain_ready`, TxPool/Batching
--   `drain_up_to`, TxPool/Evicting `evict_to`, with TxPool/Prices its sort and TxPool/Removing its
--   removals. The loop of `drain_ready` runs on the number of entries as fuel, which is enough since
--   each round removes one.
-- - Sync: the block sync of crates/aii-net-sync/src/lib.rs, over any chain. Sync/Buffer has headers at
--   consecutive heights, Sync/Handling the single events, Sync/Bodies and Sync/Honest whole runs.
-- - Vnode: the validator accounts of crates/aii-vnode/src/lib.rs. Vnode/Accounts has the invariant,
--   Vnode/Ledger single calls against a ledger of amounts, Vnode/Runs lists of calls, Vnode/Reward the
--   split of a reward.
-- - Microchain: the sub-chains of crates/aii-microchain/src/lib.rs. Microchain/Flushes has the registry,
--   Microchain/Frames the parser of the data that anchors a sub-chain in its parent.
--
-- A method that takes `&mut self` is a function from the state to the state that it leaves and its result.
-- A panic (an index out of range, an `expect` that fails) is a result of its own, so that its absence
-- is a theorem. Only in staking.rs, governance.rs and aii-microchain, where every slice follows a test
-- of the length or stands after the prefix of a scan, slices are total functions. The prevote and the
-- precommit versions of a type in bft.rs differ in the type and in the domain of the digest alone, and
-- are one definition over a `VoteKind`. Hashes, keys and signatures are the numbers that their bytes
-- spell. A `usize` has 64 bits, and arithmetic is that of a release build: unchecked operations wrap.
-- A BTreeMap or a BTreeSet is a list of its entries. All other loops run over a list and need no fuel.
-- The arithmetic of `U256` wraps, as its library documents.
--
-- Not modelled: what the process does with sockets, files, locks and threads; JSON, HTTP and the
-- command line; the third-party virtual machines and databases; accessors that return a field.
pub mod Base
pub mod Crypto
pub mod Block
pub mod Bft
pub mod Crosschain
pub mod Storage
pub mod Staking
pub mod Governance
pub mod TxPool
pub mod Vnode
pub mod Microchain
pub mod Sync
