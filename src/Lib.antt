-- ===== src/Lib.antt =====
-- The RandChain prototype: a node of a proof-of-work chain whose blocks also carry the proof of a
-- verifiable delay function. Blocks and headers arrive over the peer-to-peer network (crate p2p), are
-- ordered and queued by the synchronization (crate sync), checked by the verification rules (crate
-- verification) against the stored chain (crates storage and db), and stored.
--
-- What stands where, with the paths of the repository:
--   Blocks            chain/src/block_header.rs, indexed_header.rs, indexed_block.rs; storage/src/block_ref.rs,
--                     best_block.rs; what the synchronization reads of a storage.
--   Primitives        primitives/src/compact.rs: the compact form of a target.
--   Network           network/src/network.rs: the networks and their limits.
--   Storage           storage/src/block_ancestors.rs, block_origin.rs and the trait for headers.
--   Verification      verification/src: Work (work.rs), Timestamp (timestamp.rs), Headers (verify_header.rs,
--                     accept_header.rs), ChainVerifier (verify_block.rs, verify_chain.rs, accept_block.rs,
--                     accept_chain.rs, chain_verifier.rs), Errors (error.rs, constants.rs).
--   Sync.HashQueue, Sync.QueueChain   sync/src/utils/hash_queue.rs
--   Sync.BestHeaders                  sync/src/utils/best_headers_chain.rs
--   Sync.KnownHashFilter              sync/src/utils/known_hash_filter.rs
--   Sync.OrphanPool                   sync/src/utils/orphan_blocks_pool.rs
--   Sync.Chain                        sync/src/synchronization_chain.rs: Insertion is insert_best_block,
--                                     Locators the block locators, Report its information.
--   Serialization     serialization/src: Reader (reader.rs), Impls (impls.rs), CompactInteger
--                     (compact_integer.rs), Lists (stream.rs, reader.rs), and Headers for the encoding of
--                     chain/src/block_header.rs and block.rs.
--   Db.Kv             db/src/kv: Transaction (transaction.rs, db.rs), Memory (memorydb.rs), Overlay
--                     (overlaydb.rs); Reliable and Layers say what a database promises.
--   Db.Chain          db/src/block_chain_db.rs: the reading methods, Writes (insert, canonize, decanonize),
--                     Origin (block_origin), Forks (fork, switch_to_fork). Ledger is what they promise, and
--                     Refinement relates them to it.
--   P2p.Synchronizer                  p2p/src/util/synchronizer.rs
--   P2p.ResponseQueue                 p2p/src/util/response_queue.rs
-- The functions keep their names, a method stands in the module of its type. The modules below a
-- component's hold its lemmas and theorems, those called Tests hold runs on concrete inputs.
--
-- How the code is read:
--   A method that changes its object returns the new object beside its result. `Run` is a result or a
--   panic: a failed `expect` or `assert!`, an index out of range, or `unreachable!`. `Result` is Rust's.
--   A `u32` is a number below 2 ^ 32, and its arithmetic wraps, as in the release profile; `as u32`
--   keeps the low 32 bits. An `H256` is the number that its bytes spell, the last byte first, which is
--   the number that `U256::from` reads off the reversed hash. A `HashSet` is a list read by membership,
--   a `HashMap` a list of pairs read by key, a `VecDeque` a list from its front.
--   A reader stands over a slice; `serialize` gives the bytes that it appends. Memory is taken to
--   suffice.
--   The types `VrfPk` of `ecvrf` and `Integer` of `rug` are parameters, with their bytes, as is what
--   `byteorder` writes. A `U256` of `bigint` is a number; its shift to the left, product and bit length
--   are parameters. Whether the VDF proof of a block holds (verification/src/verify_block.rs calls
--   `vdf::verify` on `h_g` of the block), the clock and the store are parameters too.
--   Fuel: the loop of `BestHeadersChain::clear_after` runs on the length of the deque, of which a round
--   takes one hash; `read_exact` runs on the number of bytes it wants, of which a round that goes on reads
--   one; `skip_while` takes one for each byte. The loops of the block
--   locators run on the number of queued hashes and on the index of the storage and one more, since a
--   round that goes on makes the index smaller. `remove_blocks_for_parent` gets one round more than the
--   pool has blocks: a round takes a hash from the queue, and what it puts there are blocks that leave the
--   pool. The other loops go over a list or a given number of rounds.
--
-- The store below `BlockChainDatabase` is an instance of `KeyValueDatabase`; the theorems take one that is
-- reliable, which the database in memory and the overlays are. The loop of `block_origin` runs on the 2048
-- rounds of the source.
--
-- Not modelled: the node's threads, sockets and files, the RPC interface, the command line, the binding of
-- RocksDB and the cache before it, `forget_block_with_children` of sync/src/synchronization_chain.rs, the
-- messages, the miner and the arithmetic of the VDF.
pub mod Prelude
pub mod Blocks
pub mod Primitives
pub mod Network
pub mod Storage
pub mod Verification
pub mod Sync
pub mod P2p
pub mod Serialization
pub mod Db
