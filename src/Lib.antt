-- ===== src/Lib.antt =====
-- A verification library of the Paqus full node (Cargo package in src/), of its runtime above all.
--
-- The program. The node keeps a ledger, a pool of pending transactions, a record of forks, blocks that
-- wait for their parent, and a queue of parents to ask its peers for (src/runtime/node/node.rs). The
-- pool (src/runtime/mempool/mempool.rs) admits transactions against the ledger and selects them for a
-- block; the miner (src/runtime/miner/miner.rs) builds a block of them and searches its nonce; the node
-- applies blocks, its own and those of peers, moves to a better branch where one appears, and gives the
-- transactions of abandoned blocks back to the pool. The storage (src/runtime/storage/storage.rs) keeps
-- the ledger in eight LMDB databases with indexes of blocks and transactions, and checks the stored
-- chain when the node starts again. A node downloads the blocks that it misses from its peers
-- (src/p2p.rs); the service (src/main.rs) reads the configuration, keeps the table of known peers, and
-- marks each of them by the outcome of its poll. Beside it stand the record of gossip (src/gossip.rs)
-- and the wallet's choice of a nonce (src/mempool.rs).
--
-- The files.
--   Base, Base/*     Boolean tests, `Result` and its monad, lists, queues without repeats, machine
--                    words, the stable sort of `sort_by`
--   BTreeMap, */*    `BTreeMap`, `BTreeSet` and the hash sets, with their laws, sums and queues
--   Paqus            the crate `paqus` (types, ledger, consensus, fork choice), whose source is not in
--                    the repository: a record of its types and functions, over which the models run
--   Mempool          state, reads, expiry and confirmation of the pool: `Mempool`, `MempoolConfig`,
--                    `prune_expired`, `remove`, `remove_confirmed`, `clear`
--   Mempool/Policy   `validate_fee_policy`, `validate_timestamp_policy`, `replacement_candidate`,
--                    `validate_against_ledger_excluding`
--   Mempool/Insert   `insert_at`, `insert_validated_at`, `insert_unchecked`
--   Mempool/Select   `select_for_block`; Mempool/Candidate: `create_candidate_block`
--   Mempool/Accounting, Admission, Histories, Outcome, Slots, Solvency, Nonces   theorems on the pool
--   Miner            `mine_candidate_block`, `prepare_candidate_block`, `mine_prepared_block`
--   Storage          what the node calls of src/runtime/storage/storage.rs, as an interface, and its
--                    errors; Storage/Integrity: `validate_chain_integrity`
--   Storage/Access   `Storage`, its databases, `read_bytes`, `put_value`, a transaction of writes;
--                    Storage/Tables: keys and tables; Storage/Saves, Loads: `save_*` and `load_*`
--   Storage/Contents what the code relies on of LMDB and Borsh, as laws
--   Storage/Fills, Written, Indexed, Found, SavedBlock, Roundtrip, SavedTip, SavedLedger, Tipless,
--                    Reloaded, Restart, AccountRows, ChainRows, Restored, Version, AddressIndex
--                    theorems on what is stored and loaded
--   Storage/Implementation   the interface filled with these operations
--   Cache            src/runtime/cache.rs
--   Node             the state of the node and its errors
--   Node/Requests    the queue of missing parents; Node/Orphans: the waiting blocks and their index
--   Node/Chain       the ledger of a branch, difficulties, the checks on a block
--   Node/Apply       `apply_block`, `apply_known_parent_block`, `reorg_to_best_tip`,
--                    `process_orphans_for_parent`
--   Node/Calls       `new`, `submit_transaction`, `mine_block`, `flush_to_storage`, balances; Node/Reads
--   Node/Startup     `init_or_load`, `index_stored_blocks`
--   Node/Invariant, Keeping, Progress, Checks, Calls/Histories, Calls/Pending, Startup/Ends
--                    theorems on the node as a whole
--   Signing          src/runtime/wallet/wallet.rs, over the crate's cryptography
--   Network          src/runtime/network/message.rs; Network/Transport: transport.rs;
--                    Network/Handler: handler.rs
--   Gossip           `GossipDedupe`; Peers: `PeerState`; Wallet: `resolve_wallet_nonce`
--   Peers/Sync       `poll_peer_connection` and what it asks of a peer; Peers/Gate, Polls: theorems
--   Config           src/main.rs: `RunConfig` and its defaults; Config/File: its file; Config/Args: the
--                    command line of `node run`; Config/Normal: the theorem
--   Service          src/main.rs: the peers of `NodeService`; Service/Known, Table, Mining:
--                    theorems
--   Tests/*          a small stand-in for the crate and the storage, and runs at concrete inputs
--
-- How the code is read. A function that changes an object returns the new one with its result. A hash,
-- an address or a key of a map is a number, the most significant byte first. Sums of `u32` wrap, and the
-- saturating and checked operations are written out; `usize` and `u64` are 64 bits wide. The clock is
-- an argument: one reading for each call of the node, where the code reads it again within the call. A
-- panic is `none`, as is a loop whose fuel ran out. The fuel of `mark_seen` is one more than its queue
-- is long; that of `process_orphans_for_parent` is two more than there are orphans, since each round
-- takes a parent off the stack and adds one only for an orphan that it takes away;
-- that of `index_stored_blocks` is one more than there are blocks, since a round that places a block
-- leaves fewer. The loop over heights of a poll has at most 64 rounds, and a stream without further
-- answers is at its end.
--
-- LMDB, Borsh and the parsing of texts are parameters. That a read after a write finds what was written,
-- that a cursor passes over what is stored, and that Borsh reads what it has written are hypotheses
-- (Storage/Contents, Storage/Restored), with instances in Tests/Disk, Tests/Saved and Tests/Restarted; so
-- is what the loading of a ledger relies on of the crate's ledger (Storage/ChainRows), with an instance in
-- Tests/Restarted. A peer is the list of what its stream will give, each answer with the time at which it
-- arrives; the node's lock is free whenever it is asked for.
--
-- What is not modelled. Storage::temporary and the file store of src/storage.rs; the commands other than
-- node run, menus, RPC, the gateway, sockets, HTTP, libp2p, threads and files; what is printed, and the
-- texts of errors, which are told apart by what they say. A stream is the list of its bytes.
pub mod Base
pub mod BTreeMap
pub mod Paqus
pub mod Mempool
pub mod Gossip
pub mod Peers
pub mod Wallet
pub mod Signing
pub mod Miner
pub mod Storage
pub mod Cache
pub mod Node
pub mod Network
pub mod Config
pub mod Service
mod Tests
