-- ===== src/Lib.antt =====
-- A verification library for the pop-cli repository: the fork engine, crates/pop-fork, with the
-- `archive`, `chainHead` and `author` methods of its RPC server.
--
-- `pop fork` serves a live chain from a local process. Reads of the chain's state go through three
-- layers, each on top of the next:
--   * the cache, crates/pop-fork/src/cache.rs: an SQLite database with what was fetched from the
--     node, the blocks that were seen, the progress of scans of prefixes, and the history of what
--     the fork itself wrote, as ranges of blocks in which a value is valid;
--   * the remote layer, crates/pop-fork/src/remote.rs: reads of the state of a block of the chain,
--     from the cache or else from the node, with prefetching of prefixes;
--   * the local layer, crates/pop-fork/src/local.rs: what the fork has written since the fork point,
--     in memory and (once a block is committed) in the history of the cache.
-- Blocks are built on the local layer, and the RPC server answers clients from the blocks.
--
-- Files:
--   * Prelude, Bytes, Assoc: library names, tests on numbers, lists, byte strings in the order of
--     slices, and maps as association lists.
--   * Fork.Result, Fork.Monad: errors, and code with a state that may fail. A failure keeps the
--     state that was reached, as an `async fn` that returns early does.
--   * Fork.Rpc: the node, crates/pop-fork/src/rpc.rs, as a record of calls. It is a service outside
--     the repository, so a parameter; `IsHonest` says that its replies are the state of the chain
--     `chain`, or errors that `Fails` allows.
--   * Fork.Cache.Tables: the rows of crates/pop-fork/src/models.rs and the tables of
--     crates/pop-fork/src/schema.rs. A table is the list of its rows in the order of row ids.
--   * Fork.Cache.Prefix, Storage, History, Blocks, Retry: the operations of `StorageCache`, each with
--     its laws in the modules below it.
--   * Fork.Remote.State, Prefetch, Reads, Blocks: `RemoteStorageLayer`, with its laws in
--     Fork.Remote.Sound.
--   * Fork.Local.State, Writes, Reads, Keys: `LocalStorageLayer`, with its contract in
--     Fork.Local.Timeline and its laws in Refine, Commit, Runs, BatchReads, BatchHistory, Deletion,
--     Listing and Versions.
--   * Fork.Pool: `TxPool`, crates/pop-fork/src/txpool.rs.
--   * Fork.Block: `Block`, crates/pop-fork/src/block.rs, with what a child sees in Fork.Block.Laws.
--   * Fork.Blockchain: the lookups of blocks and the reads of storage in
--     crates/pop-fork/src/blockchain.rs.
--   * Fork.Builder: `BlockBuilder`, crates/pop-fork/src/builder.rs, and the loop of `build_block`; its
--     state is in State, the phases in Phases, the inherents in Inherents,
--     the extrinsics in Laws, the finished block in Writes and
--     Finish.
--   * Fork.Header: the header of the next block and the timestamp inherent, with
--     crates/pop-fork/src/inherent/slot.rs (in Slots) and timestamp.rs.
--   * Fork.Blockchain.Build: `build_block` and its phases; its laws are in Live, Stages, Closing,
--     Extrinsics, Preparing and Laws, and for builds that run at the same time in Parents, Names,
--     Concurrent and Chaining. What reads keep is in Fork.Remote.Sound.Keeping, Fork.Local.Keeping
--     and Fork.Header.Keeping, what a runtime may do in Fork.Builder.Hosts.
--   * Fork.Blockchain.Validate: `validate_extrinsic` of blockchain.rs.
--   * Fork.Blockchain.Queries: `storage_keys_paged`, `call_at_block` and `storage_batch` of blockchain.rs;
--     their laws are in Paging and Called.
--   * Fork.Tests: concrete inputs.
--   * Server.Error, Hex, Handler: errors of the RPC server, crates/pop-fork/src/rpc_server/types.rs and
--     parse.rs, and handlers that may answer early.
--   * Server.Backend: what the methods use of `Blockchain`, as a record of operations. Server.OverFork
--     fills it with the reads of Fork.Blockchain.
--   * Server.Items: `query_storage_item` and the items of both families of methods.
--   * Server.ChainHead: crates/pop-fork/src/rpc_server/methods/chain_head.rs. The state is in State, the
--     handlers in Methods, the tasks in Tasks, the step relation in Steps, the loop of `follow` in
--     Follow; the laws are in Rules, Bounds, Counting, Safety, Leaks, Exhaustion, Ending and Settling.
--   * Server.Archive: crates/pop-fork/src/rpc_server/methods/archive.rs, with the laws of
--     `storage_diff` in Diff and StorageDiff.
--   * Server.Author: crates/pop-fork/src/rpc_server/methods/author.rs, over the fork in Backing; what a
--     watching client is sent is in Watched.
--   * Server.Tests: concrete inputs.
--
-- How the code is modelled:
--   * A query of SQLite is its meaning on the list of rows: the first match where the code calls
--     `first`, all in order where it calls `load`, a conflict clause as an update in place. A write
--     is the effect of the statement or transaction that succeeds; the loop round each write, which
--     retries on a lock, is Fork.Cache.Retry, over any outcomes of the executions. Its fuel is 31,
--     the number of executions that the code allows, and is proved enough.
--   * Other failures of the database and of its connection pool, and poisoned locks, are left out.
--   * An `H256` is its bytes. A header is its encoding. Block numbers are natural numbers; where the
--     code checks for `u32` (`checked_add` in `commit`, the check of cached numbers) so does the
--     model. The counters of statistics wrap at 2^64.
--   * The state that the clones of a local layer share is `Shared`, what each has for itself is
--     `Handle`. Blocks keep a handle, and what their layers share is passed along.
--   * The runtime is a parameter, `Runtime`: it runs in a WebAssembly engine, a library. So are the
--     providers of inherents, and the hash functions.
--   * The loops over pages of keys (`prefetch_prefix`) and over deleted keys (`next_key`) depend on
--     the node for their end; they run on fuel that is an argument, and `stuck` is no value.
--   * A handler of `chainHead` is two steps, as it tests its limit first and registers or counts later:
--     up to the test (with the lookup of the subscription), and from the count to the spawn of its task
--     (with the lookup of a block in between). A task with the events it sends is one step. Between
--     steps any other request, end of a task, or change of the fork may come. How many handlers can be
--     between their steps at once is bounded by the server library, so the bound is a parameter,
--     `capacity`. A handle is a number in a store, an operation id is its number.
--   * The hex codec, the hash of values, and the call that is passed on to the node are parameters.
--
-- Not modelled: the encoding of headers, connections and reconnections of the RPC client, the
-- opening and migration of the database, warm-up and prefetching for a block, the parachain inherent,
-- execution of the runtime, the listening RPC server with its older methods (`state`, `chain`,
-- `system`, `dev`), and the crates pop-cli, pop-common, pop-chains, pop-contracts and
-- pop-telemetry.
pub mod Prelude
pub mod Bytes
pub mod Assoc
pub mod Fork
pub mod Server
