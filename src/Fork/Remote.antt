-- ===== src/Fork/Remote.antt =====
-- crates/pop-fork/src/remote.rs: storage reads through the cache, with prefetching by prefix, and
-- the lookups of blocks. `Env` is the state: the database, the counters and the node.
mod State
mod Prefetch
mod Reads
mod Blocks
pub mod Sound
unfoldable pub use State.*
unfoldable pub use Prefetch.*
unfoldable pub use Reads.*
unfoldable pub use Blocks.*
