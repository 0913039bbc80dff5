-- ===== src/Fork.antt =====
-- crates/pop-fork: the fork of a live chain, in layers: the SQLite cache, the remote layer over it,
-- the local layer of modifications, and the transaction pool.
pub mod Result
pub mod Monad
pub mod Rpc
pub mod Cache
pub mod Remote
pub mod Local
pub mod Pool
pub mod Block
pub mod Blockchain
pub mod Builder
pub mod Header
pub mod Tests
