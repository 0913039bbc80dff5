-- ===== src/Server/ChainHead.antt =====
-- The `chainHead` methods, crates/pop-fork/src/rpc_server/methods/chain_head.rs.
pub mod State
pub mod Methods
pub mod Tasks
pub mod Steps
pub mod Rules
pub mod Bounds
pub mod Counting
pub mod Safety
pub mod Leaks
pub mod Exhaustion
pub mod Ending
pub mod Settling
pub mod Follow
