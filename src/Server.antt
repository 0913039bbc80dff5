-- ===== src/Server.antt =====
-- The JSON-RPC server of a fork, crates/pop-fork/src/rpc_server.
pub mod Error
pub mod Hex
pub mod Backend
pub mod Items
pub mod Handler
pub mod ChainHead
pub mod Archive
pub mod OverFork
pub mod Author
mod Tests
