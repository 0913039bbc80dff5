-- ===== src/Fork/Local.antt =====
-- crates/pop-fork/src/local.rs: the layer of local modifications over the remote layer.
mod State
mod Writes
mod Reads
mod Keys
pub mod Timeline
pub mod Refine
pub mod Commit
pub mod Runs
pub mod BatchReads
pub mod BatchHistory
pub mod Deletion
pub mod Listing
pub mod Versions
pub mod Keeping
unfoldable pub use State.*
unfoldable pub use Writes.*
unfoldable pub use Reads.*
unfoldable pub use Keys.*
