-- ===== src/Server/Backend.antt =====
-- What the handlers use of the fork: the traits `ArchiveBlockchain` of
-- crates/pop-fork/src/rpc_server/methods/archive.rs, which `Blockchain` implements.
use pop_cli.Prelude.{ℕ, List, Option}
use pop_cli.Bytes.{Bytes}
use pop_cli.Fork.Monad.{M}

pub record ArchiveBlockchain : Type 1 where
  -- the state of the fork, and all that its calls change
  pub World : Type 0
  pub head_number : M World ℕ
  pub block_hash_at : ℕ → M World (Option Bytes)
  pub block_header : Bytes → M World (Option Bytes)
  pub block_body : Bytes → M World (Option (List Bytes))
  pub call_at_block : Bytes → Bytes → Bytes → M World (Option Bytes)
  pub block_number_by_hash : Bytes → M World (Option ℕ)
  pub storage_at : ℕ → Bytes → M World (Option Bytes)
  pub storage_keys_by_prefix : Bytes → Bytes → M World (List Bytes)
  pub block_parent_hash : Bytes → M World (Option Bytes)
