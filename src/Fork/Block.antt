-- ===== src/Fork/Block.antt =====
-- Blocks of a fork, crates/pop-fork/src/block.rs. The modifications that the storage layers of all
-- blocks of a fork share are passed along as `Shared`; a block keeps its own `Handle`.
pub mod Laws
use pop_cli.Prelude.{ℕ, ◌+◌, List, [], Option, none, some}
use pop_cli.Bytes.{Bytes}
use pop_cli.Fork.Result.{block_hash_not_found, block_number_not_found, runtime_code_not_found}
use pop_cli.Fork.Monad.{M, ◌>>=◌, pure, raise, or_recover}
use pop_cli.Fork.Rpc.{Rpc, RpcBlock, RpcHeader}
use pop_cli.Fork.Remote.{Env, call}
use pop_cli.Fork.Local.{Handle, Shared, Layer, LocalSharedValue, new, commit, get, metadata_at}

-- `Block`, without its parent.
pub record Fields : Type 0 where
  pub number : ℕ
  pub hash : Bytes
  pub parent_hash : Bytes
  pub header : Bytes
  pub extrinsics : List Bytes
  pub handle : Handle

-- `Block`: with `parent: None` and with `parent: Some(_)`.
pub data Block : Type 0 where
  fork_block : Fields → Block
  child_block : Fields → Block → Block

abbrev pub fields : Block → Fields
fields (fork_block f) = f
fields (child_block f parent) = f

abbrev pub with_fields : Block → Fields → Block
with_fields (fork_block _) f = fork_block f
with_fields (child_block _ parent) f = child_block f parent

pub data BlockForkPoint : Type 0 where
  at_number : ℕ → BlockForkPoint
  at_hash : Bytes → BlockForkPoint

abbrev pub layer_of : {rpc : Rpc} → Shared rpc → Block → Layer rpc
layer_of shared block = record { handle = (fields block).handle; shared = shared }

-- `.unwrap_or_default()` on the extrinsics of the block that the node returns.
abbrev pub extrinsics_of : Option RpcBlock → List Bytes
extrinsics_of none = []
extrinsics_of (some block) = block.extrinsics

-- `.and_then(|v| v.value.clone()).ok_or(BlockError::RuntimeCodeNotFound)`
abbrev pub code_of : {S : Type 0} → Option LocalSharedValue → M S Bytes
code_of none = raise runtime_code_not_found
code_of (some v) = elim v.value [ none ↦ raise runtime_code_not_found | some code ↦ pure code ]

module _ (rpc : Rpc) where
  header_by_number : Option (Bytes × RpcBlock) → M (Env rpc) (Bytes × RpcHeader)
  header_by_number none = raise block_number_not_found
  header_by_number (some (hash, block)) = pure (
    hash,
    record { number = block.number; parent_hash = block.parent_hash; encoded = block.header },
  )

  unfoldable pub header_at : BlockForkPoint → M (Env rpc) (Bytes × RpcHeader)
  unfolding header_by_number
  header_at (at_number n) = call rpc (rpc.block_by_number n) >>= header_by_number
  header_at (at_hash hash) = do
    header ← or_recover (call rpc (rpc.header hash)) (raise block_hash_not_found)
    pure (hash, header)

  unfoldable pub fork_point : BlockForkPoint → M (Env rpc) (Block × Shared rpc)
  unfolding header_at
  fork_point point = do
    found ← header_at point
    block ← call rpc (rpc.block_by_hash found.0)
    metadata ← call rpc (rpc.metadata found.0)
    (let layer = new rpc found.1.number found.0 metadata in
        pure (
          fork_block (record {
            number = found.1.number;
            hash = found.0;
            parent_hash = found.1.parent_hash;
            header = found.1.encoded;
            extrinsics = extrinsics_of block;
            handle = layer.handle;
          }),
          layer.shared,
        ))

  -- `child`: the commit moves the parent's own handle on, and the child has a clone of it.
  unfoldable pub child : Shared rpc → Block → Bytes → Bytes → List Bytes → M (Env rpc) Block
  child shared block hash header extrinsics = do
    layer ← commit {rpc = rpc} (layer_of shared block)
    pure (
        child_block
          (record {
            number = (fields block).number + 1;
            hash = hash;
            parent_hash = (fields block).hash;
            header = header;
            extrinsics = extrinsics;
            handle = layer.handle;
          })
          (with_fields block (record (fields block) { handle = layer.handle })))

  unfoldable pub block_metadata : Shared rpc → Block → M (Env rpc) rpc.Metadata
  block_metadata shared block =
      metadata_at {rpc = rpc} (layer_of shared block) (fields block).number

  -- `:code` is a key of the library `sp_core`, so an argument.
  unfoldable pub runtime_code : Bytes → Shared rpc → Block → M (Env rpc) Bytes
  runtime_code code_key shared block = do
    value ← get rpc (layer_of shared block) (fields block).number code_key
    code_of value
