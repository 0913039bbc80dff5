-- ===== src/Fork/Remote/Blocks.antt =====
-- The lookups of blocks of crates/pop-fork/src/remote.rs, cached by `cache_block`.
use pop_cli.Prelude.{ℕ, ◌%◌, ◌^◌, ◌-◌, Option, none, some}
use pop_cli.Bytes.{Bytes}
use pop_cli.Fork.Monad.{M, ◌>>=◌, ◌>>◌, pure, gets, lift}
use pop_cli.Fork.Rpc.{Rpc, RpcBlock}
use pop_cli.Fork.Cache.Tables.{ℤ, pos, negsuc, BlockRow}
use pop_cli.Fork.Cache.Blocks.{cache_block, get_block}
use pop_cli.Fork.Remote.State.{Env, call, update_db}

-- `number as u32`
abbrev as_u32 : ℤ → ℕ
as_u32 (pos n) = n % 2 ^ 32
as_u32 (negsuc n) = 2 ^ 32 - 1 - n % 2 ^ 32

module _ (rpc : Rpc) where
  unfoldable pub cache_by_number : ℕ → Option (Bytes × RpcBlock) → M (Env rpc) (Option BlockRow)
  cache_by_number block_number none = pure none
  cache_by_number block_number (some (hash, block)) = do
    update_db rpc (λ db. cache_block db hash block_number block.parent_hash block.header)
    pure (
        some (record {
          hash = hash;
          number = pos block_number;
          parent_hash = block.parent_hash;
          header = block.header;
        }))

  unfoldable pub fetch_and_cache_block_by_number : ℕ → M (Env rpc) (Option BlockRow)
  unfolding cache_by_number
  fetch_and_cache_block_by_number block_number = do
    found ← call rpc (rpc.block_by_number block_number)
    cache_by_number block_number found

  -- A block that the node knows is cached; the answer is read off it.
  unfoldable pub cache_by_hash :
      {A : Type 0} → (RpcBlock → A) → Bytes → Option RpcBlock → M (Env rpc) (Option A)
  cache_by_hash read hash none = pure none
  cache_by_hash read hash (some block) = do
    update_db rpc (λ db. cache_block db hash block.number block.parent_hash block.header)
    pure (some (read block))

  unfoldable pub of_row :
      {A : Type 0}
      → (BlockRow → A)
      → (RpcBlock → A)
      → Bytes
      → Option BlockRow
      → M (Env rpc) (Option A)
  unfolding cache_by_hash
  of_row read_row read hash (some row) = pure (some (read_row row))
  of_row read_row read hash none = do
    found ← call rpc (rpc.block_by_hash hash)
    cache_by_hash read hash found

  unfoldable pub block_number_by_hash : Bytes → M (Env rpc) (Option ℕ)
  unfolding of_row
  block_number_by_hash hash = do
    db ← gets (λ env. env.db)
    cached ← lift (get_block db hash)
    of_row (λ row. as_u32 row.number) (λ block. block.number) hash cached

  unfoldable pub parent_hash : Bytes → M (Env rpc) (Option Bytes)
  unfolding of_row
  parent_hash hash = do
    db ← gets (λ env. env.db)
    cached ← lift (get_block db hash)
    of_row (λ row. row.parent_hash) (λ block. block.parent_hash) hash cached
