-- ===== src/Fork/Blockchain.antt =====
-- The lookups of blocks in crates/pop-fork/src/blockchain.rs: the blocks of the fork first, from the
-- head down, and then the node, with one reconnection.
pub mod Laws
pub mod Storage
pub mod Build
pub mod Validate
pub mod Queries
pub mod Paging
pub mod Called
use pop_cli.Prelude.{
  ℕ, ◌+◌, Bool, true, false, List, [], ◌∷◌, map, Option, none, some, ltb, nat_beq, if◌then◌else◌,
  take, filter,
}
use pop_cli.Bytes.{Bytes, bytes_beq, lt_bytes}
use pop_cli.Fork.Result.{Error, invalid_response}
use pop_cli.Fork.Monad.{Outcome, returns, raises, stuck, M, ◌>>=◌, pure, recover}
use pop_cli.Fork.Rpc.{Rpc, RpcBlock, RpcHeader}
use pop_cli.Fork.Remote.{Env, call, parent_hash, block_number_by_hash}
use pop_cli.Fork.Remote
use pop_cli.Fork.Local.{Shared, get, keys_by_prefix}
use pop_cli.Fork.Block.{layer_of, Fields, Block, fork_block, child_block, fields, extrinsics_of}

-- The `while let` loop: the first block, from the head down, that the test accepts.
unfoldable pub find_block : (Fields → Bool) → Block → Option Fields
find_block test (fork_block f) = if test f then some f else none
find_block test (child_block f parent) =
    let rest = find_block test parent in if test f then some f else rest

abbrev pub has_hash : Bytes → Fields → Bool
has_hash hash f = bytes_beq f.hash hash

abbrev pub has_number : ℕ → Fields → Bool
has_number number f = nat_beq f.number number

-- `Some(block) => Ok(Some(…))`, or else the upstream node.
abbrev pub or_upstream :
    {S A : Type 0} → (Fields → A) → Option Fields → M S (Option A) → M S (Option A)
or_upstream get_field none upstream = upstream
or_upstream get_field (some f) upstream = pure (some (get_field f))

-- `RpcClientError::InvalidResponse(_)`
abbrev is_invalid_response : Error → Bool
is_invalid_response invalid_response = true
is_invalid_response e = false

module _ (rpc : Rpc) where
  -- After an error: reconnect and call again, or give the first error if there is no connection.
  unfoldable pub retry_upstream :
      {A : Type 0} → M (Env rpc) A → Outcome (Env rpc) A → Outcome (Env rpc) A
  retry_upstream m (returns a s) = returns a s
  retry_upstream m stuck = stuck
  retry_upstream m (raises e s) = elim (call rpc rpc.reconnect s) [
    | returns _ s' ↦ m s'
    | raises _ s' ↦ raises e s'
    | stuck ↦ stuck
  ]

  unfoldable pub with_upstream : {A : Type 0} → M (Env rpc) A → M (Env rpc) A
  unfolding retry_upstream
  with_upstream m env = retry_upstream m (m env)

  -- `RemoteStorageLayer::block_body`
  unfoldable pub remote_body : Bytes → M (Env rpc) (Option (List Bytes))
  remote_body hash = do
    block ← call rpc (rpc.block_by_hash hash)
    pure (elim block [ none ↦ none | some b ↦ some b.extrinsics ])

  -- `RemoteStorageLayer::block_header`: an invalid response means that there is no such header.
  unfoldable pub remote_header : Bytes → M (Env rpc) (Option Bytes)
  remote_header hash env = elim (call rpc (rpc.header hash) env) [
    | returns h env' ↦ returns (some h.encoded) env'
    | raises e env' ↦ if is_invalid_response e then returns none env' else raises e env'
    | stuck ↦ stuck
  ]

  unfoldable pub block_body : Block → Bytes → M (Env rpc) (Option (List Bytes))
  unfolding find_block with_upstream remote_body
  block_body head hash =
      or_upstream (λ f. f.extrinsics) (find_block (has_hash hash) head)
        (with_upstream (remote_body hash))

  unfoldable pub block_header : Block → Bytes → M (Env rpc) (Option Bytes)
  unfolding find_block with_upstream remote_header
  block_header head hash =
      or_upstream (λ f. f.header) (find_block (has_hash hash) head)
        (with_upstream (remote_header hash))

  unfoldable pub block_hash_at : Block → ℕ → M (Env rpc) (Option Bytes)
  unfolding find_block with_upstream
  block_hash_at head number =
      if ltb (fields head).number number
      then pure none
      else or_upstream (λ f. f.hash) (find_block (has_number number) head)
          (with_upstream (call rpc (rpc.block_hash_at number)))

  unfoldable pub number_by_hash : Block → Bytes → M (Env rpc) (Option ℕ)
  unfolding find_block with_upstream
  number_by_hash head hash =
      or_upstream (λ f. f.number) (find_block (has_hash hash) head)
        (with_upstream (block_number_by_hash rpc hash))

  unfoldable pub block_parent_hash : Block → Bytes → M (Env rpc) (Option Bytes)
  unfolding find_block with_upstream
  block_parent_hash head hash =
      or_upstream (λ f. f.parent_hash) (find_block (has_hash hash) head)
        (with_upstream (parent_hash rpc hash))

  -- `value.and_then(|v| v.value.clone())`
  unfoldable pub get_storage_value : Shared rpc → Block → ℕ → Bytes → M (Env rpc) (Option Bytes)
  unfolding with_upstream
  get_storage_value shared head block_number key = do
    value ← with_upstream (get rpc (layer_of shared head) block_number key)
    pure (elim value [ none ↦ none | some v ↦ v.value ])

  -- `Blockchain::storage`
  unfoldable pub storage : Shared rpc → Block → Bytes → M (Env rpc) (Option Bytes)
  unfolding get_storage_value
  storage shared head key = get_storage_value shared head (fields head).number key

  -- The keys at a block of the fork, or at a block of the chain. Fuel is for the pages.
  unfoldable pub storage_keys_by_prefix :
      ℕ → Shared rpc → Block → Bytes → Bytes → M (Env rpc) (List Bytes)
  unfolding number_by_hash
  storage_keys_by_prefix fuel shared head prefix at_hash = do
    number ← number_by_hash head at_hash
    (elim number [
      | none ↦ Remote.get_keys rpc fuel at_hash prefix
      | some n ↦
          if ltb (fields head).handle.first_forked_block_number n
          then keys_by_prefix rpc fuel (layer_of shared head) prefix n
          else Remote.get_keys rpc fuel at_hash prefix
    ])
