-- ===== src/Server/ChainHead/Tasks.antt =====
-- The tasks that the handlers of crates/pop-fork/src/rpc_server/methods/chain_head.rs spawn: they ask
-- the fork, send their events and release the operation.
use pop_cli.Prelude.{
  ℕ, ◌+◌, ◌-◌, ◌%◌, Bool, List, [], ◌∷◌, ◌++◌, map, Option, none, some, leb, if◌then◌else◌,
}
use pop_cli.Bytes.{Bytes, bytes_eq, starts_with}
use pop_cli.Fork.Monad.{returns, raises, stuck, M, ◌>>=◌, pure}
use pop_cli.Server.Hex.{Codec, from_bytes}
use pop_cli.Server.Backend.{ArchiveBlockchain}
use pop_cli.Server.Items.{StorageResultItem, storage_items, ok_value}
use pop_cli.Server.ChainHead.State.{
  u64_mod, OperationEvent, operation_body_done, operation_call_done, operation_storage_items,
  operation_storage_done, operation_error, Operation, body_of, call_of, storage_of, Task,
  ChainHeadState, update,
}

-- "Metadata_"
abbrev pub metadata_prefix : Bytes
metadata_prefix = b'M' ∷ b'e' ∷ b't' ∷ b'a' ∷ b'd' ∷ b'a' ∷ b't' ∷ b'a' ∷ b'_' ∷ []

-- What the tasks use: the fork, its fork point, the call of the node, and the hash. The server library
-- bounds the requests that it runs at once, by `capacity`.
pub record TaskBackend : Type 1 where
  pub blockchain : ArchiveBlockchain
  pub fork_point_number : ℕ
  pub proxy_state_call : Bytes → Bytes → Bytes → M blockchain.World Bytes
  pub blake2_256 : Bytes → Bytes
  pub hex : Codec
  pub capacity : ℕ

module _ (b : TaskBackend) where
  open b use {blockchain, fork_point_number, proxy_state_call, blake2_256, hex}

  -- `block_number.is_some_and(|n| n <= fork_point)`
  abbrev pub at_or_before_fork : Option ℕ → Bool
  at_or_before_fork none = Bool.false
  at_or_before_fork (some n) = leb n fork_point_number

  unfoldable pub proxied : Bytes → Bytes → Bytes → M blockchain.World (Option Bytes)
  proxied block_hash function parameters w =
      elim (proxy_state_call function parameters block_hash w) [
        | returns r w' ↦ returns (some r) w'
        | raises e w' ↦ blockchain.call_at_block block_hash function parameters w'
        | stuck ↦ stuck
      ]

  unfoldable pub run_call : Bytes → Bytes → Bytes → M blockchain.World (Option Bytes)
  unfolding proxied
  run_call block_hash function parameters =
      if starts_with function metadata_prefix
      then (do
        number ← ok_value (blockchain.block_number_by_hash block_hash)
        (if at_or_before_fork number
            then proxied block_hash function parameters
            else blockchain.call_at_block block_hash function parameters))
      else blockchain.call_at_block block_hash function parameters

  abbrev pub body_event : ℕ → Option (List Bytes) → List OperationEvent
  body_event id none = operation_error id ∷ []
  body_event id (some body) = operation_body_done id (map (from_bytes hex) body) ∷ []

  abbrev pub call_event : ℕ → Option Bytes → List OperationEvent
  call_event id none = operation_error id ∷ []
  call_event id (some output) = operation_call_done id (from_bytes hex output) ∷ []

  abbrev pub storage_events : ℕ → List StorageResultItem → List OperationEvent
  storage_events id [] = operation_storage_done id ∷ []
  storage_events id (item ∷ items) =
      operation_storage_items id (item ∷ items) ∷ operation_storage_done id ∷ []

  -- The events that a task sends, in order.
  unfoldable pub perform : ℕ → Operation → M blockchain.World (List OperationEvent)
  unfolding run_call storage_items
  perform id (body_of block_hash) =
      ok_value (blockchain.block_body block_hash) >>= λ body. pure (body_event id body)
  perform id (call_of block_hash function parameters) =
      ok_value (run_call block_hash function parameters) >>= λ output. pure (call_event id output)
  perform id (storage_of block_hash block_number items) =
      storage_items hex blake2_256 blockchain block_hash block_number items >>= λ results.
      pure (storage_events id results)

-- `event_tx.send` and `fetch_sub` at the end of a task, which leaves the tasks that run.
unfoldable pub finish : Task → List OperationEvent → List Task → ChainHeadState → ChainHeadState
finish task sent rest state = record state {
  handles =
      update task.handle
        (record (state.handles task.handle) {
          events = (state.handles task.handle).events ++ sent;
          operation_count = ((state.handles task.handle).operation_count + u64_mod - 1) % u64_mod;
        })
        state.handles;
  tasks = rest;
}
