-- ===== src/Server/ChainHead/Methods.antt =====
-- The handlers of crates/pop-fork/src/rpc_server/methods/chain_head.rs, each in two parts: up to the
-- test of its limit, and from there to the spawn of its task. Others may come in between.
use pop_cli.Prelude.{
  ℕ, ◌+◌, ◌%◌, Bool, List, [], ◌∷◌, ◌++◌, Option, none, some, length, leb, ltb, if◌then◌else◌,
}
use pop_cli.Bytes.{Bytes, bytes_eq}
use pop_cli.Assoc.{lookup, insert, remove}
use pop_cli.Fork.Monad.{Outcome, returns, raises, stuck, M}
use pop_cli.Server.Error.{
  invalid_subscription, block_not_found, internal, RpcServerError, RpcResult, answer, refuse,
  too_many_subscriptions, and_then,
}
use pop_cli.Server.Hex.{Codec, parse_block_hash, parse_hex_bytes}
use pop_cli.Server.Backend.{ArchiveBlockchain}
use pop_cli.Server.Items.{StorageQueryItem}
use pop_cli.Server.ChainHead.State.{
  max_subscriptions, max_operations, u64_mod, started, limit_reached, MethodResponse, Operation,
  body_of, call_of, storage_of, Task, Handler, launching, locating, Request, accepting, operating,
  ChainHeadState, update, new_handle,
}

unfoldable pub register_subscription : Bytes → Bool → ChainHeadState → ChainHeadState
register_subscription id with_runtime state = record state {
  subscriptions = insert id state.next_handle state.subscriptions;
  handles = update state.next_handle (new_handle with_runtime) state.handles;
  next_handle = state.next_handle + 1;
}

unfoldable pub remove_subscription : Bytes → ChainHeadState → ChainHeadState
remove_subscription id state = record state { subscriptions = remove id state.subscriptions }

abbrev pub can_add_subscription : ChainHeadState → Bool
can_add_subscription state = ltb (length state.subscriptions) max_subscriptions

-- The handler goes on later.
abbrev pub wait : Request → ChainHeadState → ChainHeadState
wait request state = record state { requests = request ∷ state.requests }

-- `follow` up to its first wait: it is refused, or goes on to accept the subscription.
unfoldable pub follow : Bool → ChainHeadState → Option RpcServerError × ChainHeadState
follow with_runtime state =
    if can_add_subscription state
    then (none, wait (accepting with_runtime) state)
    else (some (too_many_subscriptions max_subscriptions), state)

-- `fetch_add` and `generate_operation_id`
unfoldable pub began : ℕ → ChainHeadState → ChainHeadState
began h state = record state {
  next_op_id = (state.next_op_id + 1) % u64_mod;
  handles =
      update h
        (record (state.handles h) {
          operation_count = ((state.handles h).operation_count + 1) % u64_mod;
        })
        state.handles;
}

-- `tokio::spawn`
unfoldable pub spawn : Task → ChainHeadState → ChainHeadState
spawn task state = record state { tasks = state.tasks ++ task ∷ [] }

abbrev pub limit_response : MethodResponse
limit_response = record { result = limit_reached; discarded_items = none }

abbrev pub start_response : ℕ → Option ℕ → MethodResponse
start_response id discarded = record { result = started id; discarded_items = discarded }

abbrev pub task_of : ℕ → ℕ → Operation → Task
task_of h id operation = record { handle = h; operation_id = id; operation = operation }

-- The end of `body` and `call`, when the parameters have been parsed.
unfoldable pub launch :
    ℕ → ℕ → RpcResult Operation → ChainHeadState → RpcResult MethodResponse × ChainHeadState
unfolding spawn
launch h id (refuse e) state = (refuse e, state)
launch h id (answer operation) state =
    (answer (start_response id none), spawn (task_of h id operation) state)

-- The start of `body`, `call` and `storage`, up to the test of `operation_count.load`: an answer, or
-- the handler goes on. Others may come before it counts its operation.
unfoldable pub begin_operation :
    Bytes → Handler → ChainHeadState → Option (RpcResult MethodResponse) × ChainHeadState
begin_operation id handler state = elim (lookup id state.subscriptions) [
  | none ↦ (some (refuse (invalid_subscription id)), state)
  | some h ↦
      if leb max_operations (state.handles h).operation_count
      then (some (answer limit_response), state)
      else (none, wait (operating h handler) state)
]

module _ (hex : Codec) where
  -- The parameters are parsed when the operation has been counted; parsing reads no state.
  unfoldable pub body :
      Bytes → Bytes → ChainHeadState → Option (RpcResult MethodResponse) × ChainHeadState
  unfolding begin_operation
  body id hash =
      begin_operation id
        (launching (and_then (parse_block_hash hex hash) (λ h. answer (body_of h))))

  unfoldable pub call :
      Bytes
      → Bytes
      → Bytes
      → Bytes
      → ChainHeadState
      → Option (RpcResult MethodResponse) × ChainHeadState
  unfolding begin_operation
  call id hash function parameters = begin_operation id (
      launching (
        and_then (parse_block_hash hex hash)
          (λ h. and_then (parse_hex_bytes hex parameters) (λ p. answer (call_of h function p)))))

  unfoldable pub storage :
      Bytes
      → Bytes
      → List StorageQueryItem
      → ChainHeadState
      → Option (RpcResult MethodResponse) × ChainHeadState
  unfolding begin_operation
  storage id hash items = begin_operation id (locating hash (parse_block_hash hex hash) items)

  unfoldable pub unpin : Bytes → ChainHeadState → RpcResult (Unit {0}) × ChainHeadState
  unpin id state = elim (lookup id state.subscriptions) [
    | none ↦ (refuse (invalid_subscription id), state)
    | some h ↦ (answer tt, state)
  ]

-- The end of `storage`, when the block has been looked up.
unfoldable pub located :
    (b : ArchiveBlockchain)
    → ℕ
    → ℕ
    → Bytes
    → Bytes
    → List StorageQueryItem
    → ChainHeadState
    → Outcome b.World (Option ℕ)
    → Outcome b.World (RpcResult MethodResponse × ChainHeadState)
unfolding spawn
located b h op hash block_hash items state (returns (some n) w) =
    returns
      (
        answer (start_response op (some 0)),
        spawn (task_of h op (storage_of block_hash n items)) state,
      )
      w
located b h op hash block_hash items state (returns none w) =
    returns (refuse (block_not_found hash), state) w
located b h op hash block_hash items state (raises e w) = returns (refuse (internal e), state) w
located b h op hash block_hash items state stuck = stuck

unfoldable pub storage_parsed :
    (b : ArchiveBlockchain)
    → ℕ
    → ℕ
    → Bytes
    → RpcResult Bytes
    → List StorageQueryItem
    → ChainHeadState
    → M b.World (RpcResult MethodResponse × ChainHeadState)
unfolding located
storage_parsed b h op hash (refuse e) items state w = returns (refuse e, state) w
storage_parsed b h op hash (answer block_hash) items state w =
    located b h op hash block_hash items state (b.block_number_by_hash block_hash w)

-- The rest of a handler: the operation is counted and gets its id, then its task is spawned.
unfoldable pub resume :
    (b : ArchiveBlockchain)
    → ℕ
    → Handler
    → ChainHeadState
    → M b.World (RpcResult MethodResponse × ChainHeadState)
unfolding began launch storage_parsed
resume b h (launching parsed) state w = returns (launch h state.next_op_id parsed (began h state)) w
resume b h (locating hash parsed items) state w =
    storage_parsed b h state.next_op_id hash parsed items (began h state) w
