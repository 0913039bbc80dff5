-- ===== src/Server/ChainHead/State.antt =====
-- The state of the `chainHead` methods, crates/pop-fork/src/rpc_server/methods/chain_head.rs, and
-- their messages. A handle (`Arc<SubscriptionHandle>`) is its number in a store, since the tasks
-- that run hold it also when its subscription has gone.
use pop_cli.Prelude.{ℕ, ◌^◌, Bool, List, [], Option, nat_beq, if◌then◌else◌}
use pop_cli.Bytes.{Bytes, bytes_eq}
use pop_cli.Server.Error.{RpcResult}
use pop_cli.Server.Items.{StorageQueryItem, StorageResultItem}

abbrev pub max_subscriptions : ℕ
max_subscriptions = 1024

abbrev pub max_operations : ℕ
max_operations = 16

abbrev pub u64_mod : ℕ
u64_mod = 2 ^ 64

-- An operation id, `op-{id}`, is its number.
pub data OperationEvent : Type 0 where
  operation_body_done : ℕ → List Bytes → OperationEvent
  operation_call_done : ℕ → Bytes → OperationEvent
  operation_storage_items : ℕ → List StorageResultItem → OperationEvent
  operation_storage_done : ℕ → OperationEvent
  operation_error : ℕ → OperationEvent

pub data OperationResult : Type 0 where
  started : ℕ → OperationResult
  limit_reached : OperationResult

pub record MethodResponse : Type 0 where
  pub result : OperationResult
  pub discarded_items : Option ℕ

-- `events` is what was sent on the channel `event_tx`.
pub record SubscriptionHandle : Type 0 where
  pub events : List OperationEvent
  pub operation_count : ℕ
  pub with_runtime : Bool

-- What a spawned task captures.
pub data Operation : Type 0 where
  body_of : Bytes → Operation
  call_of : Bytes → Bytes → Bytes → Operation
  storage_of : Bytes → ℕ → List StorageQueryItem → Operation

pub record Task : Type 0 where
  pub handle : ℕ
  pub operation_id : ℕ
  pub operation : Operation

-- What a handler does with the handle when it has passed the test of the limit: `body` and `call` have
-- their parameters, parsed, and `storage` its hash as given and parsed, and the items.
pub data Handler : Type 0 where
  launching : RpcResult Operation → Handler
  locating : Bytes → RpcResult Bytes → List StorageQueryItem → Handler

-- A handler that has passed the test of its limit, and has not yet registered or counted.
pub data Request : Type 0 where
  accepting : Bool → Request
  operating : ℕ → Handler → Request

-- `ChainHeadState`, with the store of handles, the handlers that have passed their test, and the tasks
-- that run.
pub record ChainHeadState : Type 0 where
  pub subscriptions : List (Bytes × ℕ)
  pub next_op_id : ℕ
  pub handles : ℕ → SubscriptionHandle
  pub next_handle : ℕ
  pub requests : List Request
  pub tasks : List Task

abbrev pub update : ℕ → SubscriptionHandle → (ℕ → SubscriptionHandle) → ℕ → SubscriptionHandle
update i handle handles j = if nat_beq i j then handle else handles j

abbrev pub new_handle : Bool → SubscriptionHandle
new_handle with_runtime = record { events = []; operation_count = 0; with_runtime = with_runtime }

-- `ChainHeadState::new`; the store is empty up to `next_handle`.
abbrev pub new_state : ChainHeadState
new_state = record {
  subscriptions = [];
  next_op_id = 1;
  handles = λ _. record { events = []; operation_count = 0; with_runtime = Bool.false };
  next_handle = 0;
  requests = [];
  tasks = [];
}
