-- ===== src/Server/ChainHead/Steps.antt =====
-- The `chainHead` methods as a step relation: any order of the two parts of handlers, of ends of tasks,
-- and of changes of the fork by others.
use pop_cli.Prelude.{
  ℕ, ◌+◌, ◌<◌, ◌≡◌, length, Bool, List, [], ◌∷◌, ◌++◌, none, nat_beq, if◌then◌else◌,
}
use pop_cli.Bytes.{Bytes, bytes_eq}
use pop_cli.Assoc.{lookup}
use pop_cli.Fork.Monad.{returns}
use pop_cli.Server.Error.{RpcResult}
use pop_cli.Server.Items.{StorageQueryItem}
use pop_cli.Server.ChainHead.State.{
  Handler, Request, accepting, operating, ChainHeadState, Task, MethodResponse, OperationEvent,
}
use pop_cli.Server.ChainHead.Methods.{
  follow, register_subscription, remove_subscription, body, call, storage, resume,
}
use pop_cli.Server.ChainHead.Tasks.{TaskBackend, perform, finish}

-- The requests that are about to count an operation on a handle.
abbrev pub requests_on : ℕ → List Request → ℕ
requests_on h [] = 0
requests_on h (accepting r ∷ requests) = requests_on h requests
requests_on h (operating j handler ∷ requests) =
    (if nat_beq j h then 1 else 0) + requests_on h requests

-- The requests that are about to register a subscription.
abbrev pub accepting_in : List Request → ℕ
accepting_in [] = 0
accepting_in (accepting r ∷ requests) = 1 + accepting_in requests
accepting_in (operating j handler ∷ requests) = accepting_in requests

-- The tasks that run on a handle.
abbrev pub tasks_on : ℕ → List Task → ℕ
tasks_on h [] = 0
tasks_on h (task ∷ tasks) = (if nat_beq task.handle h then 1 else 0) + tasks_on h tasks

module _ (b : TaskBackend) where
  open b use {blockchain, hex, capacity}

  pub data Step
      : ChainHeadState → blockchain.World → ChainHeadState → blockchain.World → Type 0 where
    -- the first part of a handler, when the server has room for one more
    follow_asked :
        (with_runtime : Bool) (s : ChainHeadState) (w : blockchain.World)
        → length s.requests < capacity
        → Step s w (follow with_runtime s).1 w
    body_asked :
        (id hash : Bytes) (s : ChainHeadState) (w : blockchain.World)
        → length s.requests < capacity
        → Step s w (body hex id hash s).1 w
    call_asked :
        (id hash function parameters : Bytes) (s : ChainHeadState) (w : blockchain.World)
        → length s.requests < capacity
        → Step s w (call hex id hash function parameters s).1 w
    storage_asked :
        (id hash : Bytes) (items : List StorageQueryItem) (s : ChainHeadState)
        (w : blockchain.World)
        → length s.requests < capacity
        → Step s w (storage hex id hash items s).1 w
    -- the client is accepted; the server library gives ids that are not in use
    followed :
        (id : Bytes) (with_runtime : Bool) (before after : List Request) (s : ChainHeadState)
        (w : blockchain.World)
        → s.requests ≡ before ++ accepting with_runtime ∷ after
        → lookup id s.subscriptions ≡ none
        → Step s w
            (register_subscription id with_runtime (record s { requests = before ++ after }))
            w
    -- or it has gone
    rejected :
        (with_runtime : Bool) (before after : List Request) (s : ChainHeadState)
        (w : blockchain.World)
        → s.requests ≡ before ++ accepting with_runtime ∷ after
        → Step s w (record s { requests = before ++ after }) w
    unfollowed :
        (id : Bytes) (s : ChainHeadState) (w : blockchain.World)
        → Step s w (remove_subscription id s) w
    resumed :
        (h : ℕ) (handler : Handler) (before after : List Request) (s s' : ChainHeadState)
        (w w' : blockchain.World) (r : RpcResult MethodResponse)
        → s.requests ≡ before ++ operating h handler ∷ after
        → resume blockchain h handler (record s { requests = before ++ after }) w
          ≡ returns (r, s') w'
        → Step s w s' w'
    finished :
        (before : List Task) (task : Task) (after : List Task) (events : List OperationEvent)
        (s : ChainHeadState) (w w' : blockchain.World)
        → s.tasks ≡ before ++ task ∷ after
        → perform b task.operation_id task.operation w ≡ returns events w'
        → Step s w (finish task events (before ++ after) s) w'
    -- a block is built, or another method is called
    moved : (s : ChainHeadState) (w w' : blockchain.World) → Step s w s w'

  pub data Reach (s : ChainHeadState) (w : blockchain.World)
      : ChainHeadState → blockchain.World → Type 0 where
    here : Reach s w s w
    next :
        {t u : ChainHeadState} {v x : blockchain.World}
        → Reach s w t v
        → Step t v u x
        → Reach s w u x
