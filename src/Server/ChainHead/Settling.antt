-- ===== src/Server/ChainHead/Settling.antt =====
-- Every operation that was started ends with one last event, and releases its place.
use pop_cli.Prelude.{
  ℕ, suc, ◌+◌, ◌≡◌, refl, ap, List, [], ◌∷◌, ◌++◌, Option, none, some, arith, nat_beq,
  if◌then◌else◌,
}
use pop_cli.Bytes.{Bytes}
use pop_cli.Fork.Monad.{Outcome, returns, raises, stuck, after, pure}
use pop_cli.Server.Items.{StorageResultItem, ok_value, storage_items}
use pop_cli.Server.ChainHead.State.{
  ChainHeadState, Task, OperationEvent, operation_body_done, operation_call_done,
  operation_storage_items, operation_storage_done, operation_error, Operation, body_of, call_of,
  storage_of,
}
use pop_cli.Server.ChainHead.Tasks.{
  TaskBackend, perform, finish, run_call, body_event, call_event, storage_events,
}
use pop_cli.Server.ChainHead.Ending.{EndsCalls, perform-Returning}
use pop_cli.Server.ChainHead.Steps.{tasks_on, Step, Reach, finished, here, next}
use pop_cli.Server.ChainHead.Bounds.{IsBounded, finish-IsBounded}

-- The events that end an operation.
abbrev pub last_events : List OperationEvent → ℕ
last_events [] = 0
last_events (operation_body_done id v ∷ events) = suc (last_events events)
last_events (operation_call_done id v ∷ events) = suc (last_events events)
last_events (operation_storage_items id items ∷ events) = last_events events
last_events (operation_storage_done id ∷ events) = suc (last_events events)
last_events (operation_error id ∷ events) = suc (last_events events)

last_events-append :
    (xs ys : List OperationEvent) → last_events (xs ++ ys) ≡ last_events xs + last_events ys
last_events-append [] ys = omega arith
last_events-append (operation_body_done id v ∷ xs) ys = omega (arith, last_events-append xs ys)
last_events-append (operation_call_done id v ∷ xs) ys = omega (arith, last_events-append xs ys)
last_events-append (operation_storage_items id v ∷ xs) ys = last_events-append xs ys
last_events-append (operation_storage_done id ∷ xs) ys = omega (arith, last_events-append xs ys)
last_events-append (operation_error id ∷ xs) ys = omega (arith, last_events-append xs ys)

module _ (b : TaskBackend) where
  open b use {blockchain, hex, blake2_256}

  one_last_body : (id : ℕ) (v : Option (List Bytes)) → last_events (body_event b id v) ≡ 1
  one_last_body id none = refl
  one_last_body id (some v) = refl

  one_last_call : (id : ℕ) (v : Option Bytes) → last_events (call_event b id v) ≡ 1
  one_last_call id none = refl
  one_last_call id (some v) = refl

  one_last_storage :
      (id : ℕ) (items : List StorageResultItem) → last_events (storage_events b id items) ≡ 1
  one_last_storage id [] = refl
  one_last_storage id (item ∷ items) = refl

  -- A run of `m >>= λ v. pure (make v)` that returns, returns what is made of some value.
  made :
      {A : Type 0} (m : Outcome blockchain.World A) (make : A → List OperationEvent)
      {events : List OperationEvent} {w : blockchain.World}
      → after m (λ v. pure (make v)) ≡ returns events w
      → ((v : A) → last_events (make v) ≡ 1)
      → last_events events ≡ 1
  made (returns a s) make e one = ground (arith, one a)
  made (raises x s) make e one = cc
  made stuck make e one = cc

  pub perform-one_last :
      (id : ℕ) (operation : Operation) (w : blockchain.World) {events : List OperationEvent}
      {w' : blockchain.World}
      → perform b id operation w ≡ returns events w'
      → last_events events ≡ 1
  unfolding perform
  perform-one_last id (body_of hash) w e =
      made (ok_value (blockchain.block_body hash) w) (body_event b id) e (one_last_body id)
  perform-one_last id (call_of hash function parameters) w e =
      made (ok_value (run_call b hash function parameters) w) (call_event b id) e (one_last_call id)
  perform-one_last id (storage_of hash n items) w e =
      made (storage_items hex blake2_256 blockchain hash n items w) (storage_events b id) e
        (one_last_storage id)

Reach-after_step :
    {b : TaskBackend} {s : ChainHeadState} {w : b.blockchain.World} {t : ChainHeadState}
    {v : b.blockchain.World} {u : ChainHeadState} {x : b.blockchain.World}
    → Step b s w t v
    → Reach b t v u x
    → Reach b s w u x
Reach-after_step st here = next here st
Reach-after_step st (next r st') = next (Reach-after_step st r) st'

abbrev count_of : ChainHeadState → ℕ → ℕ
count_of s h = (s.handles h).operation_count

abbrev sent_on : ChainHeadState → ℕ → ℕ
sent_on s h = last_events (s.handles h).events

-- The first of the tasks ends.
module _ (s : ChainHeadState) (task : Task) (rest : List Task) (events : List OperationEvent)
    (running : s.tasks ≡ task ∷ rest) {c : ℕ} (v : IsBounded c s) (h : ℕ) where
  here_on : tasks_on h s.tasks ≡ (if nat_beq task.handle h then 1 else 0) + tasks_on h rest
  here_on = ap (tasks_on h) running

  finish-count :
      count_of (finish task events rest s) h + (if nat_beq task.handle h then 1 else 0)
      ≡ count_of s h
  unfolding finish
  finish-count = ground (arith, here_on, v.busy h, v.limited h, v.small)

  finish-sent :
      last_events events ≡ 1
      → sent_on (finish task events rest s) h
        ≡ sent_on s h + (if nat_beq task.handle h then 1 else 0)
  unfolding finish
  finish-sent one = ground (arith, last_events-append (s.handles task.handle).events events)

finish-tasks :
    (task : Task) (events : List OperationEvent) (rest : List Task) (s : ChainHeadState)
    → (finish task events rest s).tasks ≡ rest
unfolding finish
finish-tasks task events rest s = refl

-- When the calls of the fork end, in a state within the bounds, the tasks that run can all get through,
-- one after the other: then none runs, each handle has got one last event for each of its tasks, and it
-- counts as many operations less.
pub settles :
    (b : TaskBackend)
    → EndsCalls b
    → (tasks : List Task) (s : ChainHeadState) (w : b.blockchain.World) → s.tasks ≡ tasks
    → IsBounded b.capacity s
    → (s' : ChainHeadState) × (w' : b.blockchain.World) × Reach b s w s' w'
      × (s'.tasks ≡ [])
      × ((h : ℕ) → count_of s' h + tasks_on h tasks ≡ count_of s h)
      × ((h : ℕ) → sent_on s' h ≡ sent_on s h + tasks_on h tasks)
settles b ends [] s w running v = (s, w, here, running, λ h. omega arith, λ h. omega arith)
settles b ends (task ∷ rest) s w running v =
    let (events, w₁, done) = perform-Returning b ends task.operation_id task.operation w in
    let (s', w', r, none_left, counts, sent) =
      settles b ends rest (finish task events rest s) w₁ (finish-tasks task events rest s)
        (finish-IsBounded b.capacity [] task rest events s running v) in
    (
      s',
      w',
      Reach-after_step (finished [] task rest events s w w₁ running done) r,
      none_left,
      λ h. omega (arith, counts h, finish-count s task rest events running v h),
      λ h. omega (
        arith,
        sent h,
        finish-sent s task rest events running v h
            (perform-one_last b task.operation_id task.operation w done),
      ),
    )
