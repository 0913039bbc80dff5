-- ===== src/Server/ChainHead/Rules.antt =====
-- One rule for each part of a handler: what holds before, and at each of its ends, holds when it is done.
use pop_cli.Prelude.{
  ℕ, ◌≡◌, inl, inr, false, List, Option, none, some, leb, Bool-cases, Option-cases,
}
use pop_cli.Bytes.{Bytes, bytes_eq}
use pop_cli.Assoc.{lookup}
use pop_cli.Fork.Monad.{Outcome, returns, raises, stuck}
use pop_cli.Server.Error.{RpcResult, answer, refuse}
use pop_cli.Server.Backend.{ArchiveBlockchain}
use pop_cli.Server.Items.{StorageQueryItem}
use pop_cli.Server.ChainHead.State.{
  ChainHeadState, Operation, Handler, launching, locating, operating, max_operations,
}
use pop_cli.Server.ChainHead.Methods.{
  begin_operation, wait, launch, spawn, began, storage_parsed, located, task_of, resume,
}

-- What a handler ends with, if it ends.
abbrev pub Ends :
    {W A : Type 0} → (ChainHeadState → Type 0) → Outcome W (A × ChainHeadState) → Type 0
Ends P (returns (a, s) w) = P s
Ends P (raises e w) = Unit
Ends P stuck = Unit

pub ends_at :
    {W A : Type 0} {o : Outcome W (A × ChainHeadState)} {a : A} {s : ChainHeadState} {w : W}
    (P : ChainHeadState → Type 0)
    → o ≡ returns (a, s) w
    → Ends P o
    → P s
ends_at P e h = rw e at h

-- Up to the test of the limit.
pub begin_rule :
    (P : ChainHeadState → Type 0) (id : Bytes) (handler : Handler) (s : ChainHeadState)
    → P s
    → ((h : ℕ)
        → lookup id s.subscriptions ≡ some h
        → leb max_operations (s.handles h).operation_count ≡ false
        → P (wait (operating h handler) s))
    → P (begin_operation id handler s).1
unfolding begin_operation
begin_rule P id handler s before passed = elim (Option-cases (lookup id s.subscriptions)) [
  | inl gone ↦ rw (gone, begin_operation) before
  | inr (h, found) ↦ elim (Bool-cases (leb max_operations (s.handles h).operation_count)) [
    | inl full ↦ rw (found, begin_operation) (rw full before)
    | inr below ↦ rw (found, begin_operation) (rw below (passed h found below))
  ]
]

-- From the count on: it has begun, or its task runs.
module _ (P : ChainHeadState → Type 0) (h : ℕ) (s : ChainHeadState) (counted : P (began h s))
    (running : (op : ℕ) (operation : Operation)
      → P (spawn (task_of h op operation) (began h s))) where
  launch_rule : (op : ℕ) (parsed : RpcResult Operation) → P (launch h op parsed (began h s)).1
  unfolding launch
  launch_rule op (refuse e) = counted
  launch_rule op (answer operation) = running op operation

  located_rule :
      (b : ArchiveBlockchain) (op : ℕ) (hash block_hash : Bytes) (items : List StorageQueryItem)
      (o : Outcome b.World (Option ℕ))
      → Ends P (located b h op hash block_hash items (began h s) o)
  unfolding located
  located_rule b op hash block_hash items (returns (some n) w) = running _ _
  located_rule b op hash block_hash items (returns none w) = counted
  located_rule b op hash block_hash items (raises e w) = counted
  located_rule b op hash block_hash items stuck = tt

  parsed_rule :
      (b : ArchiveBlockchain) (op : ℕ) (hash : Bytes) (parsed : RpcResult Bytes)
      (items : List StorageQueryItem) (w : b.World)
      → Ends P (storage_parsed b h op hash parsed items (began h s) w)
  unfolding storage_parsed
  parsed_rule b op hash (refuse e) items w = counted
  parsed_rule b op hash (answer block_hash) items w =
      located_rule b op hash block_hash items (b.block_number_by_hash block_hash w)

  pub resume_rule :
      (b : ArchiveBlockchain) (handler : Handler) (w : b.World) → Ends P (resume b h handler s w)
  unfolding resume
  resume_rule b (launching parsed) w = launch_rule s.next_op_id parsed
  resume_rule b (locating hash parsed items) w = parsed_rule b s.next_op_id hash parsed items w
