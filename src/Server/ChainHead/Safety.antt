-- ===== src/Server/ChainHead/Safety.antt =====
-- In every reachable state of the `chainHead` methods the limits hold, up to the requests that are in
-- flight.
use pop_cli.Prelude.{ℕ, ◌+◌, ◌≤◌, arith, length}
use pop_cli.Bytes.{bytes_eq}
use pop_cli.Server.ChainHead.State.{ChainHeadState, u64_mod, new_state}
use pop_cli.Server.ChainHead.Methods.{body, call, storage}
use pop_cli.Server.ChainHead.Tasks.{TaskBackend}
use pop_cli.Server.ChainHead.Steps.{
  tasks_on, Step, Reach, follow_asked, followed, rejected, unfollowed, body_asked, call_asked,
  storage_asked, resumed, finished, moved, here, next,
}
use pop_cli.Server.ChainHead.Rules.{begin_rule, resume_rule, ends_at}
use pop_cli.Server.ChainHead.Bounds.{
  IsBounded, new_state-IsBounded, follow-IsBounded, pass-IsBounded, remove-IsBounded,
  finish-IsBounded,
}
use pop_cli.Server.ChainHead.Counting.{
  taken, rejected-IsBounded, register-IsBounded, began-IsBounded, spawn-IsBounded,
}

pub Step-IsBounded :
    {b : TaskBackend} {s s' : ChainHeadState} {w w' : b.blockchain.World}
    → Step b s w s' w'
    → IsBounded b.capacity s
    → IsBounded b.capacity s'
unfolding body call storage
Step-IsBounded {b} (follow_asked r s w room) v = follow-IsBounded b.capacity r s room v
Step-IsBounded {b} (body_asked id hash s w room) v =
    begin_rule (IsBounded b.capacity) id _ s v
      (λ h found below. pass-IsBounded b.capacity id _ s h room found below v)
Step-IsBounded {b} (call_asked id hash function parameters s w room) v =
    begin_rule (IsBounded b.capacity) id _ s v
      (λ h found below. pass-IsBounded b.capacity id _ s h room found below v)
Step-IsBounded {b} (storage_asked id hash items s w room) v =
    begin_rule (IsBounded b.capacity) id _ s v
      (λ h found below. pass-IsBounded b.capacity id _ s h room found below v)
Step-IsBounded {b} (followed id r before after s w e _) v =
    register-IsBounded before after s b.capacity id r e v
Step-IsBounded {b} (rejected r before after s w e) v =
    rejected-IsBounded before after s b.capacity r e v
Step-IsBounded {b} (unfollowed id s w) v = remove-IsBounded b.capacity id s v
Step-IsBounded {b} (resumed h handler before after s s' w w' r e q) v =
    ends_at (IsBounded b.capacity) q (
      resume_rule (IsBounded b.capacity) h (taken before after s)
        (began-IsBounded before after s b.capacity h handler e v)
        (spawn-IsBounded before after s b.capacity h handler e v) b.blockchain handler w)
Step-IsBounded {b} (finished before task after events s w w' e _) v =
    finish-IsBounded b.capacity before task after events s e v
Step-IsBounded (moved s w w') v = v

pub Reach-keeps :
    {b : TaskBackend} {s : ChainHeadState} {w : b.blockchain.World} {s' : ChainHeadState}
    {w' : b.blockchain.World}
    → IsBounded b.capacity s
    → Reach b s w s' w'
    → IsBounded b.capacity s'
Reach-keeps v here = v
Reach-keeps v (next r st) = Step-IsBounded st (Reach-keeps v r)

-- Let the server run at most `capacity` handlers at once between the test of a limit and the count, with
-- `capacity` at most 2^64 - 16. In every state that the parts of handlers, in any order, ends of tasks
-- and changes of the fork lead to, each handle counts at least the tasks that run on it, so that no
-- release wraps around; it counts at most 15 + `capacity` operations; and there are at most 1023 +
-- `capacity` subscriptions. For one handler at a time these are the limits 16 and 1024.
pub Reach-IsBounded :
    {b : TaskBackend} {s : ChainHeadState} {w w' : b.blockchain.World}
    → 16 + b.capacity ≤ u64_mod
    → Reach b new_state w s w'
    → ((h : ℕ)
        → (tasks_on h s.tasks ≤ (s.handles h).operation_count)
          × ((s.handles h).operation_count ≤ 15 + b.capacity))
      × (length s.subscriptions ≤ 1023 + b.capacity)
Reach-IsBounded {b} small r =
    let v = Reach-keeps (new_state-IsBounded b.capacity small) r in
    (λ h. (v.busy h, omega (arith, v.limited h)), omega (arith, v.few))
