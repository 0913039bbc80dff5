-- ===== src/Server/ChainHead/Leaks.antt =====
-- Operations that are counted and never released: a request whose parameters do not parse.
use pop_cli.Prelude.{
  ℕ, ◌+◌, ◌≤◌, ◌<◌, ◌≡◌, ap, ◌∙◌, inl, inr, Bool, List, [], ◌∷◌, ◌++◌, arith, nat_beq,
  if◌then◌else◌, Bool-cases,
}
use pop_cli.Server.ChainHead.State.{
  ChainHeadState, Task, OperationEvent, Operation, Request, Handler, operating, max_operations,
}
use pop_cli.Server.ChainHead.Methods.{
  can_add_subscription, follow, register_subscription, remove_subscription, body, call, storage,
  spawn, began, task_of,
}
use pop_cli.Server.ChainHead.Tasks.{TaskBackend, finish}
use pop_cli.Server.ChainHead.Steps.{
  tasks_on, Step, Reach, follow_asked, followed, rejected, unfollowed, body_asked, call_asked,
  storage_asked, resumed, finished, moved, here, next,
}
use pop_cli.Server.ChainHead.Bounds.{IsBounded, tasks_on-append}
use pop_cli.Server.ChainHead.Counting.{taken, began-count}
use pop_cli.Server.ChainHead.Safety.{Step-IsBounded}
use pop_cli.Server.ChainHead.Rules.{begin_rule, resume_rule, ends_at}

-- The handle has been given out, and counts as many operations as are allowed besides those that run.
pub record IsExhausted (h : ℕ) (s : ChainHeadState) : Type 0 where
  pub given : h < s.next_handle
  pub at_limit : max_operations + tasks_on h s.tasks ≤ (s.handles h).operation_count

-- The test of a limit changes neither.
waits :
    (h : ℕ) (requests : List Request) (s : ChainHeadState)
    → IsExhausted h s
    → IsExhausted h (record s { requests = requests })
waits h requests s x = record { given = x.given; at_limit = x.at_limit }

follow-IsExhausted :
    (h : ℕ) (r : Bool) (s : ChainHeadState) → IsExhausted h s → IsExhausted h (follow r s).1
unfolding follow
follow-IsExhausted h r s x = elim (Bool-cases (can_add_subscription s)) [
  | inr full ↦ rw full x
  | inl below ↦ rw below (record { given = x.given; at_limit = x.at_limit })
]

register-IsExhausted :
    (h : ℕ) (id : _) (r : Bool) (s : ChainHeadState)
    → IsExhausted h s
    → IsExhausted h (register_subscription id r s)
unfolding register_subscription
register-IsExhausted h id r s x = record {
  given = omega (arith, x.given);
  at_limit = ground (arith, x.given, x.at_limit);
}

-- An operation that passed the test before counts one more, and runs or leaks.
module _ (h j : ℕ) (handler : Handler) (before after : List Request) (s : ChainHeadState) (c : ℕ)
    (e : s.requests ≡ before ++ operating j handler ∷ after) (v : IsBounded c s)
    (x : IsExhausted h s) where
  began-IsExhausted : IsExhausted h (began j (taken before after s))
  unfolding began
  began-IsExhausted = record {
    given = x.given;
    at_limit = omega (arith, began-count before after s c j handler e v h, x.at_limit);
  }

  spawn-IsExhausted :
      (op : ℕ) (operation : Operation)
      → IsExhausted h (spawn (task_of j op operation) (began j (taken before after s)))
  unfolding began spawn
  spawn-IsExhausted op operation = record {
    given = x.given;
    at_limit = omega (
      arith,
      began-count before after s c j handler e v h,
      tasks_on-append h s.tasks (task_of j op operation ∷ []),
      x.at_limit,
    );
  }

finish-IsExhausted :
    (h c : ℕ) (before : List Task) (task : Task) (after : List Task) (events : List OperationEvent)
    (s : ChainHeadState)
    → s.tasks ≡ before ++ task ∷ after
    → IsBounded c s
    → IsExhausted h s
    → IsExhausted h (finish task events (before ++ after) s)
unfolding finish
finish-IsExhausted h c before task after events s e v x = record {
  given = x.given;
  at_limit = ground (arith, counts, x.at_limit, v.limited h, v.small);
}
  where
    counts :
        tasks_on h s.tasks ≡ (if nat_beq task.handle h then 1 else 0) + tasks_on h (before ++ after)
    counts =
        ap (tasks_on h) e
        ∙ omega (arith, tasks_on-append h before (task ∷ after), tasks_on-append h before after)

Step-IsExhausted :
    {b : TaskBackend} {h : ℕ} {s s' : ChainHeadState} {w w' : b.blockchain.World}
    → Step b s w s' w'
    → IsBounded b.capacity s
    → IsExhausted h s
    → IsExhausted h s'
unfolding body call storage remove_subscription
Step-IsExhausted {h = h} (follow_asked r s w _) v x = follow-IsExhausted h r s x
Step-IsExhausted {h = h} (body_asked id hash s w _) v x =
    begin_rule (IsExhausted h) id _ s x (λ _ _ _. waits h _ s x)
Step-IsExhausted {h = h} (call_asked id hash function parameters s w _) v x =
    begin_rule (IsExhausted h) id _ s x (λ _ _ _. waits h _ s x)
Step-IsExhausted {h = h} (storage_asked id hash items s w _) v x =
    begin_rule (IsExhausted h) id _ s x (λ _ _ _. waits h _ s x)
Step-IsExhausted {h = h} (followed id r before after s w _ _) v x =
    register-IsExhausted h id r (taken before after s) (waits h _ s x)
Step-IsExhausted {h = h} (rejected r before after s w _) v x = waits h _ s x
Step-IsExhausted (unfollowed id s w) v x = record { given = x.given; at_limit = x.at_limit }
Step-IsExhausted {b} {h} (resumed j handler before after s s' w w' r e q) v x =
    ends_at (IsExhausted h) q (
      resume_rule (IsExhausted h) j (taken before after s)
        (began-IsExhausted h j handler before after s b.capacity e v x)
        (spawn-IsExhausted h j handler before after s b.capacity e v x) b.blockchain handler w)
Step-IsExhausted {b} {h} (finished before task after events s w w' e _) v x =
    finish-IsExhausted h b.capacity before task after events s e v x
Step-IsExhausted (moved s w w') v x = x

pub Reach-IsExhausted :
    {b : TaskBackend} {h : ℕ} {s : ChainHeadState} {w : b.blockchain.World} {s' : ChainHeadState}
    {w' : b.blockchain.World}
    → IsBounded b.capacity s
    → IsExhausted h s
    → Reach b s w s' w'
    → IsBounded b.capacity s' × IsExhausted h s'
Reach-IsExhausted v x here = (v, x)
Reach-IsExhausted v x (next r st) =
    let (v', x') = Reach-IsExhausted v x r in (Step-IsBounded st v', Step-IsExhausted st v' x')
