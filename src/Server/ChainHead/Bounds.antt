-- ===== src/Server/ChainHead/Bounds.antt =====
-- The counters of operations and the table of subscriptions stay within their limits.
use pop_cli.Prelude.{
  ℕ, ◌+◌, ◌≤◌, ◌<◌, ◌≡◌, refl, ap, ◌∙◌, inl, inr, Bool, false, List, [], ◌∷◌, ◌++◌, some, arith,
  true, length, leb, nat_beq, if◌then◌else◌, Bool-cases,
}
use pop_cli.Bytes.{Bytes, bytes_eq}
use pop_cli.Assoc.{lookup, insert, remove, lookup-remove}
use pop_cli.Server.ChainHead.State.{
  u64_mod, Handler, Request, accepting, operating, ChainHeadState, Task, OperationEvent,
  max_operations, new_state,
}
use pop_cli.Server.ChainHead.Methods.{can_add_subscription, wait, follow, remove_subscription}
use pop_cli.Server.ChainHead.Tasks.{finish}
use pop_cli.Server.ChainHead.Steps.{tasks_on, requests_on, accepting_in}

-- On each handle at most as many tasks run as operations are counted. Of what is counted and what is
-- about to be, the last `c` may be past the limit, as for subscriptions; `c` is so small that no counter
-- wraps around. A handle not yet given out has none; each subscription has a handle given out.
pub record IsBounded (c : ℕ) (s : ChainHeadState) : Type 0 where
  pub small : 16 + c ≤ u64_mod
  pub few_requests : length s.requests ≤ c
  pub busy : (h : ℕ) → tasks_on h s.tasks ≤ (s.handles h).operation_count
  pub limited : (h : ℕ) → (s.handles h).operation_count + requests_on h s.requests ≤ 15 + c
  pub fresh : (h : ℕ) → s.next_handle ≤ h → tasks_on h s.tasks + requests_on h s.requests ≡ 0
  pub registered : (id : Bytes) (h : ℕ) → lookup id s.subscriptions ≡ some h → h < s.next_handle
  pub few : length s.subscriptions + accepting_in s.requests ≤ 1023 + c

pub tasks_on-append :
    (h : ℕ) (xs ys : List Task) → tasks_on h (xs ++ ys) ≡ tasks_on h xs + tasks_on h ys
tasks_on-append h [] ys = omega arith
tasks_on-append h (x ∷ xs) ys = omega (arith, tasks_on-append h xs ys)

-- A request leaves the list: it was one of those that it counts for.
pub requests_on-append :
    (h : ℕ) (xs ys : List Request) → requests_on h (xs ++ ys) ≡ requests_on h xs + requests_on h ys
requests_on-append h [] ys = omega arith
requests_on-append h (accepting r ∷ xs) ys = requests_on-append h xs ys
requests_on-append h (operating j handler ∷ xs) ys = omega (arith, requests_on-append h xs ys)

pub accepting_in-append :
    (xs ys : List Request) → accepting_in (xs ++ ys) ≡ accepting_in xs + accepting_in ys
accepting_in-append [] ys = omega arith
accepting_in-append (accepting r ∷ xs) ys = omega (arith, accepting_in-append xs ys)
accepting_in-append (operating j handler ∷ xs) ys = accepting_in-append xs ys

-- Each request counts for one handle at most, or for a subscription.
requests_length : (h : ℕ) (xs : List Request) → requests_on h xs + accepting_in xs ≤ length xs
requests_length h [] = omega arith
requests_length h (accepting r ∷ xs) = omega (arith, requests_length h xs)
requests_length h (operating j handler ∷ xs) = ground (arith, requests_length h xs)

pub length-insert :
    (id : Bytes) (h : ℕ) (m : List (Bytes × ℕ)) → length (insert id h m) ≤ length m + 1
unfolding insert
length-insert id h [] = omega arith
length-insert id h ((j, v) ∷ m) = ground (arith, length-insert id h m)

length-remove : (id : Bytes) (m : List (Bytes × ℕ)) → length (remove id m) ≤ length m
unfolding remove
length-remove id [] = omega arith
length-remove id ((j, v) ∷ m) = ground (arith, length-remove id m)

pub new_state-IsBounded : (c : ℕ) → 16 + c ≤ u64_mod → IsBounded c new_state
unfolding lookup
new_state-IsBounded c small = record {
  small = small;
  few_requests = omega arith;
  busy = λ h. omega arith;
  limited = λ h. omega arith;
  fresh = λ h _. refl;
  registered = λ id h e. cc;
  few = omega arith;
}

-- A subscription passes the test.
accept-IsBounded :
    (c : ℕ) (r : Bool) (s : ChainHeadState)
    → length s.requests < c
    → can_add_subscription s ≡ true
    → IsBounded c s
    → IsBounded c (wait (accepting r) s)
accept-IsBounded c r s room below v = record {
  small = v.small;
  few_requests = omega (arith, room);
  busy = v.busy;
  limited = v.limited;
  fresh = v.fresh;
  registered = v.registered;
  few = ground (arith, below, room, requests_length 0 s.requests);
}

pub follow-IsBounded :
    (c : ℕ) (r : Bool) (s : ChainHeadState)
    → length s.requests < c
    → IsBounded c s
    → IsBounded c (follow r s).1
unfolding follow
follow-IsBounded c r s room v = elim (Bool-cases (can_add_subscription s)) [
  | inr full ↦ rw full v
  | inl below ↦ rw below (accept-IsBounded c r s room below v)
]

-- An operation passes the test.
pub pass-IsBounded :
    (c : ℕ) (id : Bytes) (handler : Handler) (s : ChainHeadState) (h : ℕ)
    → length s.requests < c
    → lookup id s.subscriptions ≡ some h
    → leb max_operations (s.handles h).operation_count ≡ false
    → IsBounded c s
    → IsBounded c (wait (operating h handler) s)
pass-IsBounded c id handler s h room found below v = record {
  small = v.small;
  few_requests = omega (arith, room);
  busy = v.busy;
  limited = λ j. ground (arith, below, room, v.limited j, requests_length h s.requests);
  fresh = λ j le. ground (arith, v.fresh j le, v.registered id h found);
  registered = v.registered;
  few = v.few;
}

pub remove-IsBounded :
    (c : ℕ) (id : Bytes) (s : ChainHeadState)
    → IsBounded c s
    → IsBounded c (remove_subscription id s)
unfolding remove_subscription
remove-IsBounded c id s v = record {
  small = v.small;
  few_requests = v.few_requests;
  busy = v.busy;
  limited = v.limited;
  fresh = v.fresh;
  registered = λ j h e. ground (arith, lookup-remove id j s.subscriptions, v.registered j h);
  few = omega (arith, length-remove id s.subscriptions, v.few);
}

pub finish-IsBounded :
    (c : ℕ) (before : List Task) (task : Task) (after : List Task) (events : List OperationEvent)
    (s : ChainHeadState)
    → s.tasks ≡ before ++ task ∷ after
    → IsBounded c s
    → IsBounded c (finish task events (before ++ after) s)
unfolding finish
finish-IsBounded c before task after events s e v = record {
  small = v.small;
  few_requests = v.few_requests;
  busy = λ j. ground (
    arith,
    counts j,
    counts task.handle,
    v.busy j,
    v.busy task.handle,
    v.limited task.handle,
    v.small,
  );
  limited = λ j.
      ground (
        arith,
        counts task.handle,
        v.limited j,
        v.busy task.handle,
        v.limited task.handle,
        v.small,
      );
  fresh = λ j le. ground (arith, counts j, v.fresh j le);
  registered = v.registered;
  few = v.few;
}
  where
    counts :
        (j : ℕ)
        → tasks_on j s.tasks
          ≡ (if nat_beq task.handle j then 1 else 0) + tasks_on j (before ++ after)
    counts j =
        ap (tasks_on j) e
        ∙ omega (arith, tasks_on-append j before (task ∷ after), tasks_on-append j before after)
