-- ===== src/Server/ChainHead/Counting.antt =====
-- The second part of a handler: its request leaves the list, and registers or counts.
use pop_cli.Prelude.{
  ℕ, ◌+◌, ◌<◌, ◌≡◌, ap, Bool, List, [], ◌∷◌, ◌++◌, arith, length, length-append, nat_beq,
  if◌then◌else◌,
}
use pop_cli.Bytes.{Bytes, bytes_eq}
use pop_cli.Assoc.{lookup-insert}
use pop_cli.Server.ChainHead.State.{
  Handler, Request, accepting, operating, ChainHeadState, Operation,
}
use pop_cli.Server.ChainHead.Methods.{register_subscription, spawn, began, task_of}
use pop_cli.Server.ChainHead.Steps.{tasks_on, requests_on, accepting_in}
use pop_cli.Server.ChainHead.Bounds.{
  IsBounded, tasks_on-append, requests_on-append, accepting_in-append, length-insert,
}

-- A request is taken out.
module _ (before after : List Request) (s : ChainHeadState) where
  abbrev pub taken : ChainHeadState
  taken = record s { requests = before ++ after }

  length_taken :
      (request : Request)
      → s.requests ≡ before ++ request ∷ after
      → length (before ++ after) + 1 ≡ length s.requests
  length_taken request e =
      omega (arith, ap length e, length-append before (request ∷ after), length-append before after)

  accepted_taken :
      (r : Bool)
      → s.requests ≡ before ++ accepting r ∷ after
      → ((h : ℕ) → requests_on h (before ++ after) ≡ requests_on h s.requests)
        × (accepting_in (before ++ after) + 1 ≡ accepting_in s.requests)
  accepted_taken r e = (
    λ h. omega (
      arith,
      ap (requests_on h) e,
      requests_on-append h before (accepting r ∷ after),
      requests_on-append h before after,
    ),
    omega (
      arith,
      ap accepting_in e,
      accepting_in-append before (accepting r ∷ after),
      accepting_in-append before after,
    ),
  )

  pub operating_taken :
      (h : ℕ) (handler : Handler)
      → s.requests ≡ before ++ operating h handler ∷ after
      → ((j : ℕ)
          → requests_on j (before ++ after) + (if nat_beq h j then 1 else 0)
            ≡ requests_on j s.requests)
        × (accepting_in (before ++ after) ≡ accepting_in s.requests)
  operating_taken h handler e = (
    λ j. omega (
      arith,
      ap (requests_on j) e,
      requests_on-append j before (operating h handler ∷ after),
      requests_on-append j before after,
    ),
    omega (
      arith,
      ap accepting_in e,
      accepting_in-append before (operating h handler ∷ after),
      accepting_in-append before after,
    ),
  )

  pub rejected-IsBounded :
      (c : ℕ) (r : Bool)
      → s.requests ≡ before ++ accepting r ∷ after
      → IsBounded c s
      → IsBounded c taken
  rejected-IsBounded c r e v =
      let (same, fewer) = accepted_taken r e in
      record {
        small = v.small;
        few_requests = omega (arith, length_taken (accepting r) e, v.few_requests);
        busy = v.busy;
        limited = λ h. omega (arith, same h, v.limited h);
        fresh = λ h le. omega (arith, same h, v.fresh h le);
        registered = v.registered;
        few = omega (arith, fewer, v.few);
      }

  pub register-IsBounded :
      (c : ℕ) (id : Bytes) (r : Bool)
      → s.requests ≡ before ++ accepting r ∷ after
      → IsBounded c s
      → IsBounded c (register_subscription id r taken)
  unfolding register_subscription
  register-IsBounded c id r e v =
      let (same, fewer) = accepted_taken r e in
      record {
        small = v.small;
        few_requests = omega (arith, length_taken (accepting r) e, v.few_requests);
        busy = λ h. ground (arith, v.busy h, v.fresh h);
        limited = λ h. ground (arith, v.limited h, same h, v.fresh h);
        fresh = λ h le. omega (arith, same h, v.fresh h (omega (arith, le)));
        registered = λ j h q.
            ground (arith, lookup-insert id j s.next_handle s.subscriptions, v.registered j h, q);
        few = omega (arith, length-insert id s.next_handle s.subscriptions, fewer, v.few);
      }

  -- The request counts its operation.
  module _ (c h : ℕ) (handler : Handler) (e : s.requests ≡ before ++ operating h handler ∷ after)
      (v : IsBounded c s) where
    pub began-count :
        (j : ℕ)
        → ((began h taken).handles j).operation_count
          ≡ (s.handles j).operation_count + (if nat_beq h j then 1 else 0)
    unfolding began
    began-count j = ground (arith, v.limited h, (operating_taken h handler e).0 h, v.small)

    pub began-IsBounded : IsBounded c (began h taken)
    unfolding began
    began-IsBounded = record {
      small = v.small;
      few_requests = omega (arith, length_taken (operating h handler) e, v.few_requests);
      busy = λ j. omega (arith, began-count j, v.busy j);
      limited = λ j. omega (arith, began-count j, (operating_taken h handler e).0 j, v.limited j);
      fresh = λ j le. omega (arith, (operating_taken h handler e).0 j, v.fresh j le);
      registered = v.registered;
      few = omega (arith, (operating_taken h handler e).1, v.few);
    }

    pub given : h < s.next_handle
    given = ground (arith, (operating_taken h handler e).0 h, v.fresh h)

    -- Its task runs.
    pub spawn-IsBounded :
        (op : ℕ) (operation : Operation)
        → IsBounded c (spawn (task_of h op operation) (began h taken))
    unfolding began spawn
    spawn-IsBounded op operation =
        let w = began-IsBounded in
        record {
          small = w.small;
          few_requests = w.few_requests;
          busy = λ j. omega (arith, began-count j, v.busy j, runs j);
          limited = w.limited;
          fresh = λ j le. ground (arith, w.fresh j le, runs j, given, le);
          registered = w.registered;
          few = w.few;
        }
      where
        runs :
            (j : ℕ)
            → tasks_on j (s.tasks ++ task_of h op operation ∷ [])
              ≡ tasks_on j s.tasks + tasks_on j (task_of h op operation ∷ [])
        runs j = tasks_on-append j s.tasks (task_of h op operation ∷ [])
