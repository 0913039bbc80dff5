-- ===== src/Server/ChainHead/Exhaustion.antt =====
-- What malformed requests do to a subscription of `chainHead`.
use pop_cli.Prelude.{
  ℕ, zero, suc, ◌+◌, ◌≤◌, ◌<◌, ◌≡◌, refl, inl, inr, true, false, List, [], ◌∷◌, Option, none, some,
  arith, length, leb, Bool-cases,
}
use pop_cli.Bytes.{Bytes, bytes_eq}
use pop_cli.Assoc.{lookup}
use pop_cli.Server.Error.{RpcServerError, RpcResult, answer, refuse}
use pop_cli.Server.Hex.{Codec, parse_block_hash}
use pop_cli.Server.Items.{StorageQueryItem}
use pop_cli.Server.ChainHead.State.{
  ChainHeadState, MethodResponse, Request, Handler, launching, locating, accepting, operating,
  max_operations,
}
use pop_cli.Server.ChainHead.Methods.{
  body, call, storage, launch, begin_operation, wait, began, limit_response,
}
use pop_cli.Server.ChainHead.Tasks.{TaskBackend}
use pop_cli.Server.ChainHead.Steps.{tasks_on, Reach}
use pop_cli.Server.ChainHead.Bounds.{IsBounded, pass-IsBounded}
use pop_cli.Server.ChainHead.Counting.{began-IsBounded, began-count}
use pop_cli.Server.ChainHead.Leaks.{IsExhausted, Reach-IsExhausted}

-- The rest of the handler of `body` that has just passed its test, with nothing in between.
abbrev pub go_on : List Request → ChainHeadState → ChainHeadState
go_on (operating h (launching parsed) ∷ rest) s =
    (launch h s.next_op_id parsed (began h (record s { requests = rest }))).1
go_on (operating h (locating hash parsed items) ∷ rest) s = s
go_on (accepting r ∷ rest) s = s
go_on [] s = s

abbrev pub whole : Option (RpcResult MethodResponse) × ChainHeadState → ChainHeadState
whole (some r, s) = s
whole (none, s) = go_on s.requests s

-- As many requests for the body of a block, each all through before the next.
abbrev pub repeat_body : Codec → Bytes → Bytes → ℕ → ChainHeadState → ChainHeadState
repeat_body hex id hash zero s = s
repeat_body hex id hash (suc n) s = repeat_body hex id hash n (whole (body hex id hash s))

module _ (hex : Codec) (id hash : Bytes) (c : ℕ) {e : RpcServerError}
    (malformed : parse_block_hash hex hash ≡ refuse e) where
  -- Below the limit the operation is counted, and no task runs that would release it.
  body-began :
      (s : ChainHeadState) (h : ℕ)
      → lookup id s.subscriptions ≡ some h
      → leb max_operations (s.handles h).operation_count ≡ false
      → whole (body hex id hash s) ≡ began h s
  unfolding body begin_operation launch
  body-began s h found below = rw malformed (rw (found, begin_operation) (rw below refl))

  body-full :
      (s : ChainHeadState) (h : ℕ)
      → lookup id s.subscriptions ≡ some h
      → leb max_operations (s.handles h).operation_count ≡ true
      → whole (body hex id hash s) ≡ s
  unfolding body begin_operation
  body-full s h found full = rw (found, begin_operation) (rw full refl)

  -- A request passes and is counted.
  once :
      (s : ChainHeadState) (h : ℕ)
      → length s.requests < c
      → lookup id s.subscriptions ≡ some h
      → leb max_operations (s.handles h).operation_count ≡ false
      → IsBounded c s
      → IsBounded c (began h s)
        × (((began h s).handles h).operation_count ≡ (s.handles h).operation_count + 1)
  once s h room found below v =
      let w = pass-IsBounded c id (launching (refuse e)) s h room found below v in
      let at = wait (operating h (launching (refuse e))) s in
      (
        began-IsBounded [] s.requests at c h (launching (refuse e)) refl w,
        ground (arith, began-count [] s.requests at c h (launching (refuse e)) refl w h),
      )

  -- The count of the handle after some requests.
  counted :
      (n : ℕ) (s : ChainHeadState) (h : ℕ)
      → length s.requests < c
      → IsBounded c s
      → lookup id s.subscriptions ≡ some h
      → tasks_on h s.tasks ≡ 0
      → max_operations ≤ (s.handles h).operation_count + n
      → IsBounded c (repeat_body hex id hash n s) × IsExhausted h (repeat_body hex id hash n s)
  unfolding began
  counted zero s h room v found idle high =
      (v, record { given = v.registered id h found; at_limit = omega (arith, idle, high) })
  counted (suc n) s h room v found idle high =
      elim (Bool-cases (leb max_operations (s.handles h).operation_count)) [
        | inl full ↦
            rw (body-full s h found full) (counted n s h room v found idle (ground (arith, full)))
        | inr below ↦
            let (w, more) = once s h room found below v in
            rw (body-began s h found below)
              (counted n (began h s) h room w found idle (omega (arith, more, high)))
      ]

-- On an exhausted handle each request for an operation is answered with the limit.
module _ (id : Bytes) (h : ℕ) (s : ChainHeadState) (x : IsExhausted h s)
    (found : lookup id s.subscriptions ≡ some h) where
  full : leb max_operations (s.handles h).operation_count ≡ true
  full = ground (arith, x.at_limit)

  begin_full :
      (handler : Handler) → begin_operation id handler s ≡ (some (answer limit_response), s)
  unfolding begin_operation
  begin_full handler = rw (found, begin_operation) (rw full refl)

-- In a state within the bounds, sixteen requests with a hash that does not parse, one after the other,
-- use up the operations of a subscription on which no task runs, on a server with room for one more
-- request: whatever follows, as long as it lasts, each of its requests for a body, a call or storage is
-- answered with `limitReached`, and changes nothing.
pub Reach-limit_reached :
    (b : TaskBackend) (id hash : Bytes) (s : ChainHeadState) (h : ℕ) (w : b.blockchain.World)
    {e : RpcServerError} {s' : ChainHeadState} {w' : b.blockchain.World}
    → IsBounded b.capacity s
    → length s.requests < b.capacity
    → lookup id s.subscriptions ≡ some h
    → tasks_on h s.tasks ≡ 0
    → parse_block_hash b.hex hash ≡ refuse e
    → Reach b (repeat_body b.hex id hash 16 s) w s' w'
    → lookup id s'.subscriptions ≡ some h
    → (asked function parameters : Bytes) (items : List StorageQueryItem)
    → (body b.hex id asked s' ≡ (some (answer limit_response), s'))
      × (call b.hex id asked function parameters s' ≡ (some (answer limit_response), s'))
      × (storage b.hex id asked items s' ≡ (some (answer limit_response), s'))
unfolding body call storage
Reach-limit_reached b id hash s h w {s'} {w'} v room found idle malformed r still asked function
      parameters items =
    let (v', x) =
      counted b.hex id hash b.capacity malformed 16 s h room v found idle (omega arith) in
    let y = (Reach-IsExhausted v' x r).1 in
    (begin_full id h s' y still _, begin_full id h s' y still _, begin_full id h s' y still _)
