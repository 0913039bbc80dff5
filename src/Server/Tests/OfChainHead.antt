-- ===== src/Server/Tests/OfChainHead.antt =====
-- The properties of the `chainHead` methods at concrete inputs.
use pop_cli.Prelude.{ℕ, ◌+◌, ◌≤◌, ◌≡◌, ◌≢◌, refl, arith, false, none, some, [], ◌∷◌, length, map}
use pop_cli.Bytes.{bytes_eq}
use pop_cli.Assoc.{lookup, insert}
use pop_cli.Fork.Monad.{returned}
use pop_cli.Server.Error.{answer}
use pop_cli.Server.Hex.{from_bytes, parse_block_hash}
use pop_cli.Server.ChainHead.State.{ChainHeadState, new_state, accepting, launching, body_of}
use pop_cli.Server.ChainHead.Methods.{
  follow, register_subscription, wait, begin_operation, launch, resume, body, call, storage, began,
  limit_response, start_response,
}
use pop_cli.Server.ChainHead.Steps.{
  tasks_on, Reach, here, next, follow_asked, followed, body_asked, resumed,
}
use pop_cli.Server.ChainHead.Bounds.{IsBounded, new_state-IsBounded}
use pop_cli.Server.ChainHead.Counting.{taken}
use pop_cli.Server.ChainHead.Safety.{Reach-IsBounded, Reach-keeps}
use pop_cli.Server.ChainHead.Exhaustion.{repeat_body, whole, Reach-limit_reached}
use pop_cli.Server.ChainHead.Settling.{last_events, settles}
use pop_cli.Server.ChainHead.Ending.{EndsCalls}
use pop_cli.Server.ChainHead.Follow.{block_event, stream, Accepts, Linked, stream-Accepts}
use pop_cli.Server.Tests.Data.{hash_of, test_hex, small_tasks, text_of}

-- A subscription `1`, with no operation.
abbrev subscribed : ChainHeadState
unfolding register_subscription
subscribed = register_subscription (1 ∷ []) false (taken [] [] (wait (accepting false) new_state))

subscribed-Reach : Reach small_tasks new_state tt subscribed tt
unfolding follow lookup register_subscription subscribed
subscribed-Reach =
    next (next here (follow_asked false new_state tt (omega arith)))
      (followed (1 ∷ []) false [] [] (follow false new_state).1 tt refl refl)

-- A request for the body of block 7 has passed the test, and then its task runs.
abbrev passed : ChainHeadState
passed = (body test_hex (1 ∷ []) (text_of 7) subscribed).1

abbrev asked : ChainHeadState
asked = whole (body test_hex (1 ∷ []) (text_of 7) subscribed)

asked-Reach : Reach small_tasks new_state tt asked tt
unfolding register_subscription lookup insert body begin_operation parse_block_hash launch resume
asked-Reach =
    next (next subscribed-Reach (body_asked (1 ∷ []) (text_of 7) subscribed tt (omega arith))) (
      resumed 0 (launching (answer (body_of (hash_of 7)))) [] [] passed asked tt tt
        (answer (start_response 1 none)) refl refl)

Reach-IsBounded_example :
    ((h : ℕ)
      → (tasks_on h asked.tasks ≤ (asked.handles h).operation_count)
        × ((asked.handles h).operation_count ≤ 16))
    × (length asked.subscriptions ≤ 1024)
Reach-IsBounded_example = Reach-IsBounded (omega arith) asked-Reach

subscribed-IsBounded : IsBounded 1 subscribed
subscribed-IsBounded = Reach-keeps (new_state-IsBounded 1 (omega arith)) subscribed-Reach

abbrev exhausted : ChainHeadState
exhausted = repeat_body test_hex (1 ∷ []) [] 16 subscribed

Reach-limit_reached_example :
    (body test_hex (1 ∷ []) (text_of 7) exhausted ≡ (some (answer limit_response), exhausted))
    × (call test_hex (1 ∷ []) (text_of 7) [] [] exhausted
        ≡ (some (answer limit_response), exhausted))
    × (storage test_hex (1 ∷ []) (text_of 7) [] exhausted
        ≡ (some (answer limit_response), exhausted))
unfolding lookup body begin_operation launch parse_block_hash began insert register_subscription
Reach-limit_reached_example =
    Reach-limit_reached small_tasks (1 ∷ []) [] subscribed 0 tt subscribed-IsBounded (omega arith)
      refl refl refl here refl (text_of 7) [] [] []

asked-IsBounded : IsBounded 1 asked
asked-IsBounded = Reach-keeps (new_state-IsBounded 1 (omega arith)) asked-Reach

small_tasks-EndsCalls : EndsCalls small_tasks
small_tasks-EndsCalls = record {
  body_ends = λ hash w. returned tt;
  call_ends = λ hash function parameters w. returned tt;
  number_ends = λ hash w. returned tt;
  storage_ends = λ n key w. returned tt;
  keys_ends = λ prefix hash w. returned tt;
  proxy_ends = λ function parameters hash w. returned tt;
}

settles_example :
    (s' : ChainHeadState) × (w' : Unit {0}) × Reach small_tasks asked tt s' w'
    × (s'.tasks ≡ [])
    × ((h : ℕ)
        → (s'.handles h).operation_count + tasks_on h asked.tasks
          ≡ (asked.handles h).operation_count)
    × ((h : ℕ)
        → last_events (s'.handles h).events
          ≡ last_events (asked.handles h).events + tasks_on h asked.tasks)
settles_example =
    settles small_tasks small_tasks-EndsCalls asked.tasks asked tt refl asked-IsBounded

stream-Accepts_example :
    (Linked (5 ∷ []) (record { hash = 6 ∷ []; parent_hash = 5 ∷ [] } ∷ [])
      → Accepts [] (
          stream test_hex
            (5 ∷ [])
            (map block_event (record { hash = 6 ∷ []; parent_hash = 5 ∷ [] } ∷ []))))
    × (from_bytes test_hex (5 ∷ []) ≢ from_bytes test_hex (5 ∷ [])
        → Accepts [] (
            stream test_hex
              (5 ∷ [])
              (map block_event (record { hash = 6 ∷ []; parent_hash = 5 ∷ [] } ∷ [])))
        → ⊥)
stream-Accepts_example =
    stream-Accepts test_hex (5 ∷ []) (record { hash = 6 ∷ []; parent_hash = 5 ∷ [] }) []
