-- ===== src/Fork/Tests/Data.antt =====
-- A node, databases and calls for the tests.
use pop_cli.Prelude.{
  ℕ, ◌<◌, ◌≡◌, refl, List, [], ◌∷◌, map, Option, none, some, arith, if◌then◌else◌,
}
use pop_cli.Bytes.{Bytes, bytes_eq, bytes_beq}
use pop_cli.Fork.Monad.{returns}
use pop_cli.Fork.Rpc.{Rpc, IsHonest}
use pop_cli.Fork.Cache.Tables.{Db, empty_db}
use pop_cli.Fork.Cache.Storage.{get_storage, set_storage}
use pop_cli.Fork.Cache.Prefix.Laws.{IsBytes}
use pop_cli.Fork.Remote.{Env, reset_stats}
use pop_cli.Fork.Remote.Sound.{IsCacheOf, set_storage-IsCacheOf}
use pop_cli.Fork.Local.{Layer, new, set}
use pop_cli.Fork.Local.Timeline.{Timeline, Refines, write}
use pop_cli.Fork.Local.Refine.{set-Refines}
use pop_cli.Fork.Local.Runs.{
  Call, put, end_block, NoHistory, start, run_on, new-Refines, Runs, run-Runs, IsCacheOf-storage,
}

abbrev pub fork_hash : Bytes
fork_hash = 7 ∷ 7 ∷ []

abbrev pub alice : Bytes
alice = 1 ∷ 2 ∷ 3 ∷ []

abbrev pub bob : Bytes
bob = 1 ∷ 2 ∷ 4 ∷ []

abbrev pub carol : Bytes
carol = 9 ∷ []

abbrev pub balances : Bytes
balances = 1 ∷ 2 ∷ []

-- The state of the chain: `alice` and `carol` have a value at every block.
abbrev pub test_chain : Bytes → Bytes → Option Bytes
test_chain hash key =
    if bytes_beq key alice
    then some (100 ∷ [])
    else if bytes_beq key carol
    then some (50 ∷ [])
    else none

-- A node that answers with that state, and never fails.
abbrev pub test_rpc : Rpc
test_rpc = record {
  World = Unit {0};
  Metadata = ℕ;
  storage = λ key hash w. returns (test_chain hash key) w;
  storage_batch = λ keys hash w. returns (map (test_chain hash) keys) w;
  storage_keys_paged = λ prefix n start hash w. returns (alice ∷ []) w;
  reconnect = λ w. returns tt w;
  block_by_number = λ n w. returns none w;
  block_by_hash = λ hash w. returns none w;
  header = λ hash w. returns (record { number = 10; parent_hash = carol; encoded = [] }) w;
  block_hash_at = λ n w. returns none w;
  metadata = λ hash w. returns 5 w;
}

abbrev pub test_honest : IsHonest test_rpc test_chain ⊥
test_honest = record {
  storage_reply = λ key hash w. refl;
  storage_batch_reply = λ keys hash w. refl;
  storage_keys_paged_reply = λ prefix n start hash w. tt;
  reconnect_reply = λ w. tt;
}

-- A cache that knows the value of `alice` at the fork point.
abbrev pub warm_db : Db
warm_db = set_storage empty_db fork_hash alice (some (100 ∷ []))

abbrev pub test_env : Env test_rpc
test_env = record { db = warm_db; stats = reset_stats; world = tt }

pub empty_db-IsCacheOf : IsCacheOf test_chain empty_db
unfolding get_storage
empty_db-IsCacheOf = record { keyed = tt; agrees = λ h k v e. cc }

pub warm_db-IsCacheOf : IsCacheOf test_chain warm_db
warm_db-IsCacheOf =
    set_storage-IsCacheOf test_chain empty_db fork_hash alice (some (100 ∷ [])) empty_db-IsCacheOf
      refl

pub warm_db-NoHistory : NoHistory warm_db
unfolding set_storage
warm_db-NoHistory = record { no_keys = refl; no_values = refl }

-- Two blocks: `alice` is changed in the first, deleted in the second, and `bob` is created there.
abbrev pub two_blocks : List Call
two_blocks =
    put alice (some (80 ∷ []))
    ∷ end_block
    ∷ put alice none
    ∷ put bob (some (20 ∷ []))
    ∷ end_block
    ∷ []

abbrev pub fresh : Layer test_rpc
fresh = new test_rpc 10 fork_hash 5

pub fresh-Refines : Refines fresh warm_db (start 10)
fresh-Refines = new-Refines test_rpc 10 fork_hash 5 warm_db warm_db-NoHistory

abbrev pub written : Layer test_rpc
written = set fresh alice (some (80 ∷ []))

abbrev pub written_timeline : Timeline
written_timeline = write (start 10) alice (some (80 ∷ []))

pub written-Refines : Refines written warm_db written_timeline
written-Refines = set-Refines fresh warm_db (start 10) alice (some (80 ∷ [])) fresh-Refines

-- What the two blocks lead to.
pub built :
    (layer : Layer test_rpc) × (db : Db) × Runs two_blocks fresh test_env (start 10) layer db
built = run-Runs two_blocks fresh test_env (start 10) (omega arith) fresh-Refines

abbrev pub built_layer : Layer test_rpc
built_layer = built.0

abbrev pub built_db : Db
built_db = built.1

abbrev pub built_timeline : Timeline
built_timeline = run_on two_blocks (start 10)

pub built-Refines : Refines built_layer built_db built_timeline
built-Refines = built.2.refines

pub built_first : built_layer.first_forked_block_number ≡ 10
unfolding new
built_first = built.2.same_first

pub built_now : built_layer.current_block_number ≡ 13
built_now = built-Refines.same_now

pub after_fork_11 : built_layer.first_forked_block_number < 11
after_fork_11 = rw built_first (omega arith)

pub before_11 : 11 < built_layer.current_block_number
before_11 = rw built_now (omega arith)

abbrev pub built_env : Env test_rpc
built_env = record test_env { db = built_db }

pub built_db-IsCacheOf : IsCacheOf test_chain built_db
built_db-IsCacheOf =
    IsCacheOf-storage test_chain warm_db built_db built.2.same_storage warm_db-IsCacheOf

pub after_fork_12 : built_layer.first_forked_block_number < 12
after_fork_12 = rw built_first (omega arith)

pub bob-IsBytes : IsBytes bob
bob-IsBytes = (omega arith, (omega arith, (omega arith, tt)))
