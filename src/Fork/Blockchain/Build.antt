-- ===== src/Fork/Blockchain/Build.antt =====
-- `build_block` of crates/pop-fork/src/blockchain.rs. The prefetch that it waits for has been done, and
-- the compiled prototype is left out. What the providers of inherents cache is part of the world.
pub mod Live
pub mod Stages
pub mod Closing
pub mod Extrinsics
pub mod Preparing
pub mod Laws
pub mod Parents
pub mod Names
pub mod Concurrent
pub mod Chaining
use pop_cli.Prelude.{ℕ, Bool, List, [], ◌∷◌, ◌++◌, map, Option, none, some, nat_beq, if◌then◌else◌}
use pop_cli.Bytes.{Bytes, bytes_beq}
use pop_cli.Fork.Result.{concurrent_block_build}
use pop_cli.Fork.Monad.{Outcome, returns, raises, stuck, M, ◌>>=◌, ◌>>◌, pure, modify, gets}
use pop_cli.Fork.Rpc.{Rpc}
use pop_cli.Fork.Remote.{Env}
use pop_cli.Fork.Local.{Shared, Layer, diff, has_code_changed_at}
use pop_cli.Fork.Block.{Block, fields, layer_of, runtime_code}
use pop_cli.Fork.Builder.{
  created, Runtime, Building, initialize, apply_inherents, apply_all, finalize,
}
use pop_cli.Fork.Header.{Libraries, create_next_header_with_slot}

-- The runtimes: `with_config` of `RuntimeExecutor`, which compiles code, fails with `none`.
pub record Engine (rpc : Rpc) : Type 1 where
  pub Executor : Type 0
  pub runtime : Executor → Runtime rpc
  pub with_config : Bytes → Option Executor
  pub invalidate_cache : rpc.World → rpc.World
  pub libraries : Libraries rpc

-- `BlockchainEvent::NewBlock`
pub record BlockchainEvent : Type 0 where
  pub hash : Bytes
  pub number : ℕ
  pub parent_hash : Bytes
  pub header : Bytes
  pub modified_keys : List Bytes

pub record BuildBlockResult : Type 0 where
  pub block : Block
  pub included : List Bytes
  pub failed : List (Bytes × Bytes)

-- `Blockchain`, with the environment and what the layers share; `events` is what was sent.
pub record Fork {rpc : Rpc} (engine : Engine rpc) : Type 0 where
  pub env : Env rpc
  pub shared : Shared rpc
  pub head : Block
  pub executor : engine.Executor
  pub cached_slot_duration : ℕ
  pub events : List BlockchainEvent

-- What is built before the head is locked.
pub record Built {rpc : Rpc} (engine : Engine rpc) : Type 0 where
  pub result : BuildBlockResult
  pub runtime_upgraded : Bool
  pub new_executor : Option engine.Executor

module _ {rpc : Rpc} (runtime : Runtime rpc) where
  abbrev pub runtime_upgraded : Building rpc → Bool
  runtime_upgraded b =
      has_code_changed_at runtime.code_key (layer_of b.shared b.parent)
        (layer_of b.shared b.parent).current_block_number

  -- From `initialize` to `finalize`.
  unfoldable pub run_builder : List Bytes → M (Building rpc) (BuildBlockResult × Bool)
  unfolding initialize apply_inherents apply_all finalize
  run_builder extrinsics = do
    _ ← initialize runtime
    _ ← apply_inherents runtime
    applied ← apply_all runtime extrinsics
    upgraded ← gets runtime_upgraded
    block ← finalize runtime
    pure (record { block = block; included = applied.0; failed = applied.1 }, upgraded)

module _ {rpc : Rpc} (engine : Engine rpc) where
  abbrev with_env : {A : Type 0} → Fork engine → Outcome (Env rpc) A → Outcome (Fork engine) A
  with_env fork (returns a env) = returns a (record fork { env = env })
  with_env fork (raises e env) = raises e (record fork { env = env })
  with_env fork stuck = stuck

  abbrev pub on_env : {A : Type 0} → M (Env rpc) A → M (Fork engine) A
  on_env m fork = with_env fork (m fork.env)

  -- The builder writes to the environment and to what the layers share.
  abbrev pub with_building :
      {A : Type 0} → Fork engine → Outcome (Building rpc) A → Outcome (Fork engine) A
  with_building fork (returns a b) = returns a (record fork { env = b.env; shared = b.shared })
  with_building fork (raises e b) = raises e (record fork { env = b.env; shared = b.shared })
  with_building fork stuck = stuck

  -- `BlockBuilder::new`
  abbrev pub new_builder : Fork engine → Block → Bytes → Building rpc
  new_builder fork parent header = record {
    env = fork.env;
    shared = fork.shared;
    parent = parent;
    extrinsics = [];
    header = header;
    phase = created;
  }

  -- An executor that cannot be made is no error.
  abbrev pub compiled : Outcome (Env rpc) Bytes → Outcome (Env rpc) (Option engine.Executor)
  compiled (returns code env) = returns (engine.with_config code) env
  compiled (raises e env) = returns none env
  compiled stuck = stuck

  unfoldable pub prepare_executor :
      Runtime rpc → Bool → Block → M (Fork engine) (Option engine.Executor)
  unfolding runtime_code
  prepare_executor runtime upgraded block fork =
      if upgraded
      then on_env (λ env. compiled (runtime_code rpc runtime.code_key fork.shared block env)) fork
      else returns none fork

  -- 0 is no duration.
  abbrev pub duration_of : ℕ → Option ℕ
  duration_of cached = if nat_beq cached 0 then none else some cached

  -- Phase 2, which holds no lock, over the head that phase 1 read.
  unfoldable pub build_on : Block → List Bytes → M (Fork engine) (Built engine)
  unfolding create_next_header_with_slot run_builder prepare_executor
  build_on parent extrinsics fork =
      let runtime = engine.runtime fork.executor in
      (on_env (
            create_next_header_with_slot engine.libraries runtime fork.shared parent []
              (duration_of fork.cached_slot_duration))
          >>= λ header.
              (λ s. with_building s (run_builder runtime extrinsics (new_builder s parent header)))
              >>= λ built. prepare_executor runtime built.1 built.0.block >>= λ executor.
                  pure (record {
                    result = built.0;
                    runtime_upgraded = built.1;
                    new_executor = executor;
                  }))
        fork

  abbrev pub replace : engine.Executor → Option engine.Executor → engine.Executor
  replace old none = old
  replace old (some new) = new

  -- Phase 3, under the lock of the head.
  unfoldable pub commit_head : Bytes → Built engine → M (Fork engine) (Unit {0})
  commit_head parent_hash built fork =
      if bytes_beq (fields fork.head).hash parent_hash
      then returns tt (record fork {
        head = built.result.block;
        executor = replace fork.executor built.new_executor;
        cached_slot_duration = if built.runtime_upgraded then 0 else fork.cached_slot_duration;
      })
      else raises concurrent_block_build fork

  abbrev pub event_of : Shared rpc → Block → BlockchainEvent
  event_of shared block = record {
    hash = (fields block).hash;
    number = (fields block).number;
    parent_hash = (fields block).parent_hash;
    header = (fields block).header;
    modified_keys = map (λ entry. entry.0) (diff (layer_of shared block));
  }

  abbrev pub invalidated : Bool → Env rpc → Env rpc
  invalidated upgraded env =
      if upgraded then record env { world = engine.invalidate_cache env.world } else env

  -- After the lock is released.
  unfoldable pub announce : Built engine → M (Fork engine) BuildBlockResult
  announce built fork = returns built.result (record fork {
    env = invalidated built.runtime_upgraded fork.env;
    events = fork.events ++ event_of fork.shared built.result.block ∷ [];
  })

  unfoldable pub build_block : List Bytes → M (Fork engine) BuildBlockResult
  unfolding build_on commit_head announce
  build_block extrinsics = do
    parent ← gets (λ fork. fork.head)
    built ← build_on parent extrinsics
    commit_head (fields parent).hash built
    announce built

  unfoldable pub build_empty_block : M (Fork engine) Block
  unfolding build_block
  build_empty_block = build_block [] >>= λ result. pure result.block
