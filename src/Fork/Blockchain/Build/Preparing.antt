-- ===== src/Fork/Blockchain/Build/Preparing.antt =====
-- The parts of `build_block` before the head is locked.
use pop_cli.Prelude.{ℕ, ◌+◌, ◌≡◌, refl, Bool, true, false, List, [], ◌++◌, Option, some, none}
use pop_cli.Bytes.{Bytes, bytes_eq}
use pop_cli.Fork.Monad.{
  Outcome, M, Preserves, Preserves-bind, Ensures, returned, raised, weaken-Ensures,
}
use pop_cli.Fork.Rpc.{Rpc, IsHonest}
use pop_cli.Fork.Cache.Tables.{Db}
use pop_cli.Fork.Remote.{Env}
use pop_cli.Fork.Remote.Sound.{IsCacheOf, Kept}
use pop_cli.Fork.Remote.Sound.Keeping.{Replying}
use pop_cli.Fork.Local.Keeping.{get-Keeps}
use pop_cli.Fork.Local.Refine.{SameHistory_refl}
use pop_cli.Fork.Local.Timeline.{Timeline, Refines-same}
use pop_cli.Fork.Block.{Block, fields, layer_of, runtime_code, code_of}
use pop_cli.Fork.Block.Laws.{IsHead}
use pop_cli.Fork.Builder.{Building, Runtime, created}
use pop_cli.Fork.Builder.Laws.{Splits}
use pop_cli.Fork.Builder.Hosts.{Hosts}
use pop_cli.Fork.Builder.Inherents.{Filled}
use pop_cli.Fork.Local.{LocalSharedValue, Shared}
use pop_cli.Fork.Blockchain.Build.{
  Engine, BuildBlockResult, Fork, on_env, with_building, run_builder, compiled, prepare_executor,
}
use pop_cli.Fork.Blockchain.Build.Live.{Live}
use pop_cli.Fork.Blockchain.Build.Stages.{Any}
use pop_cli.Fork.Blockchain.Build.Extrinsics.{run_builder-Ran}

module _ {rpc : Rpc} {chain : Bytes → Bytes → Option Bytes} {Fails : Type 0}
    (honest : IsHonest rpc chain Fails) (replying : Replying rpc) (engine : Engine rpc)
    (hosts : (executor : engine.Executor) → Hosts chain (engine.runtime executor)) where
  -- What building leaves alone until the head is locked.
  pub record Untouched (before after : Fork engine) : Type 0 where
    pub same_head : after.head ≡ before.head
    pub same_executor : after.executor ≡ before.executor
    pub same_duration : after.cached_slot_duration ≡ before.cached_slot_duration
    pub same_events : after.events ≡ before.events

  -- The block is the head of the fork, on the parent, with the inherents that the providers gave for the
  -- parent, and what was included.
  pub record Follows (executor : engine.Executor) (parent : Block) (now : ℕ) (included : List Bytes)
      (block : Block) (shared : Shared rpc) (db : Db) : Type 0 where
    pub timeline : Timeline
    pub same_now : timeline.now ≡ now + 1
    pub head : IsHead shared block db timeline
    pub cache : IsCacheOf chain db
    pub child_of : (fields block).parent_hash ≡ (fields parent).hash
    pub hashed : (fields block).hash ≡ (engine.runtime executor).blake2_256 (fields block).header
    pub inherents : List Bytes
    pub filled : Filled (engine.runtime executor) parent [] inherents
    pub same_extrinsics : (fields block).extrinsics ≡ inherents ++ included

  pub Follows-kept :
      {executor : engine.Executor} {parent : Block} {now : ℕ} {included : List Bytes}
      {block : Block} {shared : Shared rpc} (db db' : Db)
      → Follows executor parent now included block shared db
      → Kept chain db db'
      → Follows executor parent now included block shared db'
  Follows-kept {block = block} {shared} db db' f k = record {
    timeline = f.timeline;
    same_now = f.same_now;
    head = record {
      chain = f.head.chain;
      refines = Refines-same (layer_of shared block) db db' f.timeline k.1 f.head.refines;
      next = f.head.next;
    };
    cache = k.0;
    child_of = f.child_of;
    hashed = f.hashed;
    inherents = f.inherents;
    filled = f.filled;
    same_extrinsics = f.same_extrinsics;
  }

  carry :
      {before after : Fork engine} (env : Env rpc) (shared : Shared rpc)
      → Untouched before after
      → Untouched before (record after { env = env; shared = shared })
  carry env shared u = record {
    same_head = u.same_head;
    same_executor = u.same_executor;
    same_duration = u.same_duration;
    same_events = u.same_events;
  }

  pub on_env-Untouched :
      {before after : Fork engine} {A : Type 0} (m : M (Env rpc) A)
      → Untouched before after
      → Ensures (λ _ e. Kept chain after.env.db e.db) (λ _. Unit {0}) (m after.env)
      → Ensures
          (λ _ s. Untouched before s × Kept chain after.env.db s.env.db × (s.shared ≡ after.shared))
          (λ s. Untouched before s)
          (on_env engine m after)
  on_env-Untouched {before} {after} {A} m u h = go (m after.env) h
    where
      go :
          (o : Outcome (Env rpc) A)
          → Ensures (λ _ e. Kept chain after.env.db e.db) (λ _. Unit {0}) o
          → Ensures
              (λ _ s.
                Untouched before s × Kept chain after.env.db s.env.db × (s.shared ≡ after.shared))
              (λ s. Untouched before s)
              (on_env engine (λ _. o) after)
      go _ (returned {s = e} k) = returned (carry e after.shared u, k, refl)
      go _ (raised {s = e} f) = raised (carry e after.shared u)

  pub with_building-Untouched :
      {before after : Fork engine} {A : Type 0} (Q : A → Shared rpc → Db → Type 0)
      (o : Outcome (Building rpc) A)
      → Untouched before after
      → Ensures (λ a b. Q a b.shared b.env.db) (λ _. Unit {0}) o
      → Ensures
          (λ a s. Untouched before s × Q a s.shared s.env.db)
          (λ s. Untouched before s)
          (with_building engine after o)
  with_building-Untouched Q _ u (returned {s = b} q) = returned (carry b.env b.shared u, q)
  with_building-Untouched Q _ u (raised {s = b} f) = raised (carry b.env b.shared u)

  code_of-Kept :
      (db : Db) (value : Option LocalSharedValue)
      → Preserves (λ s. Kept chain db s.db) (code_of {S = Env rpc} value)
  code_of-Kept db none s k = raised k
  code_of-Kept db (some v) s k = go v.value
    where
      go :
          (o : Option Bytes)
          → Ensures
              (λ _ e. Kept chain db e.db)
              (λ e. Kept chain db e.db)
              (code_of (some (record v { value = o })) s)
      go none = raised k
      go (some code) = returned k

  compiled-Kept :
      (code_key : Bytes) (shared : Shared rpc) (block : Block) (env : Env rpc)
      → IsCacheOf chain env.db
      → Ensures
          (λ _ e. Kept chain env.db e.db)
          (λ _. Unit {0})
          (compiled engine (runtime_code rpc code_key shared block env))
  unfolding runtime_code
  compiled-Kept code_key shared block env c = go (runtime_code rpc code_key shared block env) (
      Preserves-bind
        (get-Keeps honest replying env.db (layer_of shared block) (fields block).number code_key)
        (code_of-Kept env.db) env (c, SameHistory_refl env.db))
    where
      go :
          (o : Outcome (Env rpc) Bytes)
          → Ensures (λ _ e. Kept chain env.db e.db) (λ e. Kept chain env.db e.db) o
          → Ensures (λ _ e. Kept chain env.db e.db) (λ _. Unit {0}) (compiled engine o)
      go _ (returned k) = returned k
      go _ (raised k) = returned k

  pub prepare_executor-Untouched :
      (runtime : Runtime rpc) (upgraded : Bool) (block : Block) (before after : Fork engine)
      → Untouched before after
      → IsCacheOf chain after.env.db
      → Ensures
          (λ _ s. Untouched before s × Kept chain after.env.db s.env.db × (s.shared ≡ after.shared))
          (λ s. Untouched before s)
          (prepare_executor engine runtime upgraded block after)
  unfolding prepare_executor
  prepare_executor-Untouched runtime true block before after u c =
      on_env-Untouched
        (λ env. compiled engine (runtime_code rpc runtime.code_key after.shared block env)) u
        (compiled-Kept runtime.code_key after.shared block after.env c)
  prepare_executor-Untouched runtime false block before after u c =
      returned (u, (c, SameHistory_refl after.env.db), refl)

  -- What phase 2 leads to.
  abbrev pub Made : List Bytes → Fork engine → ℕ → BuildBlockResult → Shared rpc → Db → Type 0
  Made xs fork now r shared db =
      Splits xs r.included r.failed
      × Follows fork.executor fork.head now r.included r.block shared db

  pub run-Made :
      (xs : List Bytes) (fork : Fork engine) (now : ℕ) (b : Building rpc)
      → b.extrinsics ≡ []
      → Live honest replying (hosts fork.executor) fork.head now Any created b
      → Ensures
          (λ r s. Made xs fork now r.0 s.shared s.env.db)
          (λ _. Unit {0})
          (run_builder (engine.runtime fork.executor) xs b)
  run-Made xs fork now b empty l =
      weaken-Ensures
        (run_builder-Ran honest replying (hosts fork.executor) fork.head now xs b empty l)
        (λ r s q. (
          q.0,
          record {
            timeline = q.2.1.timeline;
            same_now = q.2.1.same_now;
            head = q.2.1.head;
            cache = q.2.1.cache;
            child_of = q.2.1.child_of;
            hashed = q.2.1.hashed;
            inherents = q.1;
            filled = q.2.0;
            same_extrinsics = q.2.1.same_extrinsics;
          },
        ))
        (λ _ u. u)
