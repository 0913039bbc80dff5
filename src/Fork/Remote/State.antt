-- ===== src/Fork/Remote/State.antt =====
-- The state of `RemoteStorageLayer` of crates/pop-fork/src/remote.rs, its counters, and a call of the
-- node with one reconnection.
use pop_cli.Prelude.{ℕ, ◌+◌, ◌%◌, ◌^◌}
use pop_cli.Fork.Monad.{Outcome, returns, raises, stuck, M, ◌>>◌, modify, or_recover}
use pop_cli.Fork.Rpc.{Rpc}
use pop_cli.Fork.Cache.Tables.{Db}

pub record StorageStats : Type 0 where
  pub cache_hits : ℕ
  pub prefetch_hits : ℕ
  pub rpc_misses : ℕ
  pub next_key_cache : ℕ
  pub next_key_rpc : ℕ

-- `reset_stats`
abbrev pub reset_stats : StorageStats
reset_stats = record {
  cache_hits = 0;
  prefetch_hits = 0;
  rpc_misses = 0;
  next_key_cache = 0;
  next_key_rpc = 0;
}

pub record Env (rpc : Rpc) : Type 0 where
  pub db : Db
  pub stats : StorageStats
  pub world : rpc.World

-- `fetch_add(1)` of an `AtomicUsize` wraps.
abbrev pub fetch_add : ℕ → ℕ
fetch_add n = (n + 1) % 2 ^ 64

module _ (rpc : Rpc) where
  abbrev with_world : {A : Type 0} → Env rpc → Outcome rpc.World A → Outcome (Env rpc) A
  with_world env (returns a w) = returns a (record env { world = w })
  with_world env (raises e w) = raises e (record env { world = w })
  with_world env stuck = stuck

  -- A call of the node.
  abbrev pub call : {A : Type 0} → M rpc.World A → M (Env rpc) A
  call reply env = with_world env (reply env.world)

  -- `match call { Ok(v) => v, Err(_) => { reconnect().await?; call? } }`
  abbrev pub call_with_reconnect : {A : Type 0} → M rpc.World A → M (Env rpc) A
  call_with_reconnect reply = or_recover (call reply) (call rpc.reconnect >> call reply)

  abbrev pub count : (StorageStats → StorageStats) → M (Env rpc) (Unit {0})
  count f = modify (λ env. record env { stats = f env.stats })

  abbrev pub set_db : Db → M (Env rpc) (Unit {0})
  set_db db = modify (λ env. record env { db = db })

  abbrev pub update_db : (Db → Db) → M (Env rpc) (Unit {0})
  update_db f = modify (λ env. record env { db = f env.db })
