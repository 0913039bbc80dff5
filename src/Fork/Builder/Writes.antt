-- ===== src/Fork/Builder/Writes.antt =====
-- What the storage diffs and the metadata of a runtime do to the timeline of a fork.
use pop_cli.Prelude.{ℕ, ◌≡◌, refl, List, [], ◌∷◌, Option, ◌⊎◌}
use pop_cli.Bytes.{Bytes}
use pop_cli.Fork.Result.{ok}
use pop_cli.Fork.Monad.{Ensures}
use pop_cli.Fork.Rpc.{Rpc}
use pop_cli.Fork.Cache.Tables.{Db}
use pop_cli.Fork.Remote.{Env}
use pop_cli.Fork.Remote.Sound.{SameHistory}
use pop_cli.Fork.Local.{Layer, set, set_batch, register_metadata_version}
use pop_cli.Fork.Local.Timeline.{Timeline, write, Refines}
use pop_cli.Fork.Local.Refine.{set-Refines}
use pop_cli.Fork.Builder.{RuntimeApi, Runtime}

-- The runtime ends its calls, and leaves the history of the fork to the commit; the metadata that it
-- returns can be decoded. `Fails` is what a failure lets one conclude.
pub record Keeps {rpc : Rpc} (runtime : Runtime rpc) (Fails : Type 0) : Type 0 where
  pub executes :
      (api : RuntimeApi) (arguments : Bytes) (layer : Layer rpc) (env : Env rpc)
      → Ensures
          (λ _ s. SameHistory env.db s.db)
          (λ _. Fails)
          (runtime.execute api arguments layer env)
  pub decodes :
      (output : Bytes) → Fails ⊎ ((m : rpc.Metadata) × (runtime.decode_metadata output ≡ ok m))

-- The writes of a storage diff, one after the other.
abbrev pub write_all : Timeline → List (Bytes × Option Bytes) → Timeline
write_all t [] = t
write_all t ((k, v) ∷ diff) = write_all (write t k v) diff

pub write_all-now :
    (t : Timeline) (diff : List (Bytes × Option Bytes)) → (write_all t diff).now ≡ t.now
write_all-now t [] = refl
write_all-now t ((k, v) ∷ diff) = write_all-now (write t k v) diff

pub set_batch-Refines :
    {rpc : Rpc} (layer : Layer rpc) (db : Db) (t : Timeline) (diff : List (Bytes × Option Bytes))
    → Refines layer db t
    → Refines (set_batch layer diff) db (write_all t diff)
unfolding set_batch set
set_batch-Refines layer db t [] r = r
set_batch-Refines layer db t ((k, v) ∷ diff) r =
    set_batch-Refines (set layer k v) db (write t k v) diff (set-Refines layer db t k v r)

pub register-Refines :
    {rpc : Rpc} (layer : Layer rpc) (db : Db) (t : Timeline) (n : ℕ) (m : rpc.Metadata)
    → Refines layer db t
    → Refines (register_metadata_version layer n m) db t
unfolding register_metadata_version
register-Refines layer db t n m r = record {
  same_now = r.same_now;
  after_fork = r.after_fork;
  history = r.history;
  none_deleted = r.none_deleted;
  unique = r.unique;
  written = r.written;
  never_none = r.never_none;
  recorded = r.recorded;
  committed = r.committed;
  bounded = r.bounded;
  untouched = r.untouched;
}
