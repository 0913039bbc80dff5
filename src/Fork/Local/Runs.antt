-- ===== src/Fork/Local/Runs.antt =====
-- Sequences of writes and commits on a fresh fork, and what can be read after them.
use pop_cli.Prelude.{
  ℕ, ◌+◌, ◌≤◌, ◌<◌, ◌≡◌, refl, ◌∙◌, ap, List, [], ◌∷◌, Option, none, arith, inl, inr,
}
use pop_cli.Bytes.{Bytes}
use pop_cli.Assoc.{lookup}
use pop_cli.Fork.Monad.{M, ◌>>=◌, pure, returns, Ensures, weaken-Ensures}
use pop_cli.Fork.Rpc.{Rpc, IsHonest}
use pop_cli.Fork.Cache.Tables.{Db}
use pop_cli.Fork.Cache.Blocks.{u32_max}
use pop_cli.Fork.Cache.Storage.{get_storage}
use pop_cli.Fork.Cache.History.{get_local_value_at_block}
use pop_cli.Fork.Remote.{Env}
use pop_cli.Fork.Remote.Sound.{IsCacheOf}
use pop_cli.Fork.Local.{Layer, new, set, commit, get}
use pop_cli.Fork.Local.Timeline.{Timeline, write, seal, observe, Refines}
use pop_cli.Fork.Local.Refine.{value_of, set-Refines, get-observe}
use pop_cli.Fork.Local.Commit.{commit-Refines}

-- The calls of a client that builds blocks.
pub data Call : Type 0 where
  put : Bytes → Option Bytes → Call
  end_block : Call

unfoldable pub perform : {rpc : Rpc} → Call → Layer rpc → M (Env rpc) (Layer rpc)
perform (put k v) layer = pure (set layer k v)
perform end_block layer = commit layer

unfoldable pub run : {rpc : Rpc} → List Call → Layer rpc → M (Env rpc) (Layer rpc)
unfolding perform
run [] layer = pure layer
run (call ∷ calls) layer = perform call layer >>= run calls

-- The same calls on a timeline.
abbrev pub perform_on : Call → Timeline → Timeline
perform_on (put k v) t = write t k v
perform_on end_block t = seal t

abbrev pub run_on : List Call → Timeline → Timeline
run_on [] t = t
run_on (call ∷ calls) t = run_on calls (perform_on call t)

-- How many blocks are committed.
abbrev pub blocks_in : List Call → ℕ
blocks_in [] = 0
blocks_in (put _ _ ∷ calls) = blocks_in calls
blocks_in (end_block ∷ calls) = blocks_in calls + 1

-- Nothing written, and the first block after the fork point under construction.
abbrev pub start : ℕ → Timeline
start first = record { now = first + 1; writes = λ _. none; past = λ _ _. none }

-- A database with no history of a fork: a fresh one, or one that was cleared.
pub record NoHistory (db : Db) : Type 0 where
  pub no_keys : db.local_keys ≡ []
  pub no_values : db.local_values ≡ []

-- Over a database with no history, a new layer meets the contract with nothing written.
pub new-Refines :
    (rpc : Rpc) (first : ℕ) (hash : Bytes) (metadata : rpc.Metadata) (db : Db)
    → NoHistory db
    → Refines (new rpc first hash metadata) db (start first)
unfolding new lookup get_local_value_at_block
new-Refines rpc first hash metadata db n = record {
  same_now = refl;
  after_fork = omega arith;
  history = record {
    indexed = rw n.no_keys tt;
    owned = rw n.no_values tt;
    closed = rw n.no_values tt;
    single = λ id b. rw n.no_values (omega arith);
  };
  none_deleted = refl;
  unique = tt;
  written = λ k. refl;
  never_none = λ k e. cc;
  recorded = λ b k l g. rw n.no_keys;
  committed = λ k v b e l g. absurd (ground arith);
  bounded = λ k v e. absurd (ground arith);
  untouched = λ k b e. rw n.no_keys;
}

set-hash :
    {rpc : Rpc} (layer : Layer rpc) (k : Bytes) (v : Option Bytes)
    → (set layer k v).first_forked_block_hash ≡ layer.first_forked_block_hash
unfolding set
set-hash layer k v = refl

set-first :
    {rpc : Rpc} (layer : Layer rpc) (k : Bytes) (v : Option Bytes)
    → (set layer k v).first_forked_block_number ≡ layer.first_forked_block_number
unfolding set
set-first layer k v = refl

-- A run from a layer that meets the contract.
pub record Runs {rpc : Rpc} (calls : List Call) (layer : Layer rpc) (env : Env rpc) (t : Timeline)
    (layer' : Layer rpc) (db' : Db) : Type 0 where
  pub ends : run calls layer env ≡ returns layer' (record env { db = db' })
  pub refines : Refines layer' db' (run_on calls t)
  pub same_hash : layer'.first_forked_block_hash ≡ layer.first_forked_block_hash
  pub same_first : layer'.first_forked_block_number ≡ layer.first_forked_block_number
  pub same_storage : db'.storage ≡ env.db.storage

pub run-Runs :
    {rpc : Rpc} (calls : List Call) (layer : Layer rpc) (env : Env rpc) (t : Timeline)
    → t.now + blocks_in calls ≤ u32_max
    → Refines layer env.db t
    → (layer' : Layer rpc) × (db' : Db) × Runs calls layer env t layer' db'
unfolding run
run-Runs [] layer env t l r = (
  layer,
  env.db,
  record { ends = refl; refines = r; same_hash = refl; same_first = refl; same_storage = refl },
)
run-Runs (put k v ∷ calls) layer env t l r =
    let (layer', db', i) =
      run-Runs calls (set layer k v) env (write t k v) l (set-Refines layer env.db t k v r) in
    (
      layer',
      db',
      record {
        ends = i.ends;
        refines = i.refines;
        same_hash = i.same_hash ∙ set-hash layer k v;
        same_first = i.same_first ∙ set-first layer k v;
        same_storage = i.same_storage;
      },
    )
run-Runs (end_block ∷ calls) layer env t l r = elim (commit-Refines layer env t r) [
  | inl (over, _) ↦ absurd (omega (arith, over))
  | inr (layer₁, db₁, e, r₁, h, f, _, s) ↦
      let (layer', db', i) =
        run-Runs calls layer₁ (record env { db = db₁ }) (seal t) (omega arith) r₁ in
      (
        layer',
        db',
        record {
          ends = rw e i.ends;
          refines = i.refines;
          same_hash = i.same_hash ∙ h;
          same_first = i.same_first ∙ f;
          same_storage = i.same_storage ∙ s;
        },
      )
]

pub IsCacheOf-storage :
    (chain : Bytes → Bytes → Option Bytes) (db db' : Db)
    → db'.storage ≡ db.storage
    → IsCacheOf chain db
    → IsCacheOf chain db'
unfolding get_storage
IsCacheOf-storage chain db db' e c = record {
  keyed = rw e c.keyed;
  agrees = λ h k v g. c.agrees h k v (rw e at g);
}

-- Time travel on a fork. On a database with no history, over a node that is honest, any calls that
-- stay within `u32` block numbers succeed, and then a read at any block `b` after the fork point, up
-- to the one being built, ends with what the same calls on a timeline show at `b`: the last value
-- written by the end of block `b` (none if that was a deletion), or else the value in the state of
-- the fork point. The read fails only if the node lets it.
pub run-observe :
    {rpc : Rpc} {chain : Bytes → Bytes → Option Bytes} {Fails : Type 0}
    (honest : IsHonest rpc chain Fails) (first : ℕ) (hash : Bytes) (metadata : rpc.Metadata)
    (env : Env rpc) (calls : List Call) (b : ℕ) (k : Bytes)
    → NoHistory env.db
    → IsCacheOf chain env.db
    → first + 1 + blocks_in calls ≤ u32_max
    → first < b
    → b ≤ (run_on calls (start first)).now
    → Ensures
        (λ o s.
          (value_of o ≡ observe (chain hash) (run_on calls (start first)) b k)
          × IsCacheOf chain s.db)
        (λ s. Fails × IsCacheOf chain s.db)
        ((run calls (new rpc first hash metadata) >>= λ layer. get rpc layer b k) env)
unfolding new
run-observe {rpc} {chain} honest first hash metadata env calls b k n c l f g =
    let layer : Layer rpc = new rpc first hash metadata in
    let (layer', db', r) =
      run-Runs calls layer env (start first) l (new-Refines rpc first hash metadata env.db n) in
    let t = run_on calls (start first) in
    let after_run : Env rpc = record env { db = db' } in
    rw r.ends (
      weaken-Ensures
        (get-observe honest layer' after_run (IsCacheOf-storage chain env.db db' r.same_storage c) t
          r.refines b k (rw r.same_first f) g)
        (λ o s q. (q.0 ∙ ap (λ h. observe (chain h) t b k) r.same_hash, q.1)) (λ s q. (q.0, q.1)))
