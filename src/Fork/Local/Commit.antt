-- ===== src/Fork/Local/Commit.antt =====
-- `commit` of the local layer against its contract.
use pop_cli.Prelude.{
  ℕ, ◌+◌, ◌≤◌, ◌<◌, ◌≡◌, refl, ◌∙◌, List, [], ◌∷◌, Option, none, some, arith, nat_beq, ltb, leb,
  if◌then◌else◌, Bool-cases, inl, inr, ◌⊎◌,
}
use pop_cli.Bytes.{Bytes, bytes_beq_iff, bytes_eq}
use pop_cli.Assoc.{lookup}
use pop_cli.Fork.Result.{arithmetic, ok, >>=-ok}
use pop_cli.Fork.Monad.{raises, returns}
use pop_cli.Fork.Rpc.{Rpc}
use pop_cli.Fork.Cache.Tables.{Db}
use pop_cli.Fork.Cache.Blocks.{u32_max}
use pop_cli.Fork.Cache.History.{get_local_value_at_block, commit_entry, commit_local_changes}
use pop_cli.Fork.Cache.History.Invariant.{IsHistory-mono}
use pop_cli.Fork.Cache.History.Commit.{Commits, commit_local_changes-Commits, last_entry}
use pop_cli.Fork.Remote.{Env}
use pop_cli.Fork.Local.{
  LocalSharedValue, Modifications, Layer, diff, entries_to_commit, commit, one_block,
}
use pop_cli.Fork.Local.Timeline.{Timeline, seal, IsMap, Refines}

commit_entry-storage :
    (db : Db) (k : Bytes) (v : Option Bytes) (n : ℕ) (db' : Db)
    → commit_entry db k v n ≡ ok db'
    → db'.storage ≡ db.storage
unfolding commit_entry
commit_entry-storage db k v n db' e = ground arith

-- A commit writes to the tables of the history only.
commit_local_changes-storage :
    (db : Db) (entries : List (Bytes × Option Bytes)) (n : ℕ) (db' : Db)
    → commit_local_changes db entries n ≡ ok db'
    → db'.storage ≡ db.storage
unfolding commit_local_changes
commit_local_changes-storage db [] n db' e = ground (arith, e)
commit_local_changes-storage db ((k, v) ∷ entries) n db' e =
    let (db₁, found, rest) = >>=-ok (commit_entry db k v n) _ e in
    commit_local_changes-storage db₁ entries n db' rest ∙ commit_entry-storage db k v n db₁ found

abbrev to_commit : ℕ → Option (Option LocalSharedValue) → Option (Option Bytes)
to_commit n none = none
to_commit n (some none) = none
to_commit n (some (some v)) = if nat_beq v.last_modification_block n then some v.value else none

last_entry-absent :
    (n : ℕ) (k : Bytes) (m : Modifications)
    → lookup k m ≡ none
    → last_entry k (entries_to_commit n m) ≡ none
unfolding last_entry entries_to_commit lookup
last_entry-absent n k [] h = refl
last_entry-absent n k ((j, none) ∷ m) h = ground (arith, last_entry-absent n k m)
last_entry-absent n k ((j, some v) ∷ m) h = ground (arith, last_entry-absent n k m)

-- What is committed of a key is its modification, if it was made at the block.
last_entry-entries_to_commit :
    (n : ℕ) (k : Bytes) (m : Modifications)
    → IsMap m
    → last_entry k (entries_to_commit n m) ≡ to_commit n (lookup k m)
unfolding last_entry entries_to_commit lookup
last_entry-entries_to_commit n k [] u = refl
last_entry-entries_to_commit n k ((j, none) ∷ m) u =
    ground (
      arith,
      last_entry-entries_to_commit n k m u.1,
      last_entry-absent n j m u.0,
      bytes_beq_iff j k,
    )
last_entry-entries_to_commit n k ((j, some v) ∷ m) u =
    ground (
      arith,
      last_entry-entries_to_commit n k m u.1,
      last_entry-absent n j m u.0,
      bytes_beq_iff j k,
    )

module _ {rpc : Rpc} (layer : Layer rpc) (db db' : Db) (t : Timeline) (r : Refines layer db t)
    (c : Commits db
      (entries_to_commit layer.current_block_number layer.modifications)
      layer.current_block_number
      db') where
  -- The history after the commit, key by key.
  read_after :
      (k : Bytes) (b : ℕ)
      → get_local_value_at_block db' k b ≡ (
          if leb t.now b
          then elim (to_commit t.now (lookup k layer.modifications)) [
            | some v ↦ some v
            | none ↦ get_local_value_at_block db k b
          ]
          else get_local_value_at_block db k b)
  read_after k b = ground (
    arith,
    c.reads k b,
    r.same_now,
    last_entry-entries_to_commit layer.current_block_number k layer.modifications r.unique,
  )

  next : Layer rpc
  next = record layer {
    handle = record (layer.handle) {
      current_block_number = layer.current_block_number + one_block;
    };
  }

  written_now : (k : Bytes) (b : ℕ) → t.now ≤ b → get_local_value_at_block db' k b ≡ t.writes k
  written_now k b l = go (lookup k layer.modifications) refl
    where
      go :
          (o : Option (Option LocalSharedValue))
          → lookup k layer.modifications ≡ o
          → get_local_value_at_block db' k b ≡ t.writes k
      go none e = ground (arith, read_after k b, r.untouched k b, r.written k, e)
      go (some none) e = absurd (r.never_none k e)
      go (some (some v)) e =
          ground (arith, read_after k b, r.committed k v b e, r.bounded k v e, r.written k, e)

  sealed-Refines : Refines next db' (seal t)
  unfolding next
  sealed-Refines = record {
    same_now = ground (arith, r.same_now);
    after_fork = omega (arith, r.after_fork);
    history = IsHistory-mono t.now (t.now + 1) (omega arith) (rw r.same_now at c.valid);
    none_deleted = r.none_deleted;
    unique = r.unique;
    written = r.written;
    never_none = r.never_none;
    recorded = λ b k l g. ground (arith, written_now k b, read_after k b, r.recorded b k l);
    committed = λ k v b e l g. ground (
      arith,
      read_after k b,
      written_now k b,
      r.committed k v b e,
      r.bounded k v e,
      r.written k,
      e,
    );
    bounded = λ k v e. ground (arith, r.bounded k v e);
    untouched = λ k b e. ground (arith, read_after k b, r.untouched k b e, e);
  }

-- A commit either is refused, with nothing changed, because the next block number is beyond `u32`,
-- or returns the layer at the next block: the past of the timeline has gained the block with all
-- that was written, the layer is otherwise the same, and no cached value of the chain is touched.
pub commit-Refines :
    {rpc : Rpc} (layer : Layer rpc) (env : Env rpc) (t : Timeline)
    → Refines layer env.db t
    → ((u32_max < t.now + 1) × (commit layer env ≡ raises arithmetic env))
      ⊎ ((layer' : Layer rpc) × (db' : Db) × (commit layer env
            ≡ returns layer' (record env { db = db' }))
          × Refines layer' db' (seal t)
          × (layer'.first_forked_block_hash ≡ layer.first_forked_block_hash)
          × (layer'.first_forked_block_number ≡ layer.first_forked_block_number)
          × (layer'.shared ≡ layer.shared)
          × (db'.storage ≡ env.db.storage))
unfolding commit diff next
commit-Refines layer env t r =
    elim (Bool-cases (ltb u32_max (layer.current_block_number + one_block))) [
      | inl e ↦ inl (ground (arith, r.same_now, e), rw e)
      | inr e ↦
          let n = layer.current_block_number in
          let entries = entries_to_commit n layer.modifications in
          let (db', c) =
            commit_local_changes-Commits n env.db entries (rw (r.same_now) r.history) in
          inr (
            next layer env.db db' t r c,
            db',
            rw (e, c.succeeds),
            sealed-Refines layer env.db db' t r c,
            refl,
            refl,
            refl,
            commit_local_changes-storage env.db entries n db' c.succeeds,
          )
    ]
