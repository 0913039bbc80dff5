-- ===== src/Fork/Tests/OfLocal.antt =====
-- The properties of the local layer at concrete inputs.
use pop_cli.Prelude.{◌<◌, ◌≡◌, refl, true, [], ◌∷◌, map, none, some, arith, contains}
use pop_cli.Bytes.{bytes_eq}
use pop_cli.Fork.Monad.{◌>>=◌, returns, Ensures}
use pop_cli.Fork.Cache.Tables.{Db}
use pop_cli.Fork.Remote.Sound.{IsCacheOf}
use pop_cli.Fork.Local.{Layer, new, set, get}
use pop_cli.Fork.Cache.History.{get_local_value_at_block}
use pop_cli.Fork.Local.Timeline.{observe, write, Refines}
use pop_cli.Fork.Local.Refine.{value_of, get-observe, set-Refines}
use pop_cli.Fork.Local.Runs.{run, run-observe}
use pop_cli.Prelude.{◌⊎◌}
use pop_cli.Fork.Result.{arithmetic}
use pop_cli.Fork.Monad.{raises}
use pop_cli.Fork.Cache.Blocks.{u32_max}
use pop_cli.Fork.Remote.Sound.{Kept}
use pop_cli.Fork.Local.{commit, delete_prefix, get_batch}
use pop_cli.Fork.Local.Timeline.{seal}
use pop_cli.Fork.Local.Commit.{commit-Refines}
use pop_cli.Fork.Local.BatchReads.{latest_view, get_batch-latest}
use pop_cli.Fork.Local.BatchHistory.{historical_view, historical_batch_view, get_batch-historical}
use pop_cli.Fork.Local.{
  merge_keys_with_cache, merge_keys_with_in_memory, is_deleted, get_local_modification,
  register_metadata_version, metadata_at,
}
use pop_cli.Fork.Local.Listing.{
  exists_value, merge_keys_with_cache_lem, merge_keys_with_in_memory_lem,
}
use pop_cli.Fork.Local.Deletion.{get_local_modification-delete_prefix, get_batch-delete_prefix}
use pop_cli.Fork.Local.Versions.{IsAscending, metadata_at-register_metadata_version}
use pop_cli.Fork.Tests.Data.{
  built_timeline, bob-IsBytes, built_layer, built_db, built_env, built-Refines, built_db-IsCacheOf,
  after_fork_11, before_11,
}
use pop_cli.Fork.Tests.Data.{
  fork_hash, alice, bob, carol, balances, test_chain, test_rpc, test_honest, warm_db, test_env,
  warm_db-IsCacheOf, warm_db-NoHistory, two_blocks, fresh, written, written_timeline,
  written-Refines,
}

-- After the two blocks `alice` is read as 80 at the first.
run-observe_example :
    Ensures
      (λ o s. (value_of o ≡ some (80 ∷ [])) × IsCacheOf test_chain s.db)
      (λ s. ⊥ × IsCacheOf test_chain s.db)
      ((run two_blocks (new test_rpc 10 fork_hash 5) >>= λ layer. get test_rpc layer 11 alice)
        test_env)
run-observe_example =
    run-observe test_honest 10 fork_hash 5 test_env two_blocks 11 alice warm_db-NoHistory
      warm_db-IsCacheOf (omega arith) (omega arith) (omega arith)

get-observe_example :
    Ensures
      (λ o s.
        (value_of o
          ≡ observe (test_chain written.first_forked_block_hash) written_timeline 11 alice)
        × IsCacheOf test_chain s.db
        × Refines written s.db written_timeline)
      (λ s. ⊥ × IsCacheOf test_chain s.db × Refines written s.db written_timeline)
      (get test_rpc written 11 alice test_env)
unfolding new set
get-observe_example =
    get-observe test_honest written test_env warm_db-IsCacheOf written_timeline written-Refines 11
      alice (omega arith) (omega arith)

set-Refines_example : Refines (set written bob none) warm_db (write written_timeline bob none)
set-Refines_example = set-Refines written warm_db written_timeline bob none written-Refines

commit-Refines_example :
    ((u32_max < 12) × (commit written test_env ≡ raises arithmetic test_env))
    ⊎ ((layer' : Layer test_rpc) × (db' : Db) × (commit written test_env
          ≡ returns layer' (record test_env { db = db' }))
        × Refines layer' db' (seal written_timeline)
        × (layer'.first_forked_block_hash ≡ written.first_forked_block_hash)
        × (layer'.first_forked_block_number ≡ written.first_forked_block_number)
        × (layer'.shared ≡ written.shared)
        × (db'.storage ≡ warm_db.storage))
commit-Refines_example = commit-Refines written test_env written_timeline written-Refines

get_batch-latest_example :
    Ensures
      (λ o s.
        (value_of o ≡ latest_view (test_chain written.first_forked_block_hash) written alice)
        × Kept test_chain warm_db s.db)
      (λ s. ⊥ × Kept test_chain warm_db s.db)
      (get test_rpc written written.current_block_number alice test_env)
    × Ensures
        (λ os s.
          (map value_of os
            ≡ map
                (latest_view (test_chain written.first_forked_block_hash) written)
                (alice ∷ carol ∷ []))
          × Kept test_chain warm_db s.db)
        (λ s. ⊥ × Kept test_chain warm_db s.db)
        (get_batch test_rpc written written.current_block_number (alice ∷ carol ∷ []) test_env)
get_batch-latest_example =
    get_batch-latest test_honest written alice (alice ∷ carol ∷ []) test_env warm_db-IsCacheOf refl

get_batch-historical_example :
    Ensures
      (λ o s.
        (value_of o
          ≡ historical_view
              (test_chain built_layer.first_forked_block_hash)
              built_layer
              built_db
              11
              alice)
        × Kept test_chain built_db s.db)
      (λ s. ⊥ × Kept test_chain built_db s.db)
      (get test_rpc built_layer 11 alice built_env)
    × Ensures
        (λ os s.
          (map value_of os
            ≡ map
                (historical_batch_view
                  (test_chain built_layer.first_forked_block_hash)
                  built_layer
                  built_db
                  11)
                (alice ∷ bob ∷ []))
          × Kept test_chain built_db s.db)
        (λ s. ⊥ × Kept test_chain built_db s.db)
        (get_batch test_rpc built_layer 11 (alice ∷ bob ∷ []) built_env)
get_batch-historical_example =
    get_batch-historical test_honest built_layer 11 after_fork_11 before_11 13 alice
      (alice ∷ bob ∷ []) built_env built-Refines.history built_db-IsCacheOf refl

merge_keys_with_cache_lem_example :
    contains (merge_keys_with_cache built_db (alice ∷ []) balances 12) bob
    ≡ (elim (get_local_value_at_block built_db bob 12) [
      | some v ↦ exists_value v
      | none ↦ contains (alice ∷ []) bob
    ])
merge_keys_with_cache_lem_example =
    merge_keys_with_cache_lem built_timeline.now built_db (alice ∷ []) balances bob 12
      built-Refines.history bob-IsBytes refl

merge_keys_with_in_memory_lem_example :
    contains (merge_keys_with_in_memory written (alice ∷ []) balances) alice
    ≡ (elim (get_local_modification written alice written.current_block_number) [
      | some found ↦ exists_value (value_of found)
      | none ↦ contains (alice ∷ []) alice
    ])
merge_keys_with_in_memory_lem_example =
    merge_keys_with_in_memory_lem written balances alice (alice ∷ []) written-Refines.unique refl
      (written-Refines.never_none alice)

get_local_modification-delete_prefix_example :
    (is_deleted (delete_prefix written balances) balances ≡ true)
    × (get_local_modification (delete_prefix written balances) alice 11 ≡ some none)
get_local_modification-delete_prefix_example =
    get_local_modification-delete_prefix written balances alice 11

get_batch-delete_prefix_example :
    (get test_rpc (delete_prefix built_layer balances) 11 alice built_env ≡ returns none built_env)
    × Ensures
        (λ os _. map value_of os ≡ test_chain built_layer.first_forked_block_hash alice ∷ [])
        (λ _. ⊥)
        (get_batch test_rpc (delete_prefix built_layer balances) 11 (alice ∷ []) built_env)
get_batch-delete_prefix_example =
    get_batch-delete_prefix test_honest built_layer balances alice 11 13 built_env after_fork_11
      before_11 refl built-Refines.history built_db-IsCacheOf

metadata_at-register_metadata_version_example :
    IsAscending (register_metadata_version fresh 12 6).metadata_versions
    × (metadata_at (register_metadata_version fresh 12 6) 15 test_env ≡ returns 6 test_env)
unfolding new
metadata_at-register_metadata_version_example =
    metadata_at-register_metadata_version fresh 12 15 6 test_env (tt, tt) (omega arith)
