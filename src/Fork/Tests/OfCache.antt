-- ===== src/Fork/Tests/OfCache.antt =====
-- The properties of the cache at concrete inputs.
use pop_cli.Prelude.{
  ℕ, ◌≡◌, refl, true, ◌&&◌, List, [], ◌∷◌, map, Option, none, some, arith, contains, ltb,
  if◌then◌else◌,
}
use pop_cli.Bytes.{Bytes, starts_with, bytes_eq}
use pop_cli.Fork.Result.{ok}
use pop_cli.Fork.Cache.Tables.{Db}
use pop_cli.Fork.Cache.Prefix.{prefix_upper_bound, in_range}
use pop_cli.Fork.Cache.Prefix.Laws.{in_range-prefix_upper_bound}
use pop_cli.Fork.Cache.Storage.{
  upsert, get_storage, set_storage, get_keys_by_prefix, next_key_from_cache,
}
use pop_cli.Fork.Cache.Storage.Scan.{
  is_some, LeastNext, get_keys_by_prefix_lem, next_key_from_cache-LeastNext,
}
use pop_cli.Fork.Cache.History.{
  get_local_value_at_block, get_local_values_at_block_batch, get_local_keys_at_block,
  get_local_deleted_keys_at_block, is_null, is_not_null,
}
use pop_cli.Fork.Cache.History.Commit.{Commits, commit_local_changes-Commits}
use pop_cli.Fork.Cache.History.Listing.{test_value, local_keys_lem}
use pop_cli.Fork.Cache.History.Batch.{get_local_values_at_block_batch_lem}
use pop_cli.Fork.Cache.Retry.{database_error, Attempt, done, failed, with_retry, busy}
use pop_cli.Fork.Cache.Retry.Laws.{EndsAt, with_retry-EndsAt}
use pop_cli.Fork.Tests.Data.{
  fork_hash, alice, bob, balances, warm_db, built_db, built-Refines, bob-IsBytes,
}

-- A prefix that ends in the last byte.
in_range-prefix_upper_bound_example :
    in_range (prefix_upper_bound (1 ∷ 255 ∷ [])) (1 ∷ 255 ∷ []) (1 ∷ 255 ∷ 7 ∷ []) ≡ true
in_range-prefix_upper_bound_example =
    in_range-prefix_upper_bound (1 ∷ 255 ∷ []) (1 ∷ 255 ∷ 7 ∷ [])
      (omega arith, (omega arith, (omega arith, tt)))

abbrev two_entries : List (Bytes × Option Bytes)
two_entries = (bob, none) ∷ (alice, some (1 ∷ [])) ∷ []

get_keys_by_prefix_lem_example :
    contains (get_keys_by_prefix warm_db fork_hash balances) alice
    ≡ (starts_with alice balances && is_some (get_storage warm_db fork_hash alice))
unfolding set_storage upsert
get_keys_by_prefix_lem_example =
    get_keys_by_prefix_lem warm_db fork_hash balances alice
      ((omega arith, (omega arith, (omega arith, tt))), tt)

next_key_from_cache-LeastNext_example :
    LeastNext warm_db fork_hash balances balances
      (next_key_from_cache warm_db fork_hash balances balances)
unfolding set_storage upsert
next_key_from_cache-LeastNext_example =
    next_key_from_cache-LeastNext warm_db fork_hash balances balances
      ((omega arith, (omega arith, (omega arith, tt))), tt) (refl, tt) (refl, tt)

-- The database is busy for the first two executions.
abbrev busy_twice : ℕ → Attempt ℕ
busy_twice n = if ltb n 2 then failed (database_error busy) else done 42

with_retry-EndsAt_example : (i : ℕ) × (s : ℕ) × EndsAt busy_twice 0 0 i s (with_retry busy_twice)
with_retry-EndsAt_example = with_retry-EndsAt busy_twice

commit_local_changes-Commits_example : (db' : Db) × Commits built_db two_entries 13 db'
commit_local_changes-Commits_example =
    commit_local_changes-Commits 13 built_db two_entries built-Refines.history

get_local_values_at_block_batch_lem_example :
    get_local_values_at_block_batch built_db (alice ∷ bob ∷ []) 11
    ≡ ok (map (λ k. get_local_value_at_block built_db k 11) (alice ∷ bob ∷ []))
get_local_values_at_block_batch_lem_example =
    get_local_values_at_block_batch_lem 11 13 built_db (alice ∷ bob ∷ []) built-Refines.history refl

local_keys_lem_example :
    (contains (get_local_keys_at_block built_db balances 12) bob ≡ (
      starts_with bob balances
      && test_value is_not_null (get_local_value_at_block built_db bob 12)))
    × (contains (get_local_deleted_keys_at_block built_db balances 12) bob ≡ (
        starts_with bob balances && test_value is_null (get_local_value_at_block built_db bob 12)))
local_keys_lem_example =
    local_keys_lem 12 13 built_db balances bob built-Refines.history bob-IsBytes
