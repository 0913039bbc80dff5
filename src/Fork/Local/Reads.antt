-- ===== src/Fork/Local/Reads.antt =====
-- The reads of crates/pop-fork/src/local.rs: `get`, `get_batch`, `get_block` and `metadata_at`.
use pop_cli.Prelude.{
  ℕ, ◌+◌, Bool, ◌&&◌, List, [], ◌∷◌, map, Option, none, some, ltb, nat_beq, if◌then◌else◌,
}
use pop_cli.Prelude.{set as set_elem}
use pop_cli.Bytes.{Bytes}
use pop_cli.Fork.Result.{Result, ok, err, index_out_of_bounds}
use pop_cli.Fork.Monad.{M, ◌>>=◌, pure, raise, gets, lift}
use pop_cli.Fork.Rpc.{Rpc}
use pop_cli.Fork.Cache.Tables.{BlockRow}
use pop_cli.Fork.Cache.Blocks.{get_block_by_number}
use pop_cli.Fork.Cache.History.{get_local_value_at_block, get_local_values_at_block_batch}
use pop_cli.Fork.Remote.{Env, call, fetch_and_cache_block_by_number}
use pop_cli.Fork.Remote
use pop_cli.Fork.Local.State.{LocalSharedValue, Layer, get_local_modification}

-- A value from the remote layer or the cache: its block of modification is of no interest.
abbrev pub foreign : Option Bytes → LocalSharedValue
foreign value = record { last_modification_block = 0; value = value }

-- `.map(|value| LocalSharedValue { …, value: Some(value) })`
abbrev pub of_remote : Option Bytes → Option LocalSharedValue
of_remote none = none
of_remote (some v) = some (foreign (some v))

-- `first_forked_block_number < n && n < latest_block_number`
abbrev pub is_historical : ℕ → ℕ → ℕ → Bool
is_historical first latest n = ltb first n && ltb n latest

-- The keys that have no local modification, with their indices.
unfoldable pub non_local :
    ℕ → List Bytes → List (Option (Option LocalSharedValue)) → List (ℕ × Bytes)
non_local i [] found = []
non_local i (k ∷ keys) [] = []
non_local i (k ∷ keys) (some _ ∷ found) = non_local (i + 1) keys found
non_local i (k ∷ keys) (none ∷ found) = (i, k) ∷ non_local (i + 1) keys found

-- `results[non_local_indices[i]] = value` for each value.
unfoldable pub scatter :
    List (Option LocalSharedValue)
    → List ℕ
    → List (Option LocalSharedValue)
    → Result (List (Option LocalSharedValue))
scatter results indices [] = ok results
scatter results [] (v ∷ vs) = err index_out_of_bounds
scatter results (i ∷ indices) (v ∷ vs) = scatter (set_elem results i v) indices vs

abbrev pub pushed : Option (Option LocalSharedValue) → Option LocalSharedValue
pushed none = none
pushed (some found) = found

-- A row of the cache: `Some(None)` is a recorded deletion.
abbrev pub of_cache : Option (Option Bytes) → Option LocalSharedValue
of_cache none = none
of_cache (some value) = some (foreign value)

abbrev pub indices_of : List (ℕ × Bytes) → List ℕ
indices_of = map (λ entry. entry.0)

abbrev pub keys_of : List (ℕ × Bytes) → List Bytes
keys_of = map (λ entry. entry.1)

module _ (rpc : Rpc) where
  unfoldable pub cached_or_fetched : ℕ → Option BlockRow → M (Env rpc) (Option BlockRow)
  cached_or_fetched block_number (some row) = pure (some row)
  cached_or_fetched block_number none = fetch_and_cache_block_by_number rpc block_number

  unfoldable pub get_block : ℕ → M (Env rpc) (Option BlockRow)
  unfolding cached_or_fetched
  get_block block_number = do
    db ← gets (λ env. env.db)
    cached ← lift (get_block_by_number db block_number)
    cached_or_fetched block_number cached

  -- Case 1: the state of the fork point.
  unfoldable pub get_base : Layer rpc → Bytes → M (Env rpc) (Option LocalSharedValue)
  get_base layer key = do
    value ← Remote.get rpc layer.first_forked_block_hash key
    pure (of_remote value)

  -- Case 2: the history, or else the state of the fork point.
  unfoldable pub get_historical :
      Layer rpc → Bytes → Option (Option Bytes) → M (Env rpc) (Option LocalSharedValue)
  unfolding get_base
  get_historical layer key (some value) = pure (some (foreign value))
  get_historical layer key none = get_base layer key

  -- Case 3: a block at or before the fork point.
  unfoldable pub get_before : Bytes → Option BlockRow → M (Env rpc) (Option LocalSharedValue)
  get_before key none = pure none
  get_before key (some row) = do value ← Remote.get rpc row.hash key; pure (of_remote value)

  unfoldable pub get_unmodified : Layer rpc → ℕ → Bytes → M (Env rpc) (Option LocalSharedValue)
  unfolding get_base get_historical get_before get_block
  get_unmodified layer block_number key =
      if nat_beq block_number layer.current_block_number
      then get_base layer key
      else if is_historical layer.first_forked_block_number layer.current_block_number block_number
      then (do
        value ← gets (λ env. get_local_value_at_block env.db key block_number)
        get_historical layer key value)
      else (do block ← get_block block_number; get_before key block)

  unfoldable pub get_with :
      Option (Option LocalSharedValue)
      → Layer rpc
      → ℕ
      → Bytes
      → M (Env rpc) (Option LocalSharedValue)
  unfolding get_unmodified
  get_with (some found) layer block_number key = pure found
  get_with none layer block_number key = get_unmodified layer block_number key

  unfoldable pub get : Layer rpc → ℕ → Bytes → M (Env rpc) (Option LocalSharedValue)
  unfolding get_with
  get layer block_number key =
      get_with (get_local_modification layer key block_number) layer block_number key

  -- Case 1 of `get_batch`.
  unfoldable pub batch_latest :
      Layer rpc
      → List (Option LocalSharedValue)
      → List (ℕ × Bytes)
      → M (Env rpc) (List (Option LocalSharedValue))
  batch_latest layer results [] = pure results
  batch_latest layer results (entry ∷ entries) = do
    values ← Remote.get_batch rpc layer.first_forked_block_hash (keys_of (entry ∷ entries))
    lift (scatter results (indices_of (entry ∷ entries)) (map of_remote values))

  -- The loop that asks the state of the fork point for what is not found.
  unfoldable pub complete_with_base :
      Layer rpc
      → List Bytes
      → List (Option LocalSharedValue)
      → M (Env rpc) (List (Option LocalSharedValue))
  unfolding get_base
  complete_with_base layer keys [] = pure []
  complete_with_base layer [] (value ∷ values) = raise index_out_of_bounds
  complete_with_base layer (k ∷ keys) (some v ∷ values) = do
    rest ← complete_with_base layer keys values
    pure (some v ∷ rest)
  complete_with_base layer (k ∷ keys) (none ∷ values) = do
    value ← get_base layer k
    rest ← complete_with_base layer keys values
    pure (value ∷ rest)

  unfoldable pub from_history :
      ℕ
      → List (Option LocalSharedValue)
      → List (ℕ × Bytes)
      → M (Env rpc) (List (Option LocalSharedValue))
  from_history block_number results [] = pure results
  from_history block_number results (entry ∷ entries) = do
    db ← gets (λ env. env.db)
    values ← lift (get_local_values_at_block_batch db (keys_of (entry ∷ entries)) block_number)
    lift (scatter results (indices_of (entry ∷ entries)) (map of_cache values))

  -- Case 2 of `get_batch`.
  unfoldable pub batch_historical :
      Layer rpc
      → ℕ
      → List Bytes
      → List (Option LocalSharedValue)
      → List (ℕ × Bytes)
      → M (Env rpc) (List (Option LocalSharedValue))
  unfolding from_history complete_with_base
  batch_historical layer block_number keys results entries = do
    found ← from_history block_number results entries
    complete_with_base layer keys found

  -- Case 3 of `get_batch`.
  unfoldable pub batch_before :
      List Bytes → Option BlockRow → M (Env rpc) (List (Option LocalSharedValue))
  batch_before keys none = pure (map (λ _. none) keys)
  batch_before keys (some row) = do
    values ← Remote.get_batch rpc row.hash keys
    pure (map of_remote values)

  unfoldable pub get_batch :
      Layer rpc → ℕ → List Bytes → M (Env rpc) (List (Option LocalSharedValue))
  unfolding batch_latest batch_historical batch_before get_block non_local
  get_batch layer block_number [] = pure []
  get_batch layer block_number (first_key ∷ other_keys) =
      let keys = first_key ∷ other_keys in
      let found = map (λ key. get_local_modification layer key block_number) keys in
      let results = map pushed found in
      let entries = non_local 0 keys found in
      if nat_beq block_number layer.current_block_number
      then batch_latest layer results entries
      else if is_historical layer.first_forked_block_number layer.current_block_number block_number
      then batch_historical layer block_number keys results entries
      else (do block ← get_block block_number; batch_before keys block)
