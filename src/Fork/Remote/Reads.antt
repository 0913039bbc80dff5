-- ===== src/Fork/Remote/Reads.antt =====
-- `get`, `get_batch`, `get_keys` and `next_key` of crates/pop-fork/src/remote.rs.
use pop_cli.Prelude.{
  ℕ, ◌+◌, Bool, true, false, List, [], ◌∷◌, map, Option, none, some, leb, ltb, if◌then◌else◌,
  length, take, set,
}
use pop_cli.Bytes.{Bytes}
use pop_cli.Fork.Result.{Result, ok, err, index_out_of_bounds}
use pop_cli.Fork.Monad.{M, ◌>>=◌, ◌>>◌, pure, gets, lift, or_recover}
use pop_cli.Fork.Rpc.{Rpc}
use pop_cli.Fork.Cache.Tables.{Db}
use pop_cli.Fork.Cache.Storage.{
  get_storage, set_storage, get_storage_batch, get_keys_by_prefix, next_key_from_cache,
}
use pop_cli.Fork.Cache.Blocks.{PrefixScanProgress, get_prefix_scan_progress}
use pop_cli.Fork.Remote.State.{Env, call_with_reconnect, count, update_db, fetch_add}
use pop_cli.Fork.Remote.Prefetch.{
  zip_entries, store_batch, prefetch_prefix_single_page, prefetch_prefix,
}

abbrev pub default_prefetch_page_size : ℕ
default_prefetch_page_size = 1000

abbrev pub min_storage_key_prefix_len : ℕ
min_storage_key_prefix_len = 32

abbrev pub flatten : Option (Option Bytes) → Option Bytes
flatten none = none
flatten (some v) = v

-- `cached_results.iter().enumerate()`: the indices with no answer, counted from `i`.
unfoldable pub uncached_indices : ℕ → List (Option (Option Bytes)) → List ℕ
uncached_indices i [] = []
uncached_indices i (none ∷ cached) = i ∷ uncached_indices (i + 1) cached
uncached_indices i (some _ ∷ cached) = uncached_indices (i + 1) cached

-- The keys at those indices.
unfoldable pub uncached_keys : List Bytes → List (Option (Option Bytes)) → List Bytes
uncached_keys (k ∷ keys) (none ∷ cached) = k ∷ uncached_keys keys cached
uncached_keys (k ∷ keys) (some _ ∷ cached) = uncached_keys keys cached
uncached_keys keys [] = []
uncached_keys [] (c ∷ cached) = []

-- `results[idx] = fetched_values[i].clone()`
unfoldable pub fill_results :
    List (Option Bytes) → List ℕ → List (Option Bytes) → Result (List (Option Bytes))
fill_results results [] fetched = ok results
fill_results results (idx ∷ indices) [] = err index_out_of_bounds
fill_results results (idx ∷ indices) (v ∷ fetched) =
    fill_results (set results idx v) indices fetched

module _ (rpc : Rpc) where
  -- The individual fetch, cached also where the key has no value.
  unfoldable pub fetch_key : Bytes → Bytes → M (Env rpc) (Option Bytes)
  fetch_key block_hash key = do
    count rpc (λ s. record s { rpc_misses = fetch_add s.rpc_misses })
    value ← call_with_reconnect rpc (rpc.storage key block_hash)
    update_db rpc (λ db. set_storage db block_hash key value)
    pure value

  unfoldable pub found_by_prefetch : Option (Option Bytes) → M (Env rpc) (Option (Option Bytes))
  found_by_prefetch none = pure none
  found_by_prefetch (some cached) = do
    count rpc (λ s. record s { prefetch_hits = fetch_add s.prefetch_hits })
    pure (some cached)

  unfoldable pub prefetch_and_look : Bytes → Bytes → M (Env rpc) (Option (Option Bytes))
  unfolding found_by_prefetch
  prefetch_and_look block_hash key = do
    _ ←
        prefetch_prefix_single_page rpc block_hash (take min_storage_key_prefix_len key)
          default_prefetch_page_size
    cached ← gets (λ env. get_storage env.db block_hash key)
    found_by_prefetch cached

  -- A scan that has begun is no reason to prefetch again.
  unfoldable pub if_not_begun :
      Option PrefixScanProgress
      → M (Env rpc) (Option (Option Bytes))
      → M (Env rpc) (Option (Option Bytes))
  if_not_begun none m = m
  if_not_begun (some _) m = pure none

  -- The speculative prefetch for keys of at least 32 bytes; its errors are dropped.
  unfoldable pub speculate : Bytes → Bytes → M (Env rpc) (Option (Option Bytes))
  unfolding prefetch_and_look if_not_begun
  speculate block_hash key =
      if leb min_storage_key_prefix_len (length key)
      then (do
        progress ← gets (λ env.
            get_prefix_scan_progress env.db block_hash (take min_storage_key_prefix_len key))
        if_not_begun progress (or_recover (prefetch_and_look block_hash key) (pure none)))
      else pure none

  unfoldable pub or_fetch : Bytes → Bytes → Option (Option Bytes) → M (Env rpc) (Option Bytes)
  unfolding fetch_key
  or_fetch block_hash key (some value) = pure value
  or_fetch block_hash key none = fetch_key block_hash key

  unfoldable pub get_from : Option (Option Bytes) → Bytes → Bytes → M (Env rpc) (Option Bytes)
  unfolding or_fetch speculate
  get_from (some cached) block_hash key = do
    count rpc (λ s. record s { cache_hits = fetch_add s.cache_hits })
    pure cached
  get_from none block_hash key = do found ← speculate block_hash key; or_fetch block_hash key found

  unfoldable pub get : Bytes → Bytes → M (Env rpc) (Option Bytes)
  unfolding get_from
  get block_hash key = do
    cached ← gets (λ env. get_storage env.db block_hash key)
    get_from cached block_hash key

  -- The rest of `get_batch`, by the keys that the cache does not have.
  unfoldable pub fetch_rest :
      List Bytes → Bytes → List (Option (Option Bytes)) → M (Env rpc) (List (Option Bytes))
  fetch_rest [] block_hash cached = pure (map flatten cached)
  fetch_rest (k ∷ uncached) block_hash cached = do
    fetched ← call_with_reconnect rpc (rpc.storage_batch (k ∷ uncached) block_hash)
    store_batch rpc block_hash (zip_entries (k ∷ uncached) fetched)
    lift (fill_results (map flatten cached) (uncached_indices 0 cached) fetched)

  unfoldable pub get_batch : Bytes → List Bytes → M (Env rpc) (List (Option Bytes))
  unfolding fetch_rest
  get_batch block_hash [] = pure []
  get_batch block_hash (k ∷ keys) = do
    db ← gets (λ env. env.db)
    cached ← lift (get_storage_batch db block_hash (k ∷ keys))
    fetch_rest (uncached_keys (k ∷ keys) cached) block_hash cached

  unfoldable pub get_keys : ℕ → Bytes → Bytes → M (Env rpc) (List Bytes)
  get_keys fuel block_hash prefix = do
    _ ← prefetch_prefix rpc fuel block_hash prefix default_prefetch_page_size
    gets (λ env. get_keys_by_prefix env.db block_hash prefix)

  -- Is one of the candidate prefixes scanned to its end?
  abbrev pub is_scanned : Db → Bytes → Bytes → List ℕ → Bool
  is_scanned db block_hash prefix [] = false
  is_scanned db block_hash prefix (len ∷ lens) =
      let rest = is_scanned db block_hash prefix lens in
      if ltb (length prefix) len
      then rest
      else elim (get_prefix_scan_progress db block_hash (take len prefix)) [
        | none ↦ rest
        | some progress ↦ if progress.is_complete then true else rest
      ]

  abbrev pub first_of_page : List Bytes → Option Bytes
  first_of_page [] = none
  first_of_page (k ∷ _) = some k

  unfoldable pub next_key_from : Bool → Bytes → Bytes → Bytes → M (Env rpc) (Option Bytes)
  next_key_from true block_hash prefix key = do
    count rpc (λ s. record s { next_key_cache = fetch_add s.next_key_cache })
    gets (λ env. next_key_from_cache env.db block_hash prefix key)
  next_key_from false block_hash prefix key = do
    count rpc (λ s. record s { next_key_rpc = fetch_add s.next_key_rpc })
    keys ← call_with_reconnect rpc (rpc.storage_keys_paged prefix 1 (some key) block_hash)
    pure (first_of_page keys)

  unfoldable pub next_key : Bytes → Bytes → Bytes → M (Env rpc) (Option Bytes)
  unfolding next_key_from
  next_key block_hash prefix key = do
    scanned ← gets (λ env. is_scanned env.db block_hash prefix (length prefix ∷ 32 ∷ 16 ∷ []))
    next_key_from scanned block_hash prefix key
