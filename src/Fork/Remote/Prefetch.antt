-- ===== src/Fork/Remote/Prefetch.antt =====
-- `prefetch_prefix_single_page` and `prefetch_prefix` of crates/pop-fork/src/remote.rs.
use pop_cli.Prelude.{
  ℕ, zero, suc, Bool, true, false, List, [], ◌∷◌, Option, none, some, ltb, if◌then◌else◌, length,
}
use pop_cli.Bytes.{Bytes}
use pop_cli.Fork.Monad.{stuck, M, ◌>>=◌, ◌>>◌, pure, gets, lift}
use pop_cli.Fork.Rpc.{Rpc}
use pop_cli.Fork.Cache.Storage.{set_storage_batch, count_keys_by_prefix}
use pop_cli.Fork.Cache.Blocks.{PrefixScanProgress, get_prefix_scan_progress, update_prefix_scan}
use pop_cli.Fork.Remote.State.{Env, call_with_reconnect, set_db, update_db}

-- `key_refs.iter().zip(values.iter())`
abbrev pub zip_entries : List Bytes → List (Option Bytes) → List (Bytes × Option Bytes)
zip_entries (k ∷ ks) (v ∷ vs) = (k, v) ∷ zip_entries ks vs
zip_entries [] vs = []
zip_entries (k ∷ ks) [] = []

-- `keys.into_iter().last()`
abbrev pub last_key : List Bytes → Option Bytes
last_key [] = none
last_key (k ∷ []) = some k
last_key (k ∷ j ∷ ks) = last_key (j ∷ ks)

module _ (rpc : Rpc) where
  -- `self.cache.set_storage_batch(…).await?`
  abbrev pub store_batch : Bytes → List (Bytes × Option Bytes) → M (Env rpc) (Unit {0})
  store_batch block_hash entries = do
    db ← gets (λ env. env.db)
    db' ← lift (set_storage_batch db block_hash entries)
    set_db rpc db'

  -- The progress that is recorded after a page.
  abbrev pub record_progress : Bytes → Bytes → Option Bytes → Bool → M (Env rpc) (Unit {0})
  record_progress block_hash prefix none is_last_page = pure tt
  record_progress block_hash prefix (some key) is_last_page =
      update_db rpc (λ db. update_prefix_scan db block_hash prefix key is_last_page)

  -- The values of a page of keys are fetched and cached, and the progress recorded.
  unfoldable pub store_page : Bytes → Bytes → List Bytes → Bool → M (Env rpc) (Unit {0})
  store_page block_hash prefix keys is_last_page = do
    values ← call_with_reconnect rpc (rpc.storage_batch keys block_hash)
    store_batch block_hash (zip_entries keys values)
    record_progress block_hash prefix (last_key keys) is_last_page

  unfoldable pub first_page : Bytes → Bytes → ℕ → List Bytes → M (Env rpc) ℕ
  unfolding store_page
  first_page block_hash prefix page_size [] = do
    update_db rpc (λ db. update_prefix_scan db block_hash prefix prefix true)
    pure 0
  first_page block_hash prefix page_size (k ∷ ks) = do
    store_page block_hash prefix (k ∷ ks) (ltb (length (k ∷ ks)) page_size)
    pure (length (k ∷ ks))

  -- A scan that is complete answers with its count; one that has begun is left alone.
  unfoldable pub single_page : Option PrefixScanProgress → Bytes → Bytes → ℕ → M (Env rpc) ℕ
  unfolding first_page
  single_page (some progress) block_hash prefix page_size =
      if progress.is_complete
      then gets (λ env. count_keys_by_prefix env.db block_hash prefix)
      else pure 0
  single_page none block_hash prefix page_size = do
    keys ← call_with_reconnect rpc (rpc.storage_keys_paged prefix page_size none block_hash)
    first_page block_hash prefix page_size keys

  unfoldable pub prefetch_prefix_single_page : Bytes → Bytes → ℕ → M (Env rpc) ℕ
  unfolding single_page
  prefetch_prefix_single_page block_hash prefix page_size = do
    progress ← gets (λ env. get_prefix_scan_progress env.db block_hash prefix)
    single_page progress block_hash prefix page_size

  -- What the loop does with a page; `again` is the next round, from the last key of this one.
  unfoldable pub next_page :
      Bytes
      → Bytes
      → ℕ
      → Option Bytes
      → List Bytes
      → (Option Bytes → M (Env rpc) (Unit {0}))
      → M (Env rpc) (Unit {0})
  unfolding store_page
  next_page block_hash prefix page_size none [] again =
      update_db rpc (λ db. update_prefix_scan db block_hash prefix prefix true)
  next_page block_hash prefix page_size (some start_key) [] again = pure tt
  next_page block_hash prefix page_size start_key (k ∷ ks) again = do
    let is_last_page = ltb (length (k ∷ ks)) page_size
    store_page block_hash prefix (k ∷ ks) is_last_page
    (if is_last_page then pure tt else again (last_key (k ∷ ks)))

  -- The loop of `prefetch_prefix`, on fuel.
  unfoldable pub page_loop : ℕ → Bytes → Bytes → ℕ → Option Bytes → M (Env rpc) (Unit {0})
  unfolding next_page
  page_loop zero block_hash prefix page_size start_key env = stuck
  page_loop (suc fuel) block_hash prefix page_size start_key env =
      (call_with_reconnect rpc (rpc.storage_keys_paged prefix page_size start_key block_hash)
          >>= λ keys.
              next_page block_hash prefix page_size start_key keys
                (page_loop fuel block_hash prefix page_size))
        env

  abbrev pub resume_key : Option PrefixScanProgress → Option Bytes
  resume_key none = none
  resume_key (some progress) = progress.last_scanned_key

  abbrev pub is_done : Option PrefixScanProgress → Bool
  is_done none = false
  is_done (some progress) = progress.is_complete

  unfoldable pub prefetch_prefix : ℕ → Bytes → Bytes → ℕ → M (Env rpc) ℕ
  unfolding page_loop
  prefetch_prefix fuel block_hash prefix page_size = do
    progress ← gets (λ env. get_prefix_scan_progress env.db block_hash prefix)
    (if is_done progress
        then pure tt
        else page_loop fuel block_hash prefix page_size (resume_key progress))
    gets (λ env. count_keys_by_prefix env.db block_hash prefix)
