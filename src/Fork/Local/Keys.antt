-- ===== src/Fork/Local/Keys.antt =====
-- The enumerations of keys of crates/pop-fork/src/local.rs, and the versions of the metadata.
use pop_cli.Prelude.{
  ℕ, zero, suc, Bool, true, false, not, ◌&&◌, List, [], ◌∷◌, Option, none, some, filter, contains,
  leb, ltb, nat_beq, if◌then◌else◌,
}
use pop_cli.Bytes.{Bytes, starts_with, bytes_eq}
use pop_cli.Assoc.{lookup, set_extend}
use pop_cli.Fork.Result.{Result, ok, err, metadata_not_found}
use pop_cli.Fork.Monad.{stuck, M, ◌>>=◌, pure, raise, gets, lift}
use pop_cli.Fork.Rpc.{Rpc}
use pop_cli.Fork.Cache.Tables.{Db}
use pop_cli.Fork.Cache.History.{get_local_keys_at_block, get_local_deleted_keys_at_block}
use pop_cli.Fork.Remote.{Env, call}
use pop_cli.Fork.Remote
use pop_cli.Fork.Local.State.{LocalSharedValue, Modifications, Layer, has_deleted_prefix}

-- `modifications.get(key).and_then(|sv| sv.as_ref()).is_some_and(|sv| sv.value.is_none())`
abbrev pub is_deletion : Option (Option LocalSharedValue) → Bool
is_deletion none = false
is_deletion (some none) = false
is_deletion (some (some v)) = elim v.value [ none ↦ true | some _ ↦ false ]

-- `maybe_sv.as_ref().is_some_and(|sv| sv.value.is_some())`
abbrev pub has_live_value : Option LocalSharedValue → Bool
has_live_value none = false
has_live_value (some v) = elim v.value [ none ↦ false | some _ ↦ true ]

-- The keys with the prefix that the map gives a value.
unfoldable pub live_keys : Bytes → Modifications → List Bytes
live_keys prefix [] = []
live_keys prefix ((key, entry) ∷ entries) =
    if starts_with key prefix && has_live_value entry
    then key ∷ live_keys prefix entries
    else live_keys prefix entries

module _ {rpc : Rpc} where
  unfoldable pub merge_keys_with_in_memory : Layer rpc → List Bytes → Bytes → List Bytes
  unfolding live_keys
  merge_keys_with_in_memory layer remote_keys prefix =
      set_extend
        (set_extend [] (
          filter
            (λ k.
              not (has_deleted_prefix layer.deleted_prefixes k)
              && not (is_deletion (lookup k layer.modifications)))
            remote_keys))
        (live_keys prefix layer.modifications)

unfoldable pub merge_keys_with_cache : Db → List Bytes → Bytes → ℕ → List Bytes
merge_keys_with_cache db remote_keys prefix block_number =
    let deleted = get_local_deleted_keys_at_block db prefix block_number in
    set_extend (set_extend [] (filter (λ k. not (contains deleted k)) remote_keys))
      (get_local_keys_at_block db prefix block_number)

module _ (rpc : Rpc) where
  -- Fuel is for the pages of the remote layer.
  unfoldable pub keys_by_prefix : ℕ → Layer rpc → Bytes → ℕ → M (Env rpc) (List Bytes)
  keys_by_prefix fuel layer prefix block_number = do
    remote_keys ← Remote.get_keys rpc fuel layer.first_forked_block_hash prefix
    (if leb layer.current_block_number block_number
        then pure (merge_keys_with_in_memory layer remote_keys prefix)
        else gets (λ env. merge_keys_with_cache env.db remote_keys prefix block_number))

  skip_deleted :
      List Bytes → (Bytes → M (Env rpc) (Option Bytes)) → Option Bytes → M (Env rpc) (Option Bytes)
  skip_deleted deleted again none = pure none
  skip_deleted deleted again (some next) =
      if has_deleted_prefix deleted next then again next else pure (some next)

  -- The loop of `next_key`, on fuel.
  unfoldable pub next_key_loop : ℕ → Layer rpc → Bytes → Bytes → M (Env rpc) (Option Bytes)
  unfolding skip_deleted
  next_key_loop zero layer prefix current env = stuck
  next_key_loop (suc fuel) layer prefix current env =
      (Remote.next_key rpc layer.first_forked_block_hash prefix current
          >>= skip_deleted layer.deleted_prefixes (next_key_loop fuel layer prefix))
        env

  unfoldable pub next_key : ℕ → Layer rpc → Bytes → Bytes → M (Env rpc) (Option Bytes)
  unfolding next_key_loop
  next_key fuel layer prefix key = next_key_loop fuel layer prefix key

  -- `fetch_remote_metadata`
  unfoldable pub fetch_remote_metadata : ℕ → M (Env rpc) rpc.Metadata
  fetch_remote_metadata block_number = do
    found ← call rpc (rpc.block_hash_at block_number)
    fetch found
    where
      fetch : Option Bytes → M (Env rpc) rpc.Metadata
      fetch none = raise metadata_not_found
      fetch (some hash) = call rpc (rpc.metadata hash)

module _ {V : Type 0} where
  -- `BTreeMap::insert` on block numbers: the list is in ascending order.
  unfoldable pub insert_version : ℕ → V → List (ℕ × V) → List (ℕ × V)
  insert_version n v [] = (n, v) ∷ []
  insert_version n v ((m, w) ∷ versions) =
      if nat_beq n m
      then (n, v) ∷ versions
      else if ltb n m
      then (n, v) ∷ (m, w) ∷ versions
      else (m, w) ∷ insert_version n v versions

  -- `versions.range(..=n).next_back()`: the last version at or below `n`.
  unfoldable pub version_at : ℕ → List (ℕ × V) → Option V
  version_at n [] = none
  version_at n ((m, v) ∷ versions) =
      if leb m n then elim (version_at n versions) [ none ↦ some v | some w ↦ some w ] else none

-- `.ok_or_else(|| LocalStorageError::MetadataNotFound(…))`
unfoldable pub or_not_found {ℓ} : {A : Type ℓ} → Option A → Result A
or_not_found none = err metadata_not_found
or_not_found (some m) = ok m

module _ {rpc : Rpc} where
  unfoldable pub register_metadata_version : Layer rpc → ℕ → rpc.Metadata → Layer rpc
  unfolding insert_version
  register_metadata_version layer block_number metadata = record layer {
    shared = record (layer.shared) {
      metadata_versions = insert_version block_number metadata layer.metadata_versions;
    };
  }

  unfoldable pub metadata_at : Layer rpc → ℕ → M (Env rpc) rpc.Metadata
  unfolding or_not_found version_at fetch_remote_metadata
  metadata_at layer block_number =
      if ltb block_number layer.first_forked_block_number
      then fetch_remote_metadata rpc block_number
      else lift (or_not_found (version_at block_number layer.metadata_versions))
