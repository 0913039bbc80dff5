-- ===== src/Server/Archive.antt =====
-- The `archive` methods, crates/pop-fork/src/rpc_server/methods/archive.rs, over any fork.
pub mod Diff
pub mod StorageDiff
use mathlib.Core.Option
use pop_cli.Prelude.{ℕ, Bool, List, [], ◌∷◌, ◌++◌, map, Option, none, some, if◌then◌else◌}
use pop_cli.Bytes.{Bytes, bytes_beq}
use pop_cli.Fork.Result.{Error}
use pop_cli.Fork.Monad.{Outcome, returns, raises, stuck, M}
use pop_cli.Server.Error.{RpcResult, answer, refuse, internal, storage_error}
use pop_cli.Server.Hex.{Codec, from_bytes, parse_block_hash, parse_hex_bytes}
use pop_cli.Server.Backend.{ArchiveBlockchain}
use pop_cli.Server.Items.{
  StorageQueryType, value, hash, closest_descendant_merkle_value, descendants_values,
  descendants_hashes, StorageQueryItem, StorageResultItem, value_item, hash_item, descendants,
}
use pop_cli.Server.Handler.{Handler, ◌>>=◌, reply, of_result, or_refuse}

pub data StorageDiffType : Type 0 where
  added : StorageDiffType
  modified : StorageDiffType
  deleted : StorageDiffType

pub record StorageDiffQueryItem : Type 0 where
  pub key : Bytes
  pub return_type : StorageQueryType

pub record StorageDiffItem : Type 0 where
  pub key : Bytes
  pub value : Option Bytes
  pub hash : Option Bytes
  pub diff_type : StorageDiffType

-- `Err` comes with one of two texts.
pub data ArchiveStorageDiffResult : Type 0 where
  diff_items : List StorageDiffItem → ArchiveStorageDiffResult
  block_not_found : ArchiveStorageDiffResult
  previous_block_not_found : ArchiveStorageDiffResult

pub data ArchiveStorageResult : Type 0 where
  storage_items : List StorageResultItem → ArchiveStorageResult
  storage_block_not_found : ArchiveStorageResult

pub data ArchiveCallResult : Type 0 where
  call_ok : Bytes → ArchiveCallResult
  call_err : Error → ArchiveCallResult

module _ (hex : Codec) (blake2_256 : Bytes → Bytes) where
  -- The item of a key that is now there: with its hash if that is asked for, or else its value.
  unfoldable pub present_item : StorageDiffQueryItem → StorageDiffType → Bytes → StorageDiffItem
  present_item item diff_type v = elim item.return_type [
    | hash ↦ record {
      key = item.key;
      value = none;
      hash = some (from_bytes hex (blake2_256 v));
      diff_type = diff_type;
    }
    | _ ↦ record {
      key = item.key;
      value = some (from_bytes hex v);
      hash = none;
      diff_type = diff_type;
    }
  ]

  -- `match (&current_value, &previous_value)`; no item where nothing has changed.
  unfoldable pub diff_item :
      StorageDiffQueryItem → Option Bytes → Option Bytes → List StorageDiffItem
  unfolding present_item
  diff_item item none none = []
  diff_item item (some v) none = present_item item added v ∷ []
  diff_item item none (some p) =
      record { key = item.key; value = none; hash = none; diff_type = deleted } ∷ []
  diff_item item (some v) (some p) = if bytes_beq v p then [] else present_item item modified v ∷ []

  module _ (b : ArchiveBlockchain) where
    -- The loop of `storage_diff`.
    unfoldable pub diff_all :
        ℕ → ℕ → List StorageDiffQueryItem → Handler b.World (List StorageDiffItem)
    unfolding diff_item
    diff_all n p [] = reply []
    diff_all n p (item ∷ items) = do
      bytes ← of_result (parse_hex_bytes hex item.key)
      current ← or_refuse storage_error (b.storage_at n bytes)
      previous ← or_refuse storage_error (b.storage_at p bytes)
      rest ← diff_all n p items
      reply (diff_item item current previous ++ rest)

    diff_at : ℕ → List StorageDiffQueryItem → Option ℕ → Handler b.World ArchiveStorageDiffResult
    unfolding diff_all
    diff_at n items none = reply previous_block_not_found
    diff_at n items (some p) = diff_all n p items >>= λ diff. reply (diff_items diff)

    diff_against :
        ℕ → List StorageDiffQueryItem → Option Bytes → Handler b.World ArchiveStorageDiffResult
    unfolding diff_at
    diff_against n items none = reply block_not_found
    diff_against n items (some previous) =
        or_refuse internal (b.block_number_by_hash previous) >>= diff_at n items

    -- `previous_hash`, or else the parent of the block.
    previous_of : Bytes → Option Bytes → Handler b.World (Option Bytes)
    previous_of block_hash none = or_refuse internal (b.block_parent_hash block_hash)
    previous_of block_hash (some text) =
        of_result (parse_block_hash hex text) >>= λ previous. reply (some previous)

    diff_of :
        Bytes
        → List StorageDiffQueryItem
        → Option Bytes
        → Option ℕ
        → Handler b.World ArchiveStorageDiffResult
    unfolding previous_of diff_against
    diff_of block_hash items previous_hash none = reply block_not_found
    diff_of block_hash items previous_hash (some n) =
        previous_of block_hash previous_hash >>= diff_against n items

    unfoldable pub storage_diff :
        Bytes → List StorageDiffQueryItem → Option Bytes → Handler b.World ArchiveStorageDiffResult
    unfolding diff_of
    storage_diff text items previous_hash = do
      block_hash ← of_result (parse_block_hash hex text)
      number ← or_refuse internal (b.block_number_by_hash block_hash)
      diff_of block_hash items previous_hash number

    -- An item of `archive_v1_storage`: `Value` and `Hash` fail with the read, the others do not.
    unfoldable pub query_item :
        Bytes → ℕ → Bytes → Bytes → StorageQueryType → Handler b.World (List StorageResultItem)
    unfolding value_item hash_item descendants
    query_item block_hash n key bytes value =
        or_refuse storage_error (b.storage_at n bytes) >>= λ v.
        reply (value_item hex blake2_256 b key v ∷ [])
    query_item block_hash n key bytes hash = or_refuse storage_error (b.storage_at n bytes) >>= λ v.
        reply (hash_item hex blake2_256 b key v ∷ [])
    query_item block_hash n key bytes closest_descendant_merkle_value =
        reply (record { key = key; value = none; hash = none } ∷ [])
    query_item block_hash n key bytes descendants_values =
        or_refuse storage_error
          (descendants hex blake2_256 b (value_item hex blake2_256 b) block_hash n bytes)
    query_item block_hash n key bytes descendants_hashes =
        or_refuse storage_error
          (descendants hex blake2_256 b (hash_item hex blake2_256 b) block_hash n bytes)

    -- The loop of `storage`.
    unfoldable pub query_all :
        Bytes → ℕ → List StorageQueryItem → Handler b.World (List StorageResultItem)
    unfolding query_item
    query_all block_hash n [] = reply []
    query_all block_hash n (item ∷ items) = do
      bytes ← of_result (parse_hex_bytes hex item.key)
      results ← query_item block_hash n item.key bytes item.query_type
      rest ← query_all block_hash n items
      reply (results ++ rest)

    query_at : Bytes → List StorageQueryItem → Option ℕ → Handler b.World ArchiveStorageResult
    unfolding query_all
    query_at block_hash items none = reply storage_block_not_found
    query_at block_hash items (some n) =
        query_all block_hash n items >>= λ results. reply (storage_items results)

    unfoldable pub archive_storage :
        Bytes → List StorageQueryItem → Handler b.World ArchiveStorageResult
    unfolding query_at
    archive_storage text items = do
      block_hash ← of_result (parse_block_hash hex text)
      number ← or_refuse internal (b.block_number_by_hash block_hash)
      query_at block_hash items number

    unfoldable pub hash_by_height : ℕ → Handler b.World (Option (List Bytes))
    hash_by_height height = or_refuse internal (b.block_hash_at height) >>= λ found.
        reply (Option.map (λ h. from_bytes hex h ∷ []) found)

    unfoldable pub archive_header : Bytes → Handler b.World (Option Bytes)
    archive_header text = do
      block_hash ← of_result (parse_block_hash hex text)
      found ← or_refuse internal (b.block_header block_hash)
      reply (Option.map (from_bytes hex) found)

    unfoldable pub archive_body : Bytes → Handler b.World (Option (List Bytes))
    archive_body text = do
      block_hash ← of_result (parse_block_hash hex text)
      found ← or_refuse internal (b.block_body block_hash)
      reply (Option.map (map (from_bytes hex)) found)

    -- A failed call is an answer too; no answer at an unknown block.
    call_result :
        Outcome b.World (Option Bytes) → Outcome b.World (RpcResult (Option ArchiveCallResult))
    call_result (returns none w) = returns (answer none) w
    call_result (returns (some output) w) =
        returns (answer (some (call_ok (from_bytes hex output)))) w
    call_result (raises e w) = returns (answer (some (call_err e))) w
    call_result stuck = stuck

    unfoldable pub archive_call : Bytes → Bytes → Bytes → Handler b.World (Option ArchiveCallResult)
    unfolding call_result
    archive_call text function parameters = do
      block_hash ← of_result (parse_block_hash hex text)
      bytes ← of_result (parse_hex_bytes hex parameters)
      (λ w. call_result (b.call_at_block block_hash function bytes w))
