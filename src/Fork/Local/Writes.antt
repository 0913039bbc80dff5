-- ===== src/Fork/Local/Writes.antt =====
-- The writes of crates/pop-fork/src/local.rs.
use pop_cli.Prelude.{
  ℕ, ◌+◌, ◌-◌, not, List, [], ◌∷◌, ◌++◌, Option, none, some, filter, ltb, nat_beq, if◌then◌else◌,
}
use pop_cli.Bytes.{Bytes, starts_with, bytes_eq}
use pop_cli.Assoc.{insert}
use pop_cli.Fork.Result.{arithmetic}
use pop_cli.Fork.Monad.{M, ◌>>=◌, ◌>>◌, pure, raise, gets, lift}
use pop_cli.Fork.Rpc.{Rpc}
use pop_cli.Fork.Cache.History.{commit_local_changes}
use pop_cli.Fork.Cache.Blocks.{u32_max}
use pop_cli.Fork.Remote.{Env, set_db}
use pop_cli.Fork.Local.State.{LocalSharedValue, Modifications, Layer, diff}

abbrev pub one_block : ℕ
one_block = 1

abbrev pub insert_value : ℕ → Bytes → Option Bytes → Modifications → Modifications
insert_value block key value =
    insert key (some (record { last_modification_block = block; value = value }))

-- The `for` loop of the batch writes.
unfoldable pub insert_values : ℕ → List (Bytes × Option Bytes) → Modifications → Modifications
insert_values block [] modifications = modifications
insert_values block ((key, value) ∷ entries) modifications =
    insert_values block entries (insert_value block key value modifications)

-- The modifications made at the given block, with their values.
unfoldable pub entries_to_commit : ℕ → Modifications → List (Bytes × Option Bytes)
entries_to_commit current [] = []
entries_to_commit current ((key, none) ∷ entries) = entries_to_commit current entries
entries_to_commit current ((key, some v) ∷ entries) =
    if nat_beq v.last_modification_block current
    then (key, v.value) ∷ entries_to_commit current entries
    else entries_to_commit current entries

module _ {rpc : Rpc} where
  abbrev pub with_modifications : Layer rpc → Modifications → Layer rpc
  with_modifications layer m = record layer { shared = record (layer.shared) { modifications = m } }

  unfoldable pub set : Layer rpc → Bytes → Option Bytes → Layer rpc
  set layer key value =
      with_modifications layer
        (insert_value layer.current_block_number key value layer.modifications)

  -- `first_forked_block_number.saturating_sub(ONE_BLOCK)`
  abbrev pub initial_visibility_block : Layer rpc → ℕ
  initial_visibility_block layer = layer.first_forked_block_number - one_block

  unfoldable pub set_initial : Layer rpc → Bytes → Option Bytes → Layer rpc
  set_initial layer key value =
      with_modifications layer
        (insert_value (initial_visibility_block layer) key value layer.modifications)

  unfoldable pub set_batch : Layer rpc → List (Bytes × Option Bytes) → Layer rpc
  unfolding insert_values
  set_batch layer entries =
      with_modifications layer
        (insert_values layer.current_block_number entries layer.modifications)

  unfoldable pub set_batch_initial : Layer rpc → List (Bytes × Option Bytes) → Layer rpc
  unfolding insert_values
  set_batch_initial layer entries =
      with_modifications layer
        (insert_values (initial_visibility_block layer) entries layer.modifications)

  unfoldable pub delete_prefix : Layer rpc → Bytes → Layer rpc
  delete_prefix layer prefix = record layer {
    shared = record (layer.shared) {
      modifications =
          filter (λ (entry : Bytes × Option LocalSharedValue). not (starts_with entry.0 prefix))
            layer.modifications;
      deleted_prefixes = layer.deleted_prefixes ++ prefix ∷ [];
    };
  }

  -- `commit`: the layer with its new block number. `checked_add` fails at the end of `u32`.
  unfoldable pub commit : Layer rpc → M (Env rpc) (Layer rpc)
  unfolding entries_to_commit diff
  commit layer =
      let current = layer.current_block_number in
      if ltb u32_max (current + one_block) then raise arithmetic else (do
        db ← gets (λ env. env.db)
        db' ← lift (commit_local_changes db (entries_to_commit current (diff layer)) current)
        set_db rpc db'
        pure (record layer {
          handle = record (layer.handle) { current_block_number = current + one_block };
        }))
