-- ===== src/Fork/Cache/Storage.antt =====
-- The `storage` table: `get_storage`, `set_storage`, their batch versions and the queries by prefix
-- of crates/pop-fork/src/cache.rs.
pub mod Laws
pub mod Batch
pub mod Scan
use mathlib.Core.Option
use pop_cli.Prelude.{
  ℕ, ◌≡◌, Bool, true, false, not, ◌&&◌, List, [], ◌∷◌, map, Option, none, some, if◌then◌else◌,
  filter, find?, length, contains, has_duplicates,
}
use pop_cli.Bytes.{Bytes, bytes_beq, bytes_eq, lt_bytes}
use pop_cli.Assoc.{lookup, insert, remove}
use pop_cli.Fork.Result.{Error, Result, ok, err, duplicated_keys}
use pop_cli.Fork.Cache.Tables.{StorageRow, Db}
use pop_cli.Fork.Cache.Prefix.{increment_prefix, in_range}

abbrev pub is_none : Option Bytes → Bool
is_none none = true
is_none (some _) = false

-- The row of the primary key (block_hash, key).
abbrev pub is_row : Bytes → Bytes → StorageRow → Bool
is_row block_hash key row = bytes_beq row.block_hash block_hash && bytes_beq row.key key

-- `if empty { None } else { value }`
abbrev pub row_value : StorageRow → Option Bytes
row_value row = if row.is_empty then none else row.value

-- `some none` is a key that is cached as empty, `none` one that is not cached.
unfoldable pub get_storage : Db → Bytes → Bytes → Option (Option Bytes)
get_storage db block_hash key = Option.map row_value (find? (is_row block_hash key) db.storage)

-- `NewStorageRow`
abbrev pub new_row : Bytes → Bytes → Option Bytes → StorageRow
new_row block_hash key value = record {
  block_hash = block_hash;
  key = key;
  value = value;
  is_empty = is_none value;
}

-- INSERT … ON CONFLICT (block_hash, key) DO UPDATE SET value, is_empty
unfoldable pub upsert : StorageRow → List StorageRow → List StorageRow
upsert new [] = new ∷ []
upsert new (row ∷ rows) =
    if is_row new.block_hash new.key row
    then record row { value = new.value; is_empty = new.is_empty } ∷ rows
    else row ∷ upsert new rows

unfoldable pub set_storage : Db → Bytes → Bytes → Option Bytes → Db
set_storage db block_hash key value = record db {
  storage = upsert (new_row block_hash key value) db.storage;
}

-- The loop that fills `cache_map`.
unfoldable pub fill_map :
    List StorageRow → List (Bytes × Option Bytes) → List (Bytes × Option Bytes)
fill_map [] cache_map = cache_map
fill_map (row ∷ rows) cache_map = fill_map rows (insert row.key (row_value row) cache_map)

-- `keys.iter().map(|key| cache_map.remove(*key)).collect()`
unfoldable pub drain_map : List Bytes → List (Bytes × Option Bytes) → List (Option (Option Bytes))
drain_map [] cache_map = []
drain_map (key ∷ keys) cache_map = lookup key cache_map ∷ drain_map keys (remove key cache_map)

unfoldable pub get_storage_batch : Db → Bytes → List Bytes → Result (List (Option (Option Bytes)))
get_storage_batch db block_hash [] = ok []
get_storage_batch db block_hash (first ∷ others) =
    let keys = first ∷ others in
    if has_duplicates keys
    then err duplicated_keys
    else (let rows =
          filter
            (λ (row : StorageRow). bytes_beq row.block_hash block_hash && contains keys row.key)
            db.storage in
        ok (drain_map keys (fill_map rows [])))

-- The transaction of `set_storage_batch`.
unfoldable pub upsert_all : Bytes → List (Bytes × Option Bytes) → List StorageRow → List StorageRow
upsert_all block_hash [] rows = rows
upsert_all block_hash ((key, value) ∷ entries) rows =
    upsert_all block_hash entries (upsert (new_row block_hash key value) rows)

abbrev pub entry_keys : List (Bytes × Option Bytes) → List Bytes
entry_keys = map (λ entry. entry.0)

unfoldable pub set_storage_batch : Db → Bytes → List (Bytes × Option Bytes) → Result Db
set_storage_batch db block_hash [] = ok db
set_storage_batch db block_hash (first ∷ others) =
    let entries = first ∷ others in
    if has_duplicates (entry_keys entries)
    then err duplicated_keys
    else ok (record db { storage = upsert_all block_hash entries db.storage })

-- The rows of a block whose key lies in the range of the prefix.
abbrev pub prefix_rows : Db → Bytes → Bytes → List StorageRow
prefix_rows db block_hash prefix =
    filter
      (λ (row : StorageRow).
        bytes_beq row.block_hash block_hash && in_range (increment_prefix prefix) prefix row.key)
      db.storage

unfoldable pub get_keys_by_prefix : Db → Bytes → Bytes → List Bytes
get_keys_by_prefix db block_hash prefix = map (λ row. row.key) (prefix_rows db block_hash prefix)

-- ORDER BY key ASC LIMIT 1
unfoldable pub least_key : List Bytes → Option Bytes
least_key [] = none
least_key (k ∷ ks) = elim (least_key ks) [
  | none ↦ some k
  | some m ↦ if lt_bytes m k then some m else some k
]

unfoldable pub next_key_from_cache : Db → Bytes → Bytes → Bytes → Option Bytes
unfolding least_key
next_key_from_cache db block_hash prefix key = least_key (
    map (λ (row : StorageRow). row.key)
      (filter (λ (row : StorageRow). lt_bytes key row.key && not row.is_empty)
        (prefix_rows db block_hash prefix)))

unfoldable pub count_keys_by_prefix : Db → Bytes → Bytes → ℕ
count_keys_by_prefix db block_hash prefix = length (prefix_rows db block_hash prefix)
