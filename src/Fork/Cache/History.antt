-- ===== src/Fork/Cache/History.antt =====
-- The tables `local_keys` and `local_values` of crates/pop-fork/src/cache.rs: for each key the
-- values that it had, each with the range of blocks at which it was valid.
pub mod Invariant
pub mod Commit
pub mod Listing
pub mod Batch
use mathlib.Core.Option
use pop_cli.Prelude.{
  ℕ, ◌+◌, Bool, true, false, ◌&&◌, List, [], ◌∷◌, ◌++◌, map, Option, none, some, ltb, leb, nat_beq,
  if◌then◌else◌, filter, find?, any, contains, has_duplicates, nat_eq,
}
use pop_cli.Bytes.{Bytes, bytes_beq, bytes_eq, le_bytes, lt_bytes}
use pop_cli.Assoc.{lookup, insert, remove, set_extend}
use pop_cli.Fork.Result.{Error, Result, ok, err, ◌>>=◌, duplicated_keys, not_found}
use pop_cli.Fork.Cache.Tables.{LocalKeyRow, LocalValueRow, Db}
use pop_cli.Fork.Cache.Prefix.{prefix_upper_bound, in_range}

unfoldable pub get_local_key : Db → Bytes → Option LocalKeyRow
get_local_key db key = find? (λ (row : LocalKeyRow). bytes_beq row.key key) db.local_keys

-- INSERT INTO local_keys (key) … ON CONFLICT (key) DO NOTHING
unfoldable pub upsert_key : Db → Bytes → Db
upsert_key db key =
    if any (λ (row : LocalKeyRow). bytes_beq row.key key) db.local_keys then db else record db {
      local_keys = db.local_keys ++ record { id = db.next_key_id; key = key } ∷ [];
      next_key_id = db.next_key_id + 1;
    }

-- SELECT id FROM local_keys WHERE key = … , with `first`: no row is an error.
unfoldable pub select_id : Db → Bytes → Result ℕ
unfolding get_local_key
select_id db key = elim (get_local_key db key) [ none ↦ err not_found | some row ↦ ok row.id ]

unfoldable pub insert_local_key : Db → Bytes → Result (Db × ℕ)
unfolding upsert_key select_id
insert_local_key db key = let db' = upsert_key db key in select_id db' key >>= λ id. ok (db', id)

-- valid_from <= n AND (valid_until IS NULL OR valid_until > n)
abbrev pub is_valid_at : ℕ → LocalValueRow → Bool
is_valid_at n row =
    leb row.valid_from n && elim row.valid_until [ none ↦ true | some until ↦ ltb n until ]

-- The first value of a key that is valid at a block.
abbrev pub value_at : ℕ → ℕ → List LocalValueRow → Option (Option Bytes)
value_at key_id n rows =
    Option.map (λ row. row.value)
      (find? (λ (row : LocalValueRow). nat_beq row.key_id key_id && is_valid_at n row) rows)

-- `some none` is a deletion that was recorded, `none` that there is no row.
unfoldable pub get_local_value_at_block : Db → Bytes → ℕ → Option (Option Bytes)
unfolding get_local_key
get_local_value_at_block db key block_number = elim (get_local_key db key) [
  | none ↦ none
  | some row ↦ value_at row.id block_number db.local_values
]

-- The map from the bytes of a key to its id.
unfoldable pub fill_ids : List LocalKeyRow → List (Bytes × ℕ) → List (Bytes × ℕ)
fill_ids [] key_to_id = key_to_id
fill_ids (row ∷ rows) key_to_id = fill_ids rows (insert row.key row.id key_to_id)

-- The map from an id to the value; a later row replaces an earlier one.
unfoldable pub fill_values : List LocalValueRow → List (ℕ × Option Bytes) → List (ℕ × Option Bytes)
fill_values [] id_to_value = id_to_value
fill_values (row ∷ rows) id_to_value = fill_values rows (insert row.key_id row.value id_to_value)

-- `key_to_id.get(*key).and_then(|key_id| id_to_value.remove(key_id))` for each key
unfoldable pub drain_values :
    List Bytes → List (Bytes × ℕ) → List (ℕ × Option Bytes) → List (Option (Option Bytes))
drain_values [] key_to_id id_to_value = []
drain_values (key ∷ keys) key_to_id id_to_value = elim (lookup key key_to_id) [
  | none ↦ none ∷ drain_values keys key_to_id id_to_value
  | some id ↦ lookup id id_to_value ∷ drain_values keys key_to_id (remove id id_to_value)
]

abbrev pub ids : List (Bytes × ℕ) → List ℕ
ids = map (λ entry. entry.1)

unfoldable pub get_local_values_at_block_batch :
    Db → List Bytes → ℕ → Result (List (Option (Option Bytes)))
get_local_values_at_block_batch db [] block_number = ok []
get_local_values_at_block_batch db (first ∷ others) block_number =
    let keys = first ∷ others in
    let key_to_id =
      fill_ids (filter (λ (row : LocalKeyRow). contains keys row.key) db.local_keys) [] in
    let value_rows =
      filter
        (λ (row : LocalValueRow).
          contains (ids key_to_id) row.key_id && is_valid_at block_number row)
        db.local_values in
    let values = fill_values value_rows [] in
    if has_duplicates keys then err duplicated_keys else elim key_to_id [
      | [] ↦ ok (map (λ _. none) keys)
      | found ↦ ok (drain_values keys found values)
    ]

-- local_keys INNER JOIN local_values, WHERE the value is valid at the block and passes the test on
-- NULL: the keys, in the order of `local_keys`.
unfoldable pub joined_keys :
    (Option Bytes → Bool) → ℕ → List LocalValueRow → List LocalKeyRow → List Bytes
joined_keys test n values [] = []
joined_keys test n values (row ∷ rows) =
    map (λ _. row.key)
      (filter
        (λ (value : LocalValueRow).
          nat_beq value.key_id row.id && is_valid_at n value && test value.value)
        values)
    ++ joined_keys test n values rows

abbrev pub is_null : Option Bytes → Bool
is_null none = true
is_null (some _) = false

abbrev pub is_not_null : Option Bytes → Bool
is_not_null none = false
is_not_null (some _) = true

-- SELECT DISTINCT key … ORDER BY key ASC, over the range of the prefix
unfoldable pub select_keys : (Option Bytes → Bool) → Db → Bytes → ℕ → List Bytes
unfolding joined_keys
select_keys test db prefix block_number = set_extend [] (
    filter (in_range (prefix_upper_bound prefix) prefix)
      (joined_keys test block_number db.local_values db.local_keys))

unfoldable pub get_local_keys_at_block : Db → Bytes → ℕ → List Bytes
unfolding select_keys
get_local_keys_at_block = select_keys is_not_null

unfoldable pub get_local_deleted_keys_at_block : Db → Bytes → ℕ → List Bytes
unfolding select_keys
get_local_deleted_keys_at_block = select_keys is_null

unfoldable pub insert_local_value : Db → ℕ → Option Bytes → ℕ → Db
insert_local_value db key_id value valid_from = record db {
  local_values =
      db.local_values
      ++ record { key_id = key_id; value = value; valid_from = valid_from; valid_until = none }
        ∷ [];
}

-- UPDATE local_values SET valid_until = … WHERE key_id = … AND valid_until IS NULL
abbrev pub close_row : ℕ → ℕ → LocalValueRow → LocalValueRow
close_row key_id until row = elim row.valid_until [
  | none ↦ if nat_beq row.key_id key_id then record row { valid_until = some until } else row
  | some _ ↦ row
]

unfoldable pub close_local_value : Db → ℕ → ℕ → Db
close_local_value db key_id until = record db {
  local_values = map (close_row key_id until) db.local_values;
}

-- One round of the transaction of `commit_local_changes`.
unfoldable pub commit_entry : Db → Bytes → Option Bytes → ℕ → Result Db
unfolding insert_local_key close_local_value insert_local_value
commit_entry db key value block_number = insert_local_key db key >>= λ r.
    ok (insert_local_value (close_local_value r.0 r.1 block_number) r.1 value block_number)

-- An error rolls the transaction back: the result is the error and no database.
unfoldable pub commit_local_changes : Db → List (Bytes × Option Bytes) → ℕ → Result Db
unfolding commit_entry
commit_local_changes db [] block_number = ok db
commit_local_changes db ((key, value) ∷ entries) block_number =
    commit_entry db key value block_number >>= λ db'. commit_local_changes db' entries block_number

unfoldable pub clear_local_storage : Db → Db
clear_local_storage db = record db { local_keys = []; local_values = [] }
