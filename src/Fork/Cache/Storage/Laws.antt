-- ===== src/Fork/Cache/Storage/Laws.antt =====
-- What is read back after a write, and the primary key.
use mathlib.Core.Option
use pop_cli.Prelude.{
  ◌≡◌, refl, Bool, ◌&&◌, List, [], ◌∷◌, Option, none, some, arith, if◌then◌else◌, find?,
}
use pop_cli.Bytes.{Bytes, bytes_beq, bytes_beq_iff}
use pop_cli.Fork.Cache.Tables.{StorageRow, Db}
use pop_cli.Fork.Cache.Storage.{is_row, row_value, new_row, get_storage, upsert, set_storage}

abbrev pub read : Bytes → Bytes → List StorageRow → Option (Option Bytes)
read block_hash key rows = Option.map row_value (find? (is_row block_hash key) rows)

pub read-upsert :
    (h k h' k' : Bytes) (v : Option Bytes) (rows : List StorageRow)
    → read h' k' (upsert (new_row h k v) rows)
      ≡ (if bytes_beq h h' && bytes_beq k k' then some v else read h' k' rows)
unfolding upsert
read-upsert h k h' k' none [] = ground arith
read-upsert h k h' k' (some v) [] = ground arith
read-upsert h k h' k' v (row ∷ rows) = ground (
  arith,
  read-upsert h k h' k' v rows,
  bytes_beq_iff h h',
  bytes_beq_iff k k',
  bytes_beq_iff row.block_hash h,
  bytes_beq_iff row.key k,
  bytes_beq_iff row.block_hash h',
  bytes_beq_iff row.key k',
)

-- After a write the cache answers with the value that was written (absent included) for that block
-- and key, and as before for every other.
pub get_storage-set_storage :
    (db : Db) (h k h' k' : Bytes) (v : Option Bytes)
    → get_storage (set_storage db h k v) h' k'
      ≡ (if bytes_beq h h' && bytes_beq k k' then some v else get_storage db h' k')
unfolding get_storage set_storage
get_storage-set_storage db h k h' k' v = read-upsert h k h' k' v db.storage

-- The primary key: no two rows have the same block and key.
abbrev pub IsKeyed : List StorageRow → Type 0
IsKeyed [] = Unit {0}
IsKeyed (row ∷ rows) = (find? (is_row row.block_hash row.key) rows ≡ none) × IsKeyed rows

find?-upsert-none :
    (h k : Bytes) (new : StorageRow) (rows : List StorageRow)
    → (bytes_beq new.block_hash h && bytes_beq new.key k) ≡ Bool.false
    → find? (is_row h k) rows ≡ none
    → find? (is_row h k) (upsert new rows) ≡ none
unfolding upsert
find?-upsert-none h k new [] e p = ground arith
find?-upsert-none h k new (row ∷ rows) e p = ground (arith, find?-upsert-none h k new rows e)

pub upsert-IsKeyed :
    (new : StorageRow) (rows : List StorageRow) → IsKeyed rows → IsKeyed (upsert new rows)
unfolding upsert
upsert-IsKeyed new [] h = (refl, tt)
upsert-IsKeyed new (row ∷ rows) h = ground (
  arith,
  upsert-IsKeyed new rows h.1,
  find?-upsert-none row.block_hash row.key new rows,
  bytes_beq_iff row.block_hash new.block_hash,
  bytes_beq_iff row.key new.key,
  bytes_beq_iff new.block_hash row.block_hash,
  bytes_beq_iff new.key row.key,
)
