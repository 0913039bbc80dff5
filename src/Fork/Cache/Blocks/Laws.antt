-- ===== src/Fork/Cache/Blocks/Laws.antt =====
-- What is read of blocks and scans after a write, and after `clear_block`.
use pop_cli.Prelude.{
  ℕ, ◌≡◌, refl, Bool, not, ◌&&◌, List, [], ◌∷◌, none, some, ltb, if◌then◌else◌, filter, find?,
  arith,
}
use pop_cli.Bytes.{Bytes, bytes_beq, bytes_beq_iff}
use pop_cli.Fork.Result.{ok, err, data_corruption}
use pop_cli.Fork.Cache.Tables.{pos, StorageRow, BlockRow, PrefixScanRow, Db}
use pop_cli.Fork.Cache.Storage.{get_storage, is_row}
use pop_cli.Fork.Cache.Blocks.{
  upsert_block, cache_block, u32_max, get_block, is_number, clear_block, is_scan,
  get_prefix_scan_progress, upsert_scan, update_prefix_scan,
}

find?-upsert_block :
    (new : BlockRow) (hash : Bytes) (rows : List BlockRow)
    → find? (λ (row : BlockRow). bytes_beq row.hash hash) (upsert_block new rows) ≡ (
        if bytes_beq new.hash hash
        then some new
        else find? (λ (row : BlockRow). bytes_beq row.hash hash) rows)
unfolding upsert_block
find?-upsert_block new hash [] = refl
find?-upsert_block new hash (row ∷ rows) = ground (
  arith,
  find?-upsert_block new hash rows,
  bytes_beq_iff new.hash hash,
  bytes_beq_iff row.hash new.hash,
  bytes_beq_iff row.hash hash,
)

-- A block whose number is a `u32` is read back as it was cached, whatever was cached for its hash
-- before; a number beyond `u32` is reported as corruption; other blocks answer as before.
pub get_block-cache_block :
    (db : Db) (hash : Bytes) (number : ℕ) (parent_hash header other : Bytes)
    → get_block (cache_block db hash number parent_hash header) other ≡ (
        if bytes_beq hash other
        then (if ltb u32_max number
            then err data_corruption
            else ok (
                some (record {
                  hash = hash;
                  number = pos number;
                  parent_hash = parent_hash;
                  header = header;
                })))
        else get_block db other)
unfolding get_block cache_block
get_block-cache_block db hash number parent_hash header other = ground (
  arith,
  find?-upsert_block
      (record { hash = hash; number = pos number; parent_hash = parent_hash; header = header })
      other db.blocks,
)

find?-is_number :
    (n : ℕ) (rows : List BlockRow) (row : BlockRow)
    → find? (λ (r : BlockRow). is_number n r.number) rows ≡ some row
    → row.number ≡ pos n
find?-is_number n [] row h = ground arith
find?-is_number n (r ∷ rows) row h = ground (arith, find?-is_number n rows row)

find?-other :
    (h h' k : Bytes) (rows : List StorageRow)
    → find? (is_row h' k) (filter (λ (row : StorageRow). not (bytes_beq row.block_hash h)) rows)
      ≡ (if bytes_beq h h' then none else find? (is_row h' k) rows)
find?-other h h' k [] = ground arith
find?-other h h' k (row ∷ rows) = ground (
  arith,
  find?-other h h' k rows,
  bytes_beq_iff h h',
  bytes_beq_iff row.block_hash h,
  bytes_beq_iff row.block_hash h',
)

find?-other_block :
    (h h' : Bytes) (rows : List BlockRow)
    → find?
        (λ (row : BlockRow). bytes_beq row.hash h')
        (filter (λ (row : BlockRow). not (bytes_beq row.hash h)) rows)
      ≡ (if bytes_beq h h' then none else find? (λ (row : BlockRow). bytes_beq row.hash h') rows)
find?-other_block h h' [] = ground arith
find?-other_block h h' (row ∷ rows) = ground (
  arith,
  find?-other_block h h' rows,
  bytes_beq_iff h h',
  bytes_beq_iff row.hash h,
  bytes_beq_iff row.hash h',
)

find?-other_scan :
    (h h' p : Bytes) (rows : List PrefixScanRow)
    → find? (is_scan h' p) (filter (λ (row : PrefixScanRow). not (bytes_beq row.block_hash h)) rows)
      ≡ (if bytes_beq h h' then none else find? (is_scan h' p) rows)
find?-other_scan h h' p [] = ground arith
find?-other_scan h h' p (row ∷ rows) = ground (
  arith,
  find?-other_scan h h' p rows,
  bytes_beq_iff h h',
  bytes_beq_iff row.block_hash h,
  bytes_beq_iff row.block_hash h',
)

-- After `clear_block` nothing is cached of the block: no value, no metadata and no scan progress;
-- every other block answers as before.
pub clear_block_lem :
    (db : Db) (h h' k p : Bytes)
    → (get_storage (clear_block db h) h' k ≡ (if bytes_beq h h' then none else get_storage db h' k))
      × (get_block (clear_block db h) h' ≡ (if bytes_beq h h' then ok none else get_block db h'))
      × (get_prefix_scan_progress (clear_block db h) h' p
          ≡ (if bytes_beq h h' then none else get_prefix_scan_progress db h' p))
unfolding clear_block get_storage get_block get_prefix_scan_progress
clear_block_lem db h h' k p = (
  ground (arith, find?-other h h' k db.storage),
  ground (arith, find?-other_block h h' db.blocks),
  ground (arith, find?-other_scan h h' p db.prefix_scans),
)

find?-upsert_scan :
    (new : PrefixScanRow) (h p : Bytes) (rows : List PrefixScanRow)
    → find? (is_scan h p) (upsert_scan new rows) ≡ (
        if bytes_beq new.block_hash h && bytes_beq new.prefix p
        then some new
        else find? (is_scan h p) rows)
unfolding upsert_scan
find?-upsert_scan new h p [] = refl
find?-upsert_scan new h p (row ∷ rows) = ground (
  arith,
  find?-upsert_scan new h p rows,
  bytes_beq_iff new.block_hash h,
  bytes_beq_iff new.prefix p,
  bytes_beq_iff row.block_hash new.block_hash,
  bytes_beq_iff row.prefix new.prefix,
  bytes_beq_iff row.block_hash h,
  bytes_beq_iff row.prefix p,
)

-- The progress of a scan is what was last recorded for its block and prefix.
pub get_prefix_scan_progress-update_prefix_scan :
    (db : Db) (h p last : Bytes) (complete : Bool) (h' p' : Bytes)
    → get_prefix_scan_progress (update_prefix_scan db h p last complete) h' p' ≡ (
        if bytes_beq h h' && bytes_beq p p'
        then some (record { last_scanned_key = some last; is_complete = complete })
        else get_prefix_scan_progress db h' p')
unfolding get_prefix_scan_progress update_prefix_scan
get_prefix_scan_progress-update_prefix_scan db h p last complete h' p' = ground (
  arith,
  find?-upsert_scan
      (record { block_hash = h; prefix = p; last_scanned_key = some last; is_complete = complete })
      h' p' db.prefix_scans,
)
