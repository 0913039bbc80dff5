-- ===== src/Fork/Cache/Blocks.antt =====
-- The tables `blocks` and `prefix_scans` of crates/pop-fork/src/cache.rs, and `clear_block`, which
-- forgets all that is cached of a block.
pub mod Laws
use mathlib.Core.Option
use pop_cli.Prelude.{
  ℕ, Bool, true, false, not, ◌&&◌, List, [], ◌∷◌, Option, none, some, ltb, nat_beq, if◌then◌else◌,
  filter, find?,
}
use pop_cli.Bytes.{Bytes, bytes_beq}
use pop_cli.Fork.Result.{Result, ok, err, data_corruption}
use pop_cli.Fork.Cache.Tables.{ℤ, pos, negsuc, StorageRow, BlockRow, PrefixScanRow, Db}

-- INSERT … ON CONFLICT (hash) DO UPDATE SET number, parent_hash, header
unfoldable pub upsert_block : BlockRow → List BlockRow → List BlockRow
upsert_block new [] = new ∷ []
upsert_block new (row ∷ rows) =
    if bytes_beq row.hash new.hash
    then record row { number = new.number; parent_hash = new.parent_hash; header = new.header }
      ∷ rows
    else row ∷ upsert_block new rows

unfoldable pub cache_block : Db → Bytes → ℕ → Bytes → Bytes → Db
unfolding upsert_block
cache_block db hash number parent_hash header = record db {
  blocks =
      upsert_block
        (record { hash = hash; number = pos number; parent_hash = parent_hash; header = header })
        db.blocks;
}

abbrev pub u32_max : ℕ
u32_max = 4294967295

-- number < 0 || number > u32::MAX.into()
abbrev pub out_of_u32 : ℤ → Bool
out_of_u32 (pos n) = ltb u32_max n
out_of_u32 (negsuc _) = true

-- The sanity check on the block number of a row.
abbrev pub checked : Option BlockRow → Result (Option BlockRow)
checked none = ok none
checked (some row) = if out_of_u32 row.number then err data_corruption else ok (some row)

unfoldable pub get_block : Db → Bytes → Result (Option BlockRow)
get_block db hash = checked (find? (λ (row : BlockRow). bytes_beq row.hash hash) db.blocks)

abbrev pub is_number : ℕ → ℤ → Bool
is_number n (pos m) = nat_beq m n
is_number n (negsuc _) = false

unfoldable pub get_block_by_number : Db → ℕ → Result (Option BlockRow)
get_block_by_number db block_number =
    checked (find? (λ (row : BlockRow). is_number block_number row.number) db.blocks)

unfoldable pub clear_block : Db → Bytes → Db
clear_block db hash = record db {
  storage = filter (λ (row : StorageRow). not (bytes_beq row.block_hash hash)) db.storage;
  blocks = filter (λ (row : BlockRow). not (bytes_beq row.hash hash)) db.blocks;
  prefix_scans =
      filter (λ (row : PrefixScanRow). not (bytes_beq row.block_hash hash)) db.prefix_scans;
}

pub record PrefixScanProgress : Type 0 where
  pub last_scanned_key : Option Bytes
  pub is_complete : Bool

abbrev pub is_scan : Bytes → Bytes → PrefixScanRow → Bool
is_scan block_hash prefix row = bytes_beq row.block_hash block_hash && bytes_beq row.prefix prefix

abbrev pub progress_of : PrefixScanRow → PrefixScanProgress
progress_of row = record { last_scanned_key = row.last_scanned_key; is_complete = row.is_complete }

unfoldable pub get_prefix_scan_progress : Db → Bytes → Bytes → Option PrefixScanProgress
get_prefix_scan_progress db block_hash prefix =
    Option.map progress_of (find? (is_scan block_hash prefix) db.prefix_scans)

-- INSERT … ON CONFLICT (block_hash, prefix) DO UPDATE SET last_scanned_key, is_complete
unfoldable pub upsert_scan : PrefixScanRow → List PrefixScanRow → List PrefixScanRow
upsert_scan new [] = new ∷ []
upsert_scan new (row ∷ rows) =
    if is_scan new.block_hash new.prefix row
    then record row { last_scanned_key = new.last_scanned_key; is_complete = new.is_complete }
      ∷ rows
    else row ∷ upsert_scan new rows

unfoldable pub update_prefix_scan : Db → Bytes → Bytes → Bytes → Bool → Db
unfolding upsert_scan
update_prefix_scan db block_hash prefix last_key is_complete = record db {
  prefix_scans =
      upsert_scan
        (record {
          block_hash = block_hash;
          prefix = prefix;
          last_scanned_key = some last_key;
          is_complete = is_complete;
        })
        db.prefix_scans;
}
