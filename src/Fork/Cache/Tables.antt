-- ===== src/Fork/Cache/Tables.antt =====
-- The SQLite database of crates/pop-fork/migrations/init/up.sql, with the rows of
-- crates/pop-fork/src/models.rs. A table is the list of its rows in the order of their row ids,
-- which is the order that a query without ORDER BY reads them in.
use pop_cli.Prelude.{ℕ, Bool, List, [], Option}
use pop_cli.Bytes.{Bytes}

-- An `i64` column: `negsuc n` is -(n + 1).
pub data ℤ : Type 0 where
  pos : ℕ → ℤ
  negsuc : ℕ → ℤ

pub record StorageRow : Type 0 where
  pub block_hash : Bytes
  pub key : Bytes
  pub value : Option Bytes
  pub is_empty : Bool

pub record BlockRow : Type 0 where
  pub hash : Bytes
  pub number : ℤ
  pub parent_hash : Bytes
  pub header : Bytes

pub record LocalKeyRow : Type 0 where
  pub id : ℕ
  pub key : Bytes

-- `id` of `local_values` is left out: no query reads it.
pub record LocalValueRow : Type 0 where
  pub key_id : ℕ
  pub value : Option Bytes
  pub valid_from : ℕ
  pub valid_until : Option ℕ

pub record PrefixScanRow : Type 0 where
  pub block_hash : Bytes
  pub prefix : Bytes
  pub last_scanned_key : Option Bytes
  pub is_complete : Bool

-- `next_key_id` is the AUTOINCREMENT counter of `local_keys`.
pub record Db : Type 0 where
  pub storage : List StorageRow
  pub blocks : List BlockRow
  pub local_keys : List LocalKeyRow
  pub local_values : List LocalValueRow
  pub prefix_scans : List PrefixScanRow
  pub next_key_id : ℕ

-- The database that the migrations create.
abbrev pub empty_db : Db
empty_db = record {
  storage = [];
  blocks = [];
  local_keys = [];
  local_values = [];
  prefix_scans = [];
  next_key_id = 1;
}
