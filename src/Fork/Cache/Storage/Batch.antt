-- ===== src/Fork/Cache/Storage/Batch.antt =====
-- The batch operations against one operation for each key.
use pop_cli.Prelude.{
  ◌≡◌, refl, ◌∙◌, ap, true, false, ◌&&◌, List, [], ◌∷◌, map, Option, none, some, arith,
  if◌then◌else◌, filter, contains, has_duplicates, or_else,
}
use pop_cli.Bytes.{Bytes, bytes_beq, bytes_beq_iff, bytes_eq}
use pop_cli.Assoc.{lookup, insert, remove, lookup-insert, lookup-remove, contains-ne}
use pop_cli.Fork.Result.{ok}
use pop_cli.Fork.Cache.Tables.{StorageRow, Db}
use pop_cli.Fork.Cache.Storage.{
  row_value, new_row, get_storage, get_storage_batch, set_storage_batch, fill_map, drain_map,
  upsert, upsert_all, entry_keys,
}
use pop_cli.Fork.Cache.Storage.Laws.{read, read-upsert, IsKeyed, upsert-IsKeyed}

or_else-none :
    (j : Bytes) (o : Option (Option Bytes)) → or_else o (lookup {V = Option Bytes} j []) ≡ o
unfolding lookup
or_else-none j none = refl
or_else-none j (some a) = refl

lookup-absent :
    (k : Bytes) (entries : List (Bytes × Option Bytes))
    → contains (entry_keys entries) k ≡ false
    → lookup k entries ≡ none
unfolding lookup
lookup-absent k [] h = refl
lookup-absent k ((j, v) ∷ es) h = ground (arith, lookup-absent k es)

fill_map-read :
    (h k : Bytes) (keys : List Bytes) (rows : List StorageRow) (m : List (Bytes × Option Bytes))
    → contains keys k ≡ true
    → IsKeyed rows
    → lookup k (
        fill_map
          (filter (λ (row : StorageRow). bytes_beq row.block_hash h && contains keys row.key) rows)
          m)
      ≡ or_else (read h k rows) (lookup k m)
unfolding fill_map
fill_map-read h k keys [] m c u = refl
fill_map-read h k keys (row ∷ rows) m c u = ground (
  arith,
  fill_map-read h k keys rows m c u.1,
  fill_map-read h k keys rows (insert row.key (row_value row) m) c u.1,
  lookup-insert row.key k (row_value row) m,
  contains-ne keys k row.key c,
  bytes_beq_iff row.block_hash h,
  bytes_beq_iff row.key k,
)

drain_map-lookup :
    (f : Bytes → Option (Option Bytes)) (keys : List Bytes) (m : List (Bytes × Option Bytes))
    → has_duplicates keys ≡ false
    → ((j : Bytes) → contains keys j ≡ true → lookup j m ≡ f j)
    → drain_map keys m ≡ map f keys
unfolding drain_map
drain_map-lookup f [] m d h = refl
drain_map-lookup f (k ∷ ks) m d h =
    ground (arith, h k, bytes_beq_iff k k, drain_map-lookup f ks (remove k m) (ground arith) rest)
  where
    rest : (j : Bytes) → contains ks j ≡ true → lookup j (remove k m) ≡ f j
    rest j c = ground (arith, h j, lookup-remove k j m, contains-ne ks j k c)

-- With distinct keys, and a table that keeps its primary key, a batch read answers for each key, in
-- the order of the keys, what the single read answers.
pub get_storage_batch-get_storage :
    (db : Db) (h : Bytes) (keys : List Bytes)
    → IsKeyed db.storage
    → has_duplicates keys ≡ false
    → get_storage_batch db h keys ≡ ok (map (get_storage db h) keys)
unfolding get_storage_batch get_storage
get_storage_batch-get_storage db h [] u d = refl
get_storage_batch-get_storage db h (k ∷ ks) u d =
    rw d (ap ok (drain_map-lookup (λ j. read h j db.storage) (k ∷ ks) _ d found))
  where
    found :
        (j : Bytes)
        → contains (k ∷ ks) j ≡ true
        → lookup j (
            fill_map
              (filter
                (λ (row : StorageRow). bytes_beq row.block_hash h && contains (k ∷ ks) row.key)
                db.storage)
              [])
          ≡ read h j db.storage
    found j c = fill_map-read h j (k ∷ ks) db.storage [] c u ∙ or_else-none j (read h j db.storage)

upsert_all-IsKeyed :
    (h : Bytes) (entries : List (Bytes × Option Bytes)) (rows : List StorageRow)
    → IsKeyed rows
    → IsKeyed (upsert_all h entries rows)
unfolding upsert_all
upsert_all-IsKeyed h [] rows u = u
upsert_all-IsKeyed h ((k, v) ∷ es) rows u = upsert_all-IsKeyed h es _ (upsert-IsKeyed _ rows u)

read-upsert_all :
    (h h' k : Bytes) (entries : List (Bytes × Option Bytes)) (rows : List StorageRow)
    → has_duplicates (entry_keys entries) ≡ false
    → read h' k (upsert_all h entries rows)
      ≡ (if bytes_beq h h' then or_else (lookup k entries) (read h' k rows) else read h' k rows)
unfolding upsert_all lookup
read-upsert_all h h' k [] rows d = ground arith
read-upsert_all h h' k ((j, v) ∷ es) rows d = ground (
  arith,
  read-upsert_all h h' k es (upsert (new_row h j v) rows),
  read-upsert h j h' k v rows,
  lookup-absent j es,
  bytes_beq_iff j k,
)

-- A batch write of distinct keys succeeds, keeps the primary key, and is read back entry by entry;
-- keys that are not in the batch, and other blocks, answer as before.
pub get_storage-set_storage_batch :
    (db : Db) (h : Bytes) (entries : List (Bytes × Option Bytes))
    → IsKeyed db.storage
    → has_duplicates (entry_keys entries) ≡ false
    → (db' : Db) × (set_storage_batch db h entries ≡ ok db')
      × IsKeyed db'.storage
      × ((h' k : Bytes)
          → get_storage db' h' k ≡ (
              if bytes_beq h h'
              then or_else (lookup k entries) (get_storage db h' k)
              else get_storage db h' k))
unfolding set_storage_batch get_storage lookup
get_storage-set_storage_batch db h [] u d = (db, refl, u, λ h' k. ground arith)
get_storage-set_storage_batch db h (e ∷ es) u d = (
  record db { storage = upsert_all h (e ∷ es) db.storage },
  rw d,
  upsert_all-IsKeyed h (e ∷ es) db.storage u,
  λ h' k. read-upsert_all h h' k (e ∷ es) db.storage d,
)
