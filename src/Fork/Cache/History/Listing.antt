-- ===== src/Fork/Cache/History/Listing.antt =====
-- The queries of the history over many keys: by prefix, and in a batch.
use pop_cli.Prelude.{
  ℕ, ◌≤◌, ◌≡◌, refl, ◌∙◌, ap, Bool, false, ◌&&◌, List, [], ◌∷◌, map, Option, none, some, arith,
  filter, any, any-append, contains, nat_beq,
}
use pop_cli.Bytes.{Bytes, bytes_beq, bytes_beq_iff, bytes_eq, starts_with}
use pop_cli.Assoc.{contains-set_extend}
use pop_cli.Fork.Cache.Tables.{LocalKeyRow, LocalValueRow, Db}
use pop_cli.Fork.Cache.Prefix.{prefix_upper_bound, in_range}
use pop_cli.Fork.Cache.Prefix.Laws.{IsBytes, in_range-prefix_upper_bound}
use pop_cli.Fork.Cache.History.{
  is_valid_at, value_at, get_local_value_at_block, joined_keys, is_null, is_not_null, select_keys,
  get_local_keys_at_block, get_local_deleted_keys_at_block,
}
use pop_cli.Fork.Cache.History.Invariant.{
  find_key, IsIndexed, IsHistory, count_valid, find_key_absent,
}

pub contains-filter :
    (p : Bytes → Bool) (k : Bytes) (xs : List Bytes)
    → contains (filter p xs) k ≡ (p k && contains xs k)
contains-filter p k [] = ground arith
contains-filter p k (x ∷ xs) = ground (arith, contains-filter p k xs, bytes_beq_iff x k)

abbrev pub test_value : (Option Bytes → Bool) → Option (Option Bytes) → Bool
test_value test none = false
test_value test (some v) = test v

abbrev passes : (Option Bytes → Bool) → ℕ → ℕ → LocalValueRow → Bool
passes test id n row = nat_beq row.key_id id && is_valid_at n row && test row.value

any-passes_none :
    (test : Option Bytes → Bool) (id n : ℕ) (rows : List LocalValueRow)
    → count_valid id n rows ≡ 0
    → any (passes test id n) rows ≡ false
any-passes_none test id n [] h = refl
any-passes_none test id n (row ∷ rows) h = ground (arith, any-passes_none test id n rows)

any-passes :
    (test : Option Bytes → Bool) (id n : ℕ) (rows : List LocalValueRow)
    → count_valid id n rows ≤ 1
    → any (passes test id n) rows ≡ test_value test (value_at id n rows)
any-passes test id n [] h = refl
any-passes test id n (row ∷ rows) h =
    ground (arith, any-passes test id n rows, any-passes_none test id n rows)

contains-map_const :
    (key k : Bytes) (p : LocalValueRow → Bool) (rows : List LocalValueRow)
    → contains (map (λ _. key) (filter p rows)) k ≡ (bytes_beq key k && any p rows)
contains-map_const key k p [] = ground arith
contains-map_const key k p (row ∷ rows) = ground (arith, contains-map_const key k p rows)

abbrev key_passes : (Option Bytes → Bool) → ℕ → List LocalValueRow → Option LocalKeyRow → Bool
key_passes test n values none = false
key_passes test n values (some row) = any (passes test row.id n) values

contains-joined_keys :
    (test : Option Bytes → Bool) (n : ℕ) (values : List LocalValueRow) (next : ℕ) (k : Bytes)
    (rows : List LocalKeyRow)
    → IsIndexed next rows
    → contains (joined_keys test n values rows) k ≡ key_passes test n values (find_key k rows)
unfolding joined_keys
contains-joined_keys test n values next k [] h = refl
contains-joined_keys test n values next k (row ∷ rows) h =
    any-append (λ x. bytes_beq x k) (map (λ _. row.key) (filter (passes test row.id n) values))
      (joined_keys test n values rows)
    ∙ ground (
      arith,
      contains-map_const row.key k (passes test row.id n) values,
      contains-joined_keys test n values next k rows h.2,
      find_key_absent row.key row.id rows,
      bytes_beq_iff row.key k,
    )

contains-select_keys :
    (test : Option Bytes → Bool) (n m : ℕ) (db : Db) (p k : Bytes)
    → IsHistory m db
    → IsBytes k
    → contains (select_keys test db p n) k
      ≡ (starts_with k p && test_value test (get_local_value_at_block db k n))
unfolding select_keys get_local_value_at_block
contains-select_keys test n m db p k h b =
    contains-set_extend k [] (
      filter (in_range (prefix_upper_bound p) p) (joined_keys test n db.local_values db.local_keys))
    ∙ contains-filter (in_range (prefix_upper_bound p) p) k
        (joined_keys test n db.local_values db.local_keys)
    ∙ rw
        (
          in_range-prefix_upper_bound p k b,
          contains-joined_keys test n db.local_values db.next_key_id k db.local_keys h.indexed,
        )
        (ap (◌&&◌ (starts_with k p)) (values (find_key k db.local_keys)))
  where
    values :
        (o : Option LocalKeyRow)
        → key_passes test n db.local_values o
          ≡ test_value test (elim o [ none ↦ none | some row ↦ value_at row.id n db.local_values ])
    values none = refl
    values (some row) = any-passes test row.id n db.local_values (h.single row.id n)

-- In a valid history the keys listed as live at a block are those with the prefix that have a value
-- there, and the keys listed as deleted are those with the prefix whose deletion is recorded there.
pub local_keys_lem :
    (n m : ℕ) (db : Db) (p k : Bytes)
    → IsHistory m db
    → IsBytes k
    → (contains (get_local_keys_at_block db p n) k
        ≡ (starts_with k p && test_value is_not_null (get_local_value_at_block db k n)))
      × (contains (get_local_deleted_keys_at_block db p n) k
          ≡ (starts_with k p && test_value is_null (get_local_value_at_block db k n)))
unfolding get_local_keys_at_block get_local_deleted_keys_at_block
local_keys_lem n m db p k h b =
    (contains-select_keys is_not_null n m db p k h b, contains-select_keys is_null n m db p k h b)
