-- ===== src/Fork/Cache/History/Batch.antt =====
-- `get_local_values_at_block_batch` against one query for each key.
use pop_cli.Prelude.{
  ℕ, ◌≤◌, ◌≡◌, refl, ◌∙◌, sym, ap, true, false, ◌&&◌, List, [], ◌∷◌, map, Option, none, some, arith,
  filter, contains, has_duplicates, nat_beq, nat_eq, or_else, Option-cases, inl, inr,
}
use pop_cli.Bytes.{Bytes, bytes_beq, bytes_beq_iff, bytes_eq}
use pop_cli.Assoc.{lookup, insert, remove, lookup-insert, lookup-remove, contains-ne}
use pop_cli.Fork.Result.{ok}
use pop_cli.Fork.Cache.Tables.{LocalKeyRow, LocalValueRow, Db}
use pop_cli.Fork.Cache.History.{
  is_valid_at, value_at, get_local_value_at_block, fill_ids, fill_values, drain_values, ids,
  get_local_values_at_block_batch,
}
use pop_cli.Fork.Cache.History.Invariant.{
  find_key, find_key-ne, IsIndexed, IsHistory, count_valid, find_key_absent,
}

abbrev id_of : Option LocalKeyRow → Option ℕ
id_of none = none
id_of (some row) = some row.id

or_else-none {ℓ} : {A : Type ℓ} (o : Option A) → or_else o none ≡ o
or_else-none none = refl
or_else-none (some a) = refl

lookup-fill_ids :
    (next : ℕ) (k : Bytes) (keys : List Bytes) (rows : List LocalKeyRow) (m : List (Bytes × ℕ))
    → IsIndexed next rows
    → contains keys k ≡ true
    → lookup k (fill_ids (filter (λ (row : LocalKeyRow). contains keys row.key) rows) m)
      ≡ or_else (id_of (find_key k rows)) (lookup k m)
unfolding fill_ids
lookup-fill_ids next k keys [] m h c = refl
lookup-fill_ids next k keys (row ∷ rows) m h c = ground (
  arith,
  lookup-fill_ids next k keys rows m h.2 c,
  lookup-fill_ids next k keys rows (insert row.key row.id m) h.2 c,
  lookup-insert row.key k row.id m,
  contains-ne keys k row.key c,
  find_key_absent row.key row.id rows h.1,
  bytes_beq_iff row.key k,
)

lookup-ids :
    (k : Bytes) (id : ℕ) (m : List (Bytes × ℕ)) → lookup k m ≡ some id → contains (ids m) id ≡ true
unfolding lookup
lookup-ids k id [] h = ground arith
lookup-ids k id ((j, i) ∷ m) h = ground (arith, lookup-ids k id m)

value_at-none :
    (id n : ℕ) (rows : List LocalValueRow) → count_valid id n rows ≡ 0 → value_at id n rows ≡ none
value_at-none id n [] h = refl
value_at-none id n (row ∷ rows) h = ground (arith, value_at-none id n rows)

contains-id_ne :
    (is : List ℕ) (a b : ℕ) → contains is a ≡ true → contains is b ≡ false → nat_beq b a ≡ false
contains-id_ne [] a b h g = ground arith
contains-id_ne (i ∷ is) a b h g = ground (arith, contains-id_ne is a b)

lookup-fill_values :
    (is : List ℕ) (id n : ℕ) (rows : List LocalValueRow) (m : List (ℕ × Option Bytes))
    → contains is id ≡ true
    → count_valid id n rows ≤ 1
    → lookup id (
        fill_values
          (filter (λ (row : LocalValueRow). contains is row.key_id && is_valid_at n row) rows)
          m)
      ≡ or_else (value_at id n rows) (lookup id m)
unfolding fill_values
lookup-fill_values is id n [] m c s = refl
lookup-fill_values is id n (row ∷ rows) m c s = ground (
  arith,
  lookup-fill_values is id n rows m c,
  lookup-fill_values is id n rows (insert row.key_id row.value m) c,
  lookup-insert row.key_id id row.value m,
  value_at-none id n rows,
  contains-id_ne is id row.key_id c,
)

abbrev via : List (Bytes × ℕ) → List (ℕ × Option Bytes) → Bytes → Option (Option Bytes)
via key_to_id values k = elim (lookup k key_to_id) [ none ↦ none | some id ↦ lookup id values ]

drain_values-via :
    (f : Bytes → Option (Option Bytes)) (keys : List Bytes) (key_to_id : List (Bytes × ℕ))
    (values : List (ℕ × Option Bytes))
    → has_duplicates keys ≡ false
    → ((k j : Bytes) (a b : ℕ)
        → contains keys k ≡ true
        → contains keys j ≡ true
        → lookup k key_to_id ≡ some a
        → lookup j key_to_id ≡ some b
        → bytes_beq k j ≡ false
        → nat_beq a b ≡ false)
    → ((j : Bytes) → contains keys j ≡ true → via key_to_id values j ≡ f j)
    → drain_values keys key_to_id values ≡ map f keys
unfolding drain_values
drain_values-via f [] key_to_id values d inj h = refl
drain_values-via f (k ∷ ks) key_to_id values d inj h = elim (Option-cases (lookup k key_to_id)) [
  | inl e ↦ ground (
    arith,
    e,
    h k,
    bytes_beq_iff k k,
    drain_values-via f ks key_to_id values (ground arith) inj' (λ j c. h j (ground arith)),
  )
  | inr (id, e) ↦ ground (
    arith,
    e,
    h k,
    bytes_beq_iff k k,
    drain_values-via f ks key_to_id (remove id values) (ground arith) inj' (rest id e),
  )
]
  where
    inj' :
        (i j : Bytes) (a b : ℕ)
        → contains ks i ≡ true
        → contains ks j ≡ true
        → lookup i key_to_id ≡ some a
        → lookup j key_to_id ≡ some b
        → bytes_beq i j ≡ false
        → nat_beq a b ≡ false
    inj' i j a b ci cj = inj i j a b (ground arith) (ground arith)

    rest :
        (id : ℕ)
        → lookup k key_to_id ≡ some id
        → (j : Bytes) → contains ks j ≡ true
        → via key_to_id (remove id values) j ≡ f j
    rest id e j c = elim (Option-cases (lookup j key_to_id)) [
      | inl g ↦ ground (arith, g, h j)
      | inr (a, g) ↦ ground (
        arith,
        g,
        h j,
        lookup-remove id a values,
        inj k j id a,
        bytes_beq_iff k k,
        contains-ne ks j k c,
      )
    ]

drain_values-nil :
    (keys : List Bytes) (values : List (ℕ × Option Bytes))
    → drain_values keys [] values ≡ map (λ _. none) keys
unfolding drain_values lookup
drain_values-nil [] values = refl
drain_values-nil (k ∷ ks) values = ap (◌∷◌ none) (drain_values-nil ks values)

module _ (n m : ℕ) (db : Db) (keys : List Bytes) (h : IsHistory m db) where
  key_to_id : List (Bytes × ℕ)
  key_to_id = fill_ids (filter (λ (row : LocalKeyRow). contains keys row.key) db.local_keys) []

  values : List (ℕ × Option Bytes)
  values =
      fill_values
        (filter (λ (row : LocalValueRow). contains (ids key_to_id) row.key_id && is_valid_at n row)
          db.local_values)
        []

  lookup-key_to_id :
      (j : Bytes) → contains keys j ≡ true → lookup j key_to_id ≡ id_of (find_key j db.local_keys)
  unfolding key_to_id lookup
  lookup-key_to_id j c =
      lookup-fill_ids db.next_key_id j keys db.local_keys [] h.indexed c
      ∙ or_else-none (id_of (find_key j db.local_keys))

  lookup-values :
      (j : Bytes) (id : ℕ)
      → lookup j key_to_id ≡ some id
      → lookup id values ≡ value_at id n db.local_values
  unfolding values lookup
  lookup-values j id e =
      lookup-fill_values (ids key_to_id) id n db.local_values [] (lookup-ids j id key_to_id e)
        (h.single id n)
      ∙ or_else-none (value_at id n db.local_values)

  via-key_to_id :
      (j : Bytes)
      → contains keys j ≡ true
      → via key_to_id values j ≡ get_local_value_at_block db j n
  unfolding get_local_value_at_block
  via-key_to_id j c = elim (Option-cases (find_key j db.local_keys)) [
    | inl e ↦ ground (arith, lookup-key_to_id j c, e)
    | inr (row, e) ↦ ground (arith, lookup-key_to_id j c, e, lookup-values j row.id)
  ]

  key_to_id-ne :
      (k j : Bytes) (a b : ℕ)
      → contains keys k ≡ true
      → contains keys j ≡ true
      → lookup k key_to_id ≡ some a
      → lookup j key_to_id ≡ some b
      → bytes_beq k j ≡ false
      → nat_beq a b ≡ false
  key_to_id-ne k j a b ck cj ek ej d =
      key_ids (find_key k db.local_keys) (find_key j db.local_keys) refl refl
    where
      key_ids :
          (o p : Option LocalKeyRow)
          → find_key k db.local_keys ≡ o
          → find_key j db.local_keys ≡ p
          → nat_beq a b ≡ false
      key_ids (some r) (some s) ek' ej' = ground (
        arith,
        lookup-key_to_id k ck,
        lookup-key_to_id j cj,
        find_key-ne db.next_key_id k j db.local_keys r s h.indexed ek' ej' d,
      )
      key_ids none q ek' ej' = ground (arith, lookup-key_to_id k ck)
      key_ids (some r) none ek' ej' = ground (arith, lookup-key_to_id j cj)

  drained :
      has_duplicates keys ≡ false
      → drain_values keys key_to_id values ≡ map (λ j. get_local_value_at_block db j n) keys
  drained d = drain_values-via _ keys key_to_id values d key_to_id-ne via-key_to_id

  answered :
      (found : List (Bytes × ℕ))
      → key_to_id ≡ found
      → has_duplicates keys ≡ false
      → elim found [ [] ↦ ok (map (λ _. none) keys) | other ↦ ok (drain_values keys other values) ]
        ≡ ok (map (λ j. get_local_value_at_block db j n) keys)
  answered [] e d = ap ok (
      sym (drain_values-nil keys values) ∙ ap (λ t. drain_values keys t values) (sym e) ∙ drained d)
  answered (x ∷ xs) e d = ap ok (ap (λ t. drain_values keys t values) (sym e) ∙ drained d)

-- In a valid history, and with distinct keys, the batch query answers for each key, in the order of
-- the keys, what the single query answers.
pub get_local_values_at_block_batch_lem :
    (n m : ℕ) (db : Db) (keys : List Bytes)
    → IsHistory m db
    → has_duplicates keys ≡ false
    → get_local_values_at_block_batch db keys n
      ≡ ok (map (λ k. get_local_value_at_block db k n) keys)
unfolding get_local_values_at_block_batch key_to_id values
get_local_values_at_block_batch_lem n m db [] h d = refl
get_local_values_at_block_batch_lem n m db (k ∷ ks) h d =
    rw d (answered n m db (k ∷ ks) h (key_to_id n m db (k ∷ ks) h) refl d)
