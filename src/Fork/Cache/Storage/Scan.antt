-- ===== src/Fork/Cache/Storage/Scan.antt =====
-- The queries by prefix.
use pop_cli.Prelude.{
  ◌≡◌, refl, ◌∙◌, sym, ap, Bool, true, false, not, ◌&&◌, List, [], ◌∷◌, map, Option, none, some,
  arith, if◌then◌else◌, filter, All, contains, Bool-cases, inl, inr,
}
use pop_cli.Bytes.{
  Bytes, bytes_beq, bytes_beq_iff, bytes_eq, starts_with, lt_bytes, lt_bytes_irrefl, lt_bytes_asymm,
  lt_bytes-false_trans,
}
use pop_cli.Fork.Cache.Tables.{StorageRow, Db}
use pop_cli.Fork.Cache.Prefix.{increment_prefix, in_range}
use pop_cli.Fork.Cache.Prefix.Laws.{
  IsBytes, increment_prefix-prefix_upper_bound, in_range-prefix_upper_bound,
}
use pop_cli.Fork.Cache.Storage.{
  is_none, get_storage, get_keys_by_prefix, prefix_rows, next_key_from_cache, least_key,
}
use pop_cli.Fork.Cache.Storage.Laws.{read, IsKeyed}

abbrev pub is_some {ℓ} : {A : Type ℓ} → Option A → Bool
is_some none = false
is_some (some _) = true

abbrev pub HasByteKeys : List StorageRow → Type 0
HasByteKeys = All (λ (row : StorageRow). IsBytes row.key)

pub in_range-increment_prefix :
    (p k : Bytes) → IsBytes k → in_range (increment_prefix p) p k ≡ starts_with k p
in_range-increment_prefix p k h =
    rw (increment_prefix-prefix_upper_bound p) (in_range-prefix_upper_bound p k h)

contains-prefix_rows :
    (h p k : Bytes) (rows : List StorageRow)
    → HasByteKeys rows
    → contains
        (map
          (λ (row : StorageRow). row.key)
          (filter
            (λ (row : StorageRow).
              bytes_beq row.block_hash h && in_range (increment_prefix p) p row.key)
            rows))
        k
      ≡ (starts_with k p && is_some (read h k rows))
contains-prefix_rows h p k [] b = ground arith
contains-prefix_rows h p k (row ∷ rows) b = ground (
  arith,
  contains-prefix_rows h p k rows b.1,
  in_range-increment_prefix p row.key b.0,
  bytes_beq_iff row.key k,
)

-- The keys that the cache lists for a prefix are exactly the keys with that prefix that the cache
-- knows for the block, those that it knows to have no value included.
pub get_keys_by_prefix_lem :
    (db : Db) (h p k : Bytes)
    → HasByteKeys db.storage
    → contains (get_keys_by_prefix db h p) k ≡ (starts_with k p && is_some (get_storage db h k))
unfolding get_keys_by_prefix get_storage
get_keys_by_prefix_lem db h p k b = contains-prefix_rows h p k db.storage b

-- A least element, and none only of the empty list.
abbrev pub Least : List Bytes → Option Bytes → Type 0
Least ks none = ks ≡ []
Least ks (some m) =
    (contains ks m ≡ true) × ((j : Bytes) → contains ks j ≡ true → lt_bytes j m ≡ false)

Least-step :
    (k m : Bytes) (ks : List Bytes)
    → Least ks (some m)
    → Least (k ∷ ks) (if lt_bytes m k then some m else some k)
Least-step k m ks h = elim (Bool-cases (lt_bytes m k)) [
  | inl e ↦
      rw e
        (ground (arith, h.0), λ j c. ground (arith, h.1 j, lt_bytes_asymm m k e, bytes_beq_iff k j))
  | inr e ↦ rw e (
    ground (arith, bytes_beq_iff k k),
    λ j c. ground (arith, h.1 j, lt_bytes_irrefl k, lt_bytes-false_trans j m k, bytes_beq_iff k j),
  )
]

least_key-Least : (ks : List Bytes) → Least ks (least_key ks)
unfolding least_key
least_key-Least [] = refl
least_key-Least (k ∷ ks) = go (least_key ks) (least_key-Least ks)
  where
    go :
        (o : Option Bytes)
        → Least ks o
        → Least
            (k ∷ ks)
            (elim o [ none ↦ some k | some m ↦ if lt_bytes m k then some m else some k ])
    go none e = rw e (
      ground (arith, bytes_beq_iff k k),
      λ j c. ground (arith, lt_bytes_irrefl k, bytes_beq_iff k j),
    )
    go (some m) h = Least-step k m ks h

-- `is_empty` is set exactly on the rows with no value.
abbrev pub HasFlags : List StorageRow → Type 0
HasFlags = All (λ (row : StorageRow). row.is_empty ≡ is_none row.value)

abbrev pub has_value : Option (Option Bytes) → Bool
has_value (some (some _)) = true
has_value _ = false

contains-live_rows :
    (h p k key : Bytes) (rows : List StorageRow)
    → HasByteKeys rows
    → HasFlags rows
    → IsKeyed rows
    → contains
        (map
          (λ (row : StorageRow). row.key)
          (filter
            (λ (row : StorageRow). lt_bytes key row.key && not row.is_empty)
            (filter
              (λ (row : StorageRow).
                bytes_beq row.block_hash h && in_range (increment_prefix p) p row.key)
              rows)))
        k
      ≡ (starts_with k p && lt_bytes key k && has_value (read h k rows))
contains-live_rows h p k key [] b f u = ground arith
contains-live_rows h p k key (row ∷ rows) b f u = ground (
  arith,
  contains-live_rows h p k key rows b.1 f.1 u.1,
  in_range-increment_prefix p row.key b.0,
  bytes_beq_iff row.key k,
  bytes_beq_iff row.block_hash h,
)

-- The condition that the next key after `key` under a prefix has to meet.
abbrev pub is_next : Db → Bytes → Bytes → Bytes → Bytes → Bool
is_next db h p key k = starts_with k p && lt_bytes key k && has_value (get_storage db h k)

abbrev pub LeastNext : Db → Bytes → Bytes → Bytes → Option Bytes → Type 0
LeastNext db h p key none = (j : Bytes) → is_next db h p key j ≡ false
LeastNext db h p key (some k) =
    (is_next db h p key k ≡ true)
    × ((j : Bytes) → is_next db h p key j ≡ true → lt_bytes j k ≡ false)

-- The next key from the cache is the least key above `key` that has the prefix and a cached value;
-- there is no answer exactly when there is no such key.
pub next_key_from_cache-LeastNext :
    (db : Db) (h p key : Bytes)
    → HasByteKeys db.storage
    → HasFlags db.storage
    → IsKeyed db.storage
    → LeastNext db h p key (next_key_from_cache db h p key)
unfolding next_key_from_cache get_storage
next_key_from_cache-LeastNext db h p key b f u = go _ (least_key-Least keys)
  where
    keys : List Bytes
    keys =
        map (λ (row : StorageRow). row.key)
          (filter (λ (row : StorageRow). lt_bytes key row.key && not row.is_empty)
            (prefix_rows db h p))

    go : (o : Option Bytes) → Least keys o → LeastNext db h p key o
    go none e =
        λ j. sym (contains-live_rows h p j key db.storage b f u) ∙ ap (λ ks. contains ks j) e
    go (some k) l = (
      sym (contains-live_rows h p k key db.storage b f u) ∙ l.0,
      λ j n. l.1 j (contains-live_rows h p j key db.storage b f u ∙ n),
    )
