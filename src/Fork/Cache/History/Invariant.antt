-- ===== src/Fork/Cache/History/Invariant.antt =====
-- The invariant of the two tables of the history, and what a write does to one lookup.
use pop_cli.Prelude.{
  ℕ, ◌+◌, ◌≤◌, ◌<◌, ◌≡◌, refl, true, false, ◌&&◌, ◌||◌, List, [], ◌∷◌, ◌++◌, map, Option, none,
  some, arith, if◌then◌else◌, find?, any, All, leb, nat_beq,
}
use pop_cli.Bytes.{Bytes, bytes_beq, bytes_beq_iff}
use pop_cli.Fork.Cache.Tables.{LocalKeyRow, LocalValueRow, Db}
use pop_cli.Fork.Cache.History.{is_valid_at, value_at, close_row}

abbrev pub find_key : Bytes → List LocalKeyRow → Option LocalKeyRow
find_key key = find? (λ (row : LocalKeyRow). bytes_beq row.key key)

-- Ids are below the counter, and no key and no id stands twice.
abbrev pub IsIndexed : ℕ → List LocalKeyRow → Type 0
IsIndexed next [] = Unit {0}
IsIndexed next (row ∷ rows) =
    (row.id < next)
    × (any (λ (r : LocalKeyRow). bytes_beq r.key row.key || nat_beq r.id row.id) rows ≡ false)
    × IsIndexed next rows

abbrev pub IsOwned : ℕ → List LocalValueRow → Type 0
IsOwned next = All (λ (row : LocalValueRow). row.key_id < next)

-- No range of validity ends after block `n`.
abbrev pub IsClosedBy : ℕ → List LocalValueRow → Type 0
IsClosedBy n =
    All (λ (row : LocalValueRow). elim row.valid_until [ none ↦ Unit {0} | some until ↦ until ≤ n ])

-- How many values of a key are valid at a block.
abbrev pub count_valid : ℕ → ℕ → List LocalValueRow → ℕ
count_valid id b [] = 0
count_valid id b (row ∷ rows) =
    (if nat_beq row.key_id id && is_valid_at b row then 1 else 0) + count_valid id b rows

pub record IsHistory (n : ℕ) (db : Db) : Type 0 where
  pub indexed : IsIndexed db.next_key_id db.local_keys
  pub owned : IsOwned db.next_key_id db.local_values
  pub closed : IsClosedBy n db.local_values
  pub single : (id b : ℕ) → count_valid id b db.local_values ≤ 1

pub IsClosedBy-mono :
    (n m : ℕ) (rows : List LocalValueRow) → n ≤ m → IsClosedBy n rows → IsClosedBy m rows
IsClosedBy-mono n m [] h c = tt
IsClosedBy-mono n m (row ∷ rows) h c = ground (arith, c.0, IsClosedBy-mono n m rows h c.1)

pub IsHistory-mono : (n m : ℕ) {db : Db} → n ≤ m → IsHistory n db → IsHistory m db
IsHistory-mono n m {db} h v = record {
  indexed = v.indexed;
  owned = v.owned;
  closed = IsClosedBy-mono n m db.local_values h v.closed;
  single = v.single;
}

-- Keys and ids.

pub find_key_below :
    (next : ℕ) (k : Bytes) (rows : List LocalKeyRow) (r : LocalKeyRow)
    → IsIndexed next rows
    → find_key k rows ≡ some r
    → r.id < next
find_key_below next k [] r h e = ground arith
find_key_below next k (row ∷ rows) r h e = ground (arith, find_key_below next k rows r h.2)

find_key_other_id :
    (k : Bytes) (id : ℕ) (j : Bytes) (rows : List LocalKeyRow) (r : LocalKeyRow)
    → any (λ (r : LocalKeyRow). bytes_beq r.key j || nat_beq r.id id) rows ≡ false
    → find_key k rows ≡ some r
    → nat_beq r.id id ≡ false
find_key_other_id k id j [] r h e = ground arith
find_key_other_id k id j (row ∷ rows) r h e = ground (arith, find_key_other_id k id j rows r)

-- Two keys have two ids.
pub find_key-ne :
    (next : ℕ) (k j : Bytes) (rows : List LocalKeyRow) (r s : LocalKeyRow)
    → IsIndexed next rows
    → find_key k rows ≡ some r
    → find_key j rows ≡ some s
    → bytes_beq k j ≡ false
    → nat_beq r.id s.id ≡ false
find_key-ne next k j [] r s h e f d = ground arith
find_key-ne next k j (row ∷ rows) r s h e f d = ground (
  arith,
  find_key-ne next k j rows r s h.2,
  find_key_other_id k row.id row.key rows r h.1,
  find_key_other_id j row.id row.key rows s h.1,
  bytes_beq_iff row.key k,
  bytes_beq_iff row.key j,
)

pub any-find_key :
    (k : Bytes) (rows : List LocalKeyRow)
    → any (λ (row : LocalKeyRow). bytes_beq row.key k) rows
      ≡ elim (find_key k rows) [ none ↦ false | some _ ↦ true ]
any-find_key k [] = refl
any-find_key k (row ∷ rows) = ground (arith, any-find_key k rows)

pub find_key-append :
    (key k : Bytes) (id : ℕ) (rows : List LocalKeyRow)
    → find_key key rows ≡ none
    → find_key k (rows ++ record { id = id; key = key } ∷ [])
      ≡ (if bytes_beq key k then some (record { id = id; key = key }) else find_key k rows)
find_key-append key k id [] e = ground arith
find_key-append key k id (row ∷ rows) e =
    ground (arith, find_key-append key k id rows, bytes_beq_iff key k, bytes_beq_iff row.key k)

any-append_fresh :
    (key : Bytes) (id : ℕ) (next : ℕ) (row : LocalKeyRow) (rows : List LocalKeyRow)
    → row.id < next
    → bytes_beq key row.key ≡ false
    → any (λ (r : LocalKeyRow). bytes_beq r.key row.key || nat_beq r.id row.id) rows ≡ false
    → any
        (λ (r : LocalKeyRow). bytes_beq r.key row.key || nat_beq r.id row.id)
        (rows ++ record { id = next; key = key } ∷ [])
      ≡ false
any-append_fresh key id next row [] l d h = ground arith
any-append_fresh key id next row (r ∷ rows) l d h =
    ground (arith, any-append_fresh key id next row rows l d)

IsIndexed-mono :
    (next : ℕ) (rows : List LocalKeyRow) → IsIndexed next rows → IsIndexed (next + 1) rows
IsIndexed-mono next [] h = tt
IsIndexed-mono next (row ∷ rows) h = (omega arith, h.1, IsIndexed-mono next rows h.2)

pub IsIndexed-append :
    (key : Bytes) (next : ℕ) (rows : List LocalKeyRow)
    → find_key key rows ≡ none
    → IsIndexed next rows
    → IsIndexed (next + 1) (rows ++ record { id = next; key = key } ∷ [])
IsIndexed-append key next [] e h = (omega arith, refl, tt)
IsIndexed-append key next (row ∷ rows) e h = (
  omega arith,
  any-append_fresh key 0 next row rows h.0
      (ground (arith, bytes_beq_iff key row.key, bytes_beq_iff row.key key)) h.1,
  IsIndexed-append key next rows (ground arith) h.2,
)

-- Values.

-- The value that a commit at block `n` writes is the one valid from `n` on; before `n`, and for the
-- other keys, nothing changes.
pub value_at-commit :
    (id n : ℕ) (v : Option Bytes) (id' b : ℕ) (rows : List LocalValueRow)
    → IsClosedBy n rows
    → value_at id' b (
        map (close_row id n) rows
        ++ record { key_id = id; value = v; valid_from = n; valid_until = none } ∷ [])
      ≡ (if nat_beq id id' && leb n b then some v else value_at id' b rows)
value_at-commit id n v id' b [] c = ground arith
value_at-commit id n v id' b (row ∷ rows) c =
    ground (arith, c.0, value_at-commit id n v id' b rows c.1)

pub value_at_fresh :
    (next b : ℕ) (rows : List LocalValueRow) → IsOwned next rows → value_at next b rows ≡ none
value_at_fresh next b [] o = refl
value_at_fresh next b (row ∷ rows) o = ground (arith, o.0, value_at_fresh next b rows o.1)

pub count_valid-commit :
    (id n : ℕ) (v : Option Bytes) (id' b : ℕ) (rows : List LocalValueRow)
    → IsClosedBy n rows
    → count_valid id' b (
        map (close_row id n) rows
        ++ record { key_id = id; value = v; valid_from = n; valid_until = none } ∷ [])
      ≡ (if nat_beq id id' && leb n b then 1 else count_valid id' b rows)
count_valid-commit id n v id' b [] c = ground arith
count_valid-commit id n v id' b (row ∷ rows) c =
    ground (arith, c.0, count_valid-commit id n v id' b rows c.1)

pub IsOwned-commit :
    (next id n : ℕ) (v : Option Bytes) (rows : List LocalValueRow)
    → id < next
    → IsOwned next rows
    → IsOwned next (
        map (close_row id n) rows
        ++ record { key_id = id; value = v; valid_from = n; valid_until = none } ∷ [])
IsOwned-commit next id n v [] l o = (l, tt)
IsOwned-commit next id n v (row ∷ rows) l o =
    ground (arith, o.0, IsOwned-commit next id n v rows l o.1)

pub IsClosedBy-commit :
    (id n : ℕ) (v : Option Bytes) (rows : List LocalValueRow)
    → IsClosedBy n rows
    → IsClosedBy n (
        map (close_row id n) rows
        ++ record { key_id = id; value = v; valid_from = n; valid_until = none } ∷ [])
IsClosedBy-commit id n v [] c = (tt, tt)
IsClosedBy-commit id n v (row ∷ rows) c = ground (arith, c.0, IsClosedBy-commit id n v rows c.1)

pub IsOwned-mono :
    (next : ℕ) (rows : List LocalValueRow) → IsOwned next rows → IsOwned (next + 1) rows
IsOwned-mono next [] o = tt
IsOwned-mono next (row ∷ rows) o = (omega arith, IsOwned-mono next rows o.1)

pub find_key_absent :
    (k : Bytes) (id : ℕ) (rows : List LocalKeyRow)
    → any (λ (r : LocalKeyRow). bytes_beq r.key k || nat_beq r.id id) rows ≡ false
    → find_key k rows ≡ none
find_key_absent k id [] h = refl
find_key_absent k id (row ∷ rows) h = ground (arith, find_key_absent k id rows)
