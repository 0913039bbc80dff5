-- ===== src/Fork/Cache/History/Commit.antt =====
-- `commit_local_changes` against the history of values that it stands for.
use pop_cli.Prelude.{
  ℕ, ◌+◌, ◌≡◌, refl, ◌&&◌, List, [], ◌∷◌, ◌++◌, Option, none, some, arith, if◌then◌else◌, leb, inl,
  inr, Option-cases,
}
use pop_cli.Bytes.{Bytes, bytes_beq, bytes_beq_iff}
use pop_cli.Fork.Result.{ok}
use pop_cli.Fork.Cache.Tables.{LocalKeyRow, Db}
use pop_cli.Fork.Cache.History.{
  insert_local_key, get_local_value_at_block, close_local_value, insert_local_value,
  commit_local_changes,
}
use pop_cli.Fork.Cache.History.Invariant.{
  find_key, IsHistory, find_key_below, find_key-ne, any-find_key, find_key-append, IsIndexed-append,
  value_at-commit, value_at_fresh, count_valid-commit, IsOwned-commit, IsClosedBy-commit,
  IsOwned-mono,
}

-- The key has a row after the upsert, and nothing that can be read has changed.
record Indexed (db : Db) (key : Bytes) (n : ℕ) (db' : Db) (r : LocalKeyRow) : Type 0 where
  selected : insert_local_key db key ≡ ok (db', r.id)
  found : find_key key db'.local_keys ≡ some r
  valid : IsHistory n db'
  same : (k : Bytes) (b : ℕ) → get_local_value_at_block db' k b ≡ get_local_value_at_block db k b

insert_local_key_lem :
    (n : ℕ) (db : Db) (key : Bytes)
    → IsHistory n db
    → (db' : Db) × (r : LocalKeyRow) × Indexed db key n db' r
unfolding insert_local_key get_local_value_at_block
insert_local_key_lem n db key v = elim (Option-cases (find_key key db.local_keys)) [
  | inr (r, e) ↦ (
    db,
    r,
    record {
      selected = ground (arith, any-find_key key db.local_keys);
      found = e;
      valid = v;
      same = λ k b. refl;
    },
  )
  | inl e ↦
      let row : LocalKeyRow = record { id = db.next_key_id; key = key } in
      let db' : Db = record db {
        local_keys = db.local_keys ++ row ∷ [];
        next_key_id = db.next_key_id + 1;
      } in
      (
        db',
        row,
        record {
          selected = ground (
            arith,
            any-find_key key db.local_keys,
            bytes_beq_iff key key,
            find_key-append key key db.next_key_id db.local_keys e,
          );
          found = ground (
            arith,
            bytes_beq_iff key key,
            find_key-append key key db.next_key_id db.local_keys e,
          );
          valid = record {
            indexed = IsIndexed-append key db.next_key_id db.local_keys e v.indexed;
            owned = IsOwned-mono db.next_key_id db.local_values v.owned;
            closed = v.closed;
            single = v.single;
          };
          same = λ k b. ground (
            arith,
            find_key-append key k db.next_key_id db.local_keys e,
            bytes_beq_iff key k,
            value_at_fresh db.next_key_id b db.local_values v.owned,
          );
        },
      )
]

-- Writing under an id that the key has.
commit_value-read :
    (n : ℕ) (db : Db) (key : Bytes) (r : LocalKeyRow) (v : Option Bytes) (k : Bytes) (b : ℕ)
    → IsHistory n db
    → find_key key db.local_keys ≡ some r
    → get_local_value_at_block (insert_local_value (close_local_value db r.id n) r.id v n) k b
      ≡ (if bytes_beq key k && leb n b then some v else get_local_value_at_block db k b)
unfolding get_local_value_at_block insert_local_value close_local_value
commit_value-read n db key r v k b h e = elim (Option-cases (find_key k db.local_keys)) [
  | inl g ↦ ground (arith, bytes_beq_iff key k)
  | inr (s, g) ↦ ground (
    arith,
    bytes_beq_iff key k,
    find_key-ne db.next_key_id key k db.local_keys r s h.indexed e g,
    value_at-commit r.id n v s.id b db.local_values h.closed,
  )
]

commit_value-IsHistory :
    (n : ℕ) (db : Db) (key : Bytes) (r : LocalKeyRow) (v : Option Bytes)
    → IsHistory n db
    → find_key key db.local_keys ≡ some r
    → IsHistory n (insert_local_value (close_local_value db r.id n) r.id v n)
unfolding insert_local_value close_local_value
commit_value-IsHistory n db key r v h e = record {
  indexed = h.indexed;
  owned =
      IsOwned-commit db.next_key_id r.id n v db.local_values
        (find_key_below db.next_key_id key db.local_keys r h.indexed e) h.owned;
  closed = IsClosedBy-commit r.id n v db.local_values h.closed;
  single = λ id b.
      ground (arith, count_valid-commit r.id n v id b db.local_values h.closed, h.single id b);
}

-- What a list of entries says of a key: the last entry counts.
unfoldable pub last_entry : Bytes → List (Bytes × Option Bytes) → Option (Option Bytes)
last_entry k [] = none
last_entry k ((j, v) ∷ entries) = elim (last_entry k entries) [
  | some w ↦ some w
  | none ↦ if bytes_beq j k then some v else none
]

-- The history after a commit at block `n`: from `n` on the entries, before it what there was.
abbrev pub committed :
    List (Bytes × Option Bytes) → ℕ → Bytes → ℕ → Option (Option Bytes) → Option (Option Bytes)
committed entries n k b before =
    if leb n b then elim (last_entry k entries) [ some v ↦ some v | none ↦ before ] else before

pub record Commits (db : Db) (entries : List (Bytes × Option Bytes)) (n : ℕ) (db' : Db)
    : Type 0 where
  pub succeeds : commit_local_changes db entries n ≡ ok db'
  pub valid : IsHistory n db'
  pub reads :
      (k : Bytes) (b : ℕ)
      → get_local_value_at_block db' k b ≡ committed entries n k b (get_local_value_at_block db k b)

-- From a valid history a commit of any entries at block `n` cannot fail: it leaves a valid history,
-- in which each key has from block `n` on the value of its last entry (a deletion included), and
-- has before `n`, or with no entry, the value that it had.
pub commit_local_changes-Commits :
    (n : ℕ) (db : Db) (entries : List (Bytes × Option Bytes))
    → IsHistory n db
    → (db' : Db) × Commits db entries n db'
unfolding commit_local_changes last_entry
commit_local_changes-Commits n db [] h =
    (db, record { succeeds = refl; valid = h; reads = λ k b. ground arith })
commit_local_changes-Commits n db ((key, v) ∷ entries) h =
    let (db₁, r, i) = insert_local_key_lem n db key h in
    let db₂ : Db = insert_local_value (close_local_value db₁ r.id n) r.id v n in
    let (db₃, c) =
      commit_local_changes-Commits n db₂ entries
        (commit_value-IsHistory n db₁ key r v i.valid i.found) in
    (
      db₃,
      record {
        succeeds = rw i.selected c.succeeds;
        valid = c.valid;
        reads = λ k b.
            ground
              (arith, c.reads k b, commit_value-read n db₁ key r v k b i.valid i.found, i.same k b);
      },
    )
