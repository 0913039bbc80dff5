-- ===== src/Fork/Local/Timeline.antt =====
-- The contract of the local layer: a timeline of written values over the state of the fork point,
-- and the invariant that ties a layer and its database to it.
use pop_cli.Prelude.{
  ℕ, ◌+◌, ◌≤◌, ◌<◌, ◌≡◌, ◌≢◌, refl, ◌∙◌, false, [], ◌∷◌, Option, none, some, arith, nat_beq,
  if◌then◌else◌,
}
use pop_cli.Bytes.{Bytes, bytes_beq, bytes_beq_iff, bytes_eq}
use pop_cli.Assoc.{lookup, insert, lookup-insert}
use pop_cli.Fork.Rpc.{Rpc}
use pop_cli.Fork.Cache.Tables.{Db}
use pop_cli.Fork.Cache.History.{get_local_value_at_block}
use pop_cli.Fork.Cache.History.Invariant.{IsHistory}
use pop_cli.Fork.Remote.Sound.{SameHistory}
use pop_cli.Fork.Local.{LocalSharedValue, Modifications, Layer}

-- `writes` is what was written since the fork, `past` what had been written when a block was
-- committed; `some none` is a deletion.
pub record Timeline : Type 0 where
  pub now : ℕ
  pub writes : Bytes → Option (Option Bytes)
  pub past : ℕ → Bytes → Option (Option Bytes)

abbrev pub write : Timeline → Bytes → Option Bytes → Timeline
write t k v = record t { writes = λ j. if bytes_beq k j then some v else t.writes j }

-- A commit: what is written becomes the past of the block, and the next block begins.
abbrev pub seal : Timeline → Timeline
seal t = record t {
  now = t.now + 1;
  past = λ b j. if nat_beq b t.now then t.writes j else t.past b j;
}

abbrev pub over : Option (Option Bytes) → Option Bytes → Option Bytes
over none base = base
over (some v) base = v

-- What a read at a block after the fork sees over the state `base` of the fork point.
abbrev pub observe : (Bytes → Option Bytes) → Timeline → ℕ → Bytes → Option Bytes
observe base t b k = over (if nat_beq b t.now then t.writes k else t.past b k) (base k)

abbrev pub entry_value : Option (Option LocalSharedValue) → Option (Option Bytes)
entry_value none = none
entry_value (some none) = none
entry_value (some (some v)) = some v.value

-- No key stands twice.
abbrev pub IsMap : Modifications → Type 0
IsMap [] = Unit {0}
IsMap ((k, e) ∷ m) = (lookup k m ≡ none) × IsMap m

pub record Refines {rpc : Rpc} (layer : Layer rpc) (db : Db) (t : Timeline) : Type 0 where
  pub same_now : layer.current_block_number ≡ t.now
  pub after_fork : layer.first_forked_block_number < t.now
  pub history : IsHistory t.now db
  pub none_deleted : layer.deleted_prefixes ≡ []
  pub unique : IsMap layer.modifications
  pub written : (k : Bytes) → entry_value (lookup k layer.modifications) ≡ t.writes k
  pub never_none : (k : Bytes) → lookup k layer.modifications ≢ some none
  pub recorded :
      (b : ℕ) (k : Bytes)
      → layer.first_forked_block_number < b
      → b < t.now
      → get_local_value_at_block db k b ≡ t.past b k
  pub committed :
      (k : Bytes) (v : LocalSharedValue) (b : ℕ)
      → lookup k layer.modifications ≡ some (some v)
      → v.last_modification_block < t.now
      → v.last_modification_block ≤ b
      → get_local_value_at_block db k b ≡ some v.value
  pub bounded :
      (k : Bytes) (v : LocalSharedValue)
      → lookup k layer.modifications ≡ some (some v)
      → (layer.first_forked_block_number < v.last_modification_block)
        × (v.last_modification_block ≤ t.now)
  pub untouched :
      (k : Bytes) (b : ℕ)
      → lookup k layer.modifications ≡ none
      → get_local_value_at_block db k b ≡ none

pub same_value :
    (db db' : Db) (k : Bytes) (b : ℕ)
    → SameHistory db db'
    → get_local_value_at_block db' k b ≡ get_local_value_at_block db k b
unfolding get_local_value_at_block
same_value db db' k b s = rw (s.same_keys, s.same_values)

IsHistory-same : (n : ℕ) (db db' : Db) → SameHistory db db' → IsHistory n db → IsHistory n db'
IsHistory-same n db db' s h = record {
  indexed = rw (s.same_keys, s.same_next) h.indexed;
  owned = rw (s.same_values, s.same_next) h.owned;
  closed = rw s.same_values h.closed;
  single = rw s.same_values h.single;
}

-- The remote layer below leaves the contract alone.
pub Refines-same :
    {rpc : Rpc} (layer : Layer rpc) (db db' : Db) (t : Timeline)
    → SameHistory db db'
    → Refines layer db t
    → Refines layer db' t
Refines-same layer db db' t s r = record {
  same_now = r.same_now;
  after_fork = r.after_fork;
  history = IsHistory-same t.now db db' s r.history;
  none_deleted = r.none_deleted;
  unique = r.unique;
  written = r.written;
  never_none = r.never_none;
  recorded = λ b k l g. same_value db db' k b s ∙ r.recorded b k l g;
  committed = λ k v b e l g. same_value db db' k b s ∙ r.committed k v b e l g;
  bounded = r.bounded;
  untouched = λ k b e. same_value db db' k b s ∙ r.untouched k b e;
}

lookup-insert-none :
    (k j : Bytes) (e : Option LocalSharedValue) (m : Modifications)
    → bytes_beq k j ≡ false
    → lookup j m ≡ none
    → lookup j (insert k e m) ≡ none
lookup-insert-none k j e m d h = rw (lookup-insert k j e m, d) h

pub insert-IsMap :
    (k : Bytes) (e : Option LocalSharedValue) (m : Modifications) → IsMap m → IsMap (insert k e m)
unfolding insert lookup
insert-IsMap k e [] h = (refl, tt)
insert-IsMap k e ((j, x) ∷ m) h = ground (
  arith,
  bytes_beq_iff j k,
  bytes_beq_iff k j,
  lookup-insert-none k j e m,
  insert-IsMap k e m h.1,
)
