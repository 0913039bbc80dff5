-- ===== src/Fork/Local/Refine.antt =====
-- Reads and writes of the local layer against its contract.
use pop_cli.Prelude.{
  ℕ, ◌≤◌, ◌<◌, ◌≡◌, refl, sym, true, ◌||◌, Option, none, some, arith, nat_beq, ltb, if◌then◌else◌,
  Bool-cases, inl, inr,
}
use pop_cli.Bytes.{Bytes, bytes_beq, bytes_eq}
use pop_cli.Assoc.{lookup, lookup-insert}
use pop_cli.Fork.Monad.{Ensures, returned, after-Ensures, weaken-Ensures}
use pop_cli.Fork.Rpc.{Rpc, IsHonest}
use pop_cli.Fork.Cache.Tables.{Db}
use pop_cli.Fork.Cache.History.{get_local_value_at_block}
use pop_cli.Fork.Remote.{Env}
use pop_cli.Fork.Remote.Sound.{IsCacheOf, SameHistory, Kept}
use pop_cli.Fork.Remote.Sound.Reads.{get-chain}
use pop_cli.Fork.Local.{
  LocalSharedValue, Layer, modification_at, has_deleted_prefix, get_local_modification, of_remote,
  is_historical, get_base, get_historical, get_unmodified, get_with, get, set, insert_value,
}
use pop_cli.Fork.Local.Timeline.{
  Timeline, write, over, observe, Refines, Refines-same, insert-IsMap,
}

abbrev pub value_of : Option LocalSharedValue → Option Bytes
value_of none = none
value_of (some v) = v.value

abbrev pub SameHistory_refl : (db : Db) → SameHistory db db
SameHistory_refl db = record { same_keys = refl; same_values = refl; same_next = refl }

module _ {rpc : Rpc} {chain : Bytes → Bytes → Option Bytes} {Fails : Type 0}
    (honest : IsHonest rpc chain Fails) (layer : Layer rpc) (env : Env rpc)
    (cached : IsCacheOf chain env.db) where
  -- The base is the state of the fork point.
  abbrev base : Bytes → Option Bytes
  base = chain layer.first_forked_block_hash

  -- A read has the value `v`, and keeps what the database is of.
  abbrev pub Reads : Option Bytes → Option LocalSharedValue → Env rpc → Type 0
  Reads v o s = (value_of o ≡ v) × Kept chain env.db s.db

  abbrev pub Lost : Env rpc → Type 0
  Lost s = Fails × Kept chain env.db s.db

  get_base_lem : (k : Bytes) → Ensures (Reads (base k)) Lost (get_base rpc layer k env)
  unfolding get_base
  get_base_lem k =
      after-Ensures _
        (get-chain honest env.db layer.first_forked_block_hash k env
          (cached, SameHistory_refl env.db))
        (λ v s q. returned (read v q.0, q.1))
    where
      read : (v : Option Bytes) → v ≡ base k → value_of (of_remote v) ≡ base k
      read none e = e
      read (some v) e = e

  get_historical_lem :
      (k : Bytes) (o : Option (Option Bytes))
      → Ensures (Reads (over o (base k))) Lost (get_historical rpc layer k o env)
  unfolding get_historical
  get_historical_lem k none = get_base_lem k
  get_historical_lem k (some v) = returned (refl, (cached, SameHistory_refl env.db))

  module _ (t : Timeline) (refines : Refines layer env.db t) where
    get_unmodified_lem :
        (b : ℕ) (k : Bytes)
        → layer.first_forked_block_number < b
        → b ≤ t.now
        → (b ≡ t.now → t.writes k ≡ none)
        → Ensures (Reads (observe base t b k)) Lost (get_unmodified rpc layer b k env)
    unfolding get_unmodified
    get_unmodified_lem b k l g w = elim (Bool-cases (nat_beq b t.now)) [
      | inl e ↦ rw (refines.same_now, e, w (ground arith)) (get_base_lem k)
      | inr e ↦
          let h : is_historical layer.first_forked_block_number t.now b ≡ true = ground arith in
          rw (refines.same_now, e, h, sym (refines.recorded b k l (ground arith)))
            (get_historical_lem k (get_local_value_at_block env.db k b))
    ]

    modified_lem :
        (b : ℕ) (k : Bytes) (v : LocalSharedValue)
        → layer.first_forked_block_number < b
        → b ≤ t.now
        → lookup k layer.modifications ≡ some (some v)
        → (nat_beq t.now b || ltb v.last_modification_block b) ≡ true
        → v.value ≡ observe base t b k
    modified_lem b k v l g e h = elim (Bool-cases (nat_beq b t.now)) [
      | inl now ↦ rw now (ground (arith, refines.written k))
      | inr past ↦
          rw (past, sym (refines.recorded b k l (ground arith)))
            (ground (arith, refines.committed k v b))
    ]

    -- A read at a block after the fork point, up to the one being built, ends with the value that
    -- the timeline shows there over the state of the fork point, or with an error that the node has
    -- let happen; either way the cache still agrees with the chain, and the timeline is unchanged.
    pub get-observe :
        (b : ℕ) (k : Bytes)
        → layer.first_forked_block_number < b
        → b ≤ t.now
        → Ensures
            (λ o s.
              (value_of o ≡ observe (chain layer.first_forked_block_hash) t b k)
              × IsCacheOf chain s.db
              × Refines layer s.db t)
            (λ s. Fails × IsCacheOf chain s.db × Refines layer s.db t)
            (get rpc layer b k env)
    unfolding get get_local_modification
    get-observe b k l g =
        weaken-Ensures (go (lookup k layer.modifications) refl)
          (λ _ s q. (q.0, q.1.0, Refines-same layer env.db s.db t q.1.1 refines))
          (λ s q. (q.0, q.1.0, Refines-same layer env.db s.db t q.1.1 refines))
      where
        go :
            (o : Option (Option LocalSharedValue))
            → lookup k layer.modifications ≡ o
            → Ensures (Reads (observe base t b k)) Lost (
                get_with rpc
                  (modification_at layer.current_block_number b
                    (has_deleted_prefix layer.deleted_prefixes k)
                    o)
                  layer
                  b
                  k
                  env)
        go none e =
            rw refines.none_deleted
              (get_unmodified_lem b k l g (λ _. ground (arith, refines.written k)))
        go (some none) e = absurd (refines.never_none k e)
        go (some (some v)) e =
            elim (Bool-cases
              (nat_beq layer.current_block_number b || ltb v.last_modification_block b)) [
                | inl h ↦ rw h (
                    returned (
                      modified_lem b k v l g e (rw refines.same_now at h),
                      (cached, SameHistory_refl env.db),
                    ))
                | inr h ↦ rw h (
                    get_unmodified_lem b k l g
                      (λ x. absurd (ground (arith, refines.same_now, x, h))))
              ]

-- A write keeps the contract: the timeline has the value, a deletion included, at the block that is
-- being built, and its past is unchanged.
pub set-Refines :
    {rpc : Rpc} (layer : Layer rpc) (db : Db) (t : Timeline) (k : Bytes) (v : Option Bytes)
    → Refines layer db t
    → Refines (set layer k v) db (write t k v)
unfolding set
set-Refines layer db t k v r = record {
  same_now = r.same_now;
  after_fork = r.after_fork;
  history = r.history;
  none_deleted = r.none_deleted;
  unique = insert-IsMap k _ layer.modifications r.unique;
  written = λ j. ground (arith, inserted j, r.written j);
  never_none = λ j e. ground (arith, inserted j, r.never_none j);
  recorded = r.recorded;
  committed = λ j w b e l g. ground (arith, inserted j, r.committed j w b, r.same_now);
  bounded = λ j w e. ground (arith, inserted j, r.bounded j w, r.same_now, r.after_fork);
  untouched = λ j b e. ground (arith, inserted j, r.untouched j b);
}
  where
    new : LocalSharedValue
    new = record { last_modification_block = layer.current_block_number; value = v }

    inserted :
        (j : Bytes)
        → lookup j (insert_value layer.current_block_number k v layer.modifications)
          ≡ (if bytes_beq k j then some (some new) else lookup j layer.modifications)
    inserted j = lookup-insert k j (some new) layer.modifications
