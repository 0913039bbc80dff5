-- ===== src/Fork/Local/Listing.antt =====
-- The keys that are listed against what a read of the fork finds.
use pop_cli.Prelude.{
  ℕ, ◌≡◌, ◌≢◌, refl, ◌∙◌, Bool, true, false, not, ◌||◌, ◌&&◌, List, [], ◌∷◌, Option, none, some,
  arith, filter, contains, nat_beq_refl,
}
use pop_cli.Bytes.{Bytes, starts_with, bytes_beq_iff, bytes_eq}
use pop_cli.Assoc.{lookup, set_extend, contains-set_extend}
use pop_cli.Fork.Rpc.{Rpc}
use pop_cli.Fork.Cache.Tables.{Db}
use pop_cli.Fork.Cache.Prefix.Laws.{IsBytes}
use pop_cli.Fork.Cache.History.{
  get_local_keys_at_block, get_local_deleted_keys_at_block, get_local_value_at_block, is_null,
  is_not_null,
}
use pop_cli.Fork.Cache.History.Invariant.{IsHistory}
use pop_cli.Fork.Cache.History.Listing.{contains-filter, test_value, local_keys_lem}
use pop_cli.Fork.Local.{
  LocalSharedValue, Modifications, Layer, has_deleted_prefix, modification_at,
  get_local_modification, is_deletion, has_live_value, live_keys, merge_keys_with_in_memory,
  merge_keys_with_cache,
}
use pop_cli.Fork.Local.Timeline.{IsMap}
use pop_cli.Fork.Local.Refine.{value_of}

abbrev pub exists_value : Option Bytes → Bool
exists_value none = false
exists_value (some _) = true

abbrev is_live : Option (Option LocalSharedValue) → Bool
is_live none = false
is_live (some entry) = has_live_value entry

contains-live_keys :
    (p k : Bytes) (m : Modifications)
    → IsMap m
    → contains (live_keys p m) k ≡ (starts_with k p && is_live (lookup k m))
unfolding live_keys lookup
contains-live_keys p k [] u = ground arith
contains-live_keys p k ((j, e) ∷ m) u =
    ground (arith, contains-live_keys p k m u.1, bytes_beq_iff j k)

module _ {rpc : Rpc} (layer : Layer rpc) (p k : Bytes) where
  is_kept : Bytes → Bool
  is_kept j =
      not (has_deleted_prefix layer.deleted_prefixes j)
      && not (is_deletion (lookup j layer.modifications))

  contains-merge :
      (remote : List Bytes)
      → IsMap layer.modifications
      → contains (merge_keys_with_in_memory layer remote p) k ≡ (
          (is_kept k && contains remote k)
          || (starts_with k p && is_live (lookup k layer.modifications)))
  unfolding merge_keys_with_in_memory is_kept
  contains-merge remote u =
      rw
        (
          contains-set_extend k (set_extend [] (filter is_kept remote))
              (live_keys p layer.modifications),
          contains-set_extend k [] (filter is_kept remote),
          contains-filter is_kept k remote,
          contains-live_keys p k layer.modifications u,
        )
        refl

  -- At the latest block, whatever keys the remote layer lists: a key with the prefix is listed when the
  -- read of what was written on the fork, deleted prefixes included, finds a value, or when it finds
  -- nothing and the remote layer lists the key. The map has each key once, and for the key no entry
  -- without a record, as no write makes one.
  pub merge_keys_with_in_memory_lem :
      (remote : List Bytes)
      → IsMap layer.modifications
      → starts_with k p ≡ true
      → lookup k layer.modifications ≢ some none
      → contains (merge_keys_with_in_memory layer remote p) k
        ≡ (elim (get_local_modification layer k layer.current_block_number) [
          | some found ↦ exists_value (value_of found)
          | none ↦ contains remote k
        ])
  unfolding is_kept get_local_modification
  merge_keys_with_in_memory_lem remote u s ne =
      contains-merge remote u
      ∙ rw s (
          go layer.current_block_number (has_deleted_prefix layer.deleted_prefixes k)
            (contains remote k) (lookup k layer.modifications) ne)
    where
      go :
          (n : ℕ) (d r : Bool) (o : Option (Option LocalSharedValue))
          → o ≢ some none
          → (((not d && not (is_deletion o)) && r) || (true && is_live o))
            ≡ (elim (modification_at n n d o) [
              | some found ↦ exists_value (value_of found)
              | none ↦ r
            ])
      go n true r none h = ground arith
      go n false r none h = ground arith
      go n d r (some none) h = ground arith
      go n d r (some (some w)) h = rw (nat_beq_refl n) (live d r w.value)
        where
          live :
              (d r : Bool) (w : Option Bytes)
              → (((not d && not (elim w [ none ↦ true | some _ ↦ false ])) && r)
                  || (true && elim w [ none ↦ false | some _ ↦ true ]))
                ≡ exists_value w
          live d r none = ground arith
          live d r (some w) = ground arith

-- At an earlier block, whatever keys the remote layer lists: a key with the prefix is listed when the
-- history has a value for it at that block, or when it has nothing and the remote layer lists the key.
-- Deleted prefixes play no part. The history is one that commits lead to, and the key one of bytes.
pub merge_keys_with_cache_lem :
    (now : ℕ) (db : Db) (remote : List Bytes) (p k : Bytes) (b : ℕ)
    → IsHistory now db
    → IsBytes k
    → starts_with k p ≡ true
    → contains (merge_keys_with_cache db remote p b) k ≡ (elim (get_local_value_at_block db k b) [
      | some v ↦ exists_value v
      | none ↦ contains remote k
    ])
unfolding merge_keys_with_cache
merge_keys_with_cache_lem now db remote p k b history bytes s =
    let deleted = get_local_deleted_keys_at_block db p b in
    let kept = filter (λ j. not (contains deleted j)) remote in
    let live = get_local_keys_at_block db p b in
    rw
      (
        contains-set_extend k (set_extend [] kept) live,
        contains-set_extend k [] kept,
        contains-filter (λ j. not (contains deleted j)) k remote,
        (local_keys_lem b now db p k history bytes).0,
        (local_keys_lem b now db p k history bytes).1,
        s,
      )
      (go (contains remote k) (get_local_value_at_block db k b))
  where
    go :
        (r : Bool) (o : Option (Option Bytes))
        → ((not (true && test_value is_null o) && r) || (true && test_value is_not_null o))
          ≡ (elim o [ some v ↦ exists_value v | none ↦ r ])
    go r none = ground arith
    go r (some none) = ground arith
    go r (some (some w)) = ground arith
