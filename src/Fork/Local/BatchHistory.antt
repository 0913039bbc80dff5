-- ===== src/Fork/Local/BatchHistory.antt =====
-- `get_batch` and `get` of the local layer at the blocks between the fork point and the one being
-- built.
use pop_cli.Prelude.{
  ℕ, ◌<◌, ◌≡◌, refl, ◌∙◌, ap, true, false, List, [], ◌∷◌, map, Option, none, some, arith, nat_beq,
  has_duplicates,
}
use mathlib.Core.Path.{subst}
use pop_cli.Bytes.{Bytes, bytes_eq}
use pop_cli.Fork.Monad.{returns, lift, Ensures, returned, weaken-Ensures}
use pop_cli.Fork.Rpc.{Rpc, IsHonest}
use pop_cli.Fork.Cache.Tables.{Db}
use pop_cli.Fork.Cache.History.{get_local_value_at_block}
use pop_cli.Fork.Cache.History.Invariant.{IsHistory}
use pop_cli.Fork.Cache.History.Batch.{get_local_values_at_block_batch_lem}
use pop_cli.Fork.Remote.{Env}
use pop_cli.Fork.Remote.Sound.{IsCacheOf, Kept}
use pop_cli.Fork.Local.{
  LocalSharedValue, Layer, get_local_modification, of_cache, pushed, non_local, scatter, indices_of,
  keys_of, is_historical, from_history, get_batch, get, get_with, get_historical,
}
use pop_cli.Fork.Local.Timeline.{over}
use pop_cli.Fork.Local.Refine.{value_of, SameHistory_refl}
use pop_cli.Fork.Local.BatchReads.{base_lem, complete_lem, completed, map-of_cache}
use pop_cli.Fork.Local.BatchReads.Merge.{merged, scatter-merged, non_local-distinct, all_local}

-- A single read at a block between the fork point and the one being built.
abbrev pub historical_view :
    {rpc : Rpc} → (Bytes → Option Bytes) → Layer rpc → Db → ℕ → Bytes → Option Bytes
historical_view base layer db b k = elim (get_local_modification layer k b) [
  | some found ↦ value_of found
  | none ↦ over (get_local_value_at_block db k b) (base k)
]

-- A batch read there: for a key under a deleted prefix it asks the state of the fork point.
abbrev pub historical_batch_view :
    {rpc : Rpc} → (Bytes → Option Bytes) → Layer rpc → Db → ℕ → Bytes → Option Bytes
historical_batch_view base layer db b k = elim (get_local_modification layer k b) [
  | some found ↦ elim found [ some v ↦ v.value | none ↦ base k ]
  | none ↦ over (get_local_value_at_block db k b) (base k)
]

module _ {rpc : Rpc} {chain : Bytes → Bytes → Option Bytes} {Fails : Type 0}
    (honest : IsHonest rpc chain Fails) (layer : Layer rpc) (b : ℕ)
    (after_fork : layer.first_forked_block_number < b)
    (before : b < layer.current_block_number) where
  abbrev base : Bytes → Option Bytes
  base = chain layer.first_forked_block_hash

  abbrev modified : Bytes → Option (Option LocalSharedValue)
  modified k = get_local_modification layer k b

  not_latest : nat_beq b layer.current_block_number ≡ false
  not_latest = ground (arith, before)

  historical : is_historical layer.first_forked_block_number layer.current_block_number b ≡ true
  historical = ground (arith, before, after_fork)

  get_at :
      (k : Bytes) (env : Env rpc)
      → IsCacheOf chain env.db
      → Ensures
          (λ o s. (value_of o ≡ historical_view base layer env.db b k) × Kept chain env.db s.db)
          (λ s. Fails × Kept chain env.db s.db)
          (get rpc layer b k env)
  unfolding get
  get_at k env c = go (modified k)
    where
      missed :
          (h : Option (Option Bytes))
          → Ensures
              (λ r s. (value_of r ≡ over h (base k)) × Kept chain env.db s.db)
              (λ s. Fails × Kept chain env.db s.db)
              (get_historical rpc layer k h env)
      missed none = base_lem honest layer env.db k env (c, SameHistory_refl env.db)
      missed (some v) = returned (refl, (c, SameHistory_refl env.db))

      go :
          (o : Option (Option LocalSharedValue))
          → Ensures
              (λ r s.
                (value_of r ≡ elim o [
                  | some found ↦ value_of found
                  | none ↦ over (get_local_value_at_block env.db k b) (base k)
                ])
                × Kept chain env.db s.db)
              (λ s. Fails × Kept chain env.db s.db)
              (get_with rpc o layer b k env)
      go (some found) = returned (refl, (c, SameHistory_refl env.db))
      go none = rw (not_latest, historical) (missed (get_local_value_at_block env.db k b))

  found_in : Db → Bytes → Option LocalSharedValue
  found_in db k = of_cache (get_local_value_at_block db k b)

  from_history_lem :
      (m : ℕ) (keys : List Bytes) (env : Env rpc)
      → IsHistory m env.db
      → has_duplicates keys ≡ false
      → from_history rpc b
          (map pushed (map modified keys))
          (non_local 0 keys (map modified keys))
          env
        ≡ returns (map (merged modified (found_in env.db)) keys) env
  unfolding from_history found_in
  from_history_lem m keys env h d = go (non_local 0 keys (map modified keys)) refl
    where
      go :
          (entries : List (ℕ × Bytes))
          → non_local 0 keys (map modified keys) ≡ entries
          → from_history rpc b (map pushed (map modified keys)) entries env
            ≡ returns (map (merged modified (found_in env.db)) keys) env
      go [] e = ap (λ os. returns os env) (all_local modified (found_in env.db) 0 keys e)
      go (x ∷ entries) e =
          rw
            (get_local_values_at_block_batch_lem b m env.db (keys_of (x ∷ entries)) h (
              subst (λ es. has_duplicates (keys_of es) ≡ false) e
                (non_local-distinct 0 keys (map modified keys) d)))
            (subst
              (λ es.
                lift
                  (scatter (map pushed (map modified keys)) (indices_of es)
                    (map of_cache (map (λ k. get_local_value_at_block env.db k b) (keys_of es))))
                  env
                ≡ returns (map (merged modified (found_in env.db)) keys) env)
              e
              (rw (
                map-of_cache (λ k. get_local_value_at_block env.db k b)
                    (keys_of (non_local 0 keys (map modified keys))),
                scatter-merged modified (found_in env.db) keys,
              )))

  batch_values :
      (db : Db) (keys : List Bytes)
      → map (completed base (merged modified (found_in db))) keys
        ≡ map (historical_batch_view base layer db b) keys
  unfolding found_in
  batch_values db [] = refl
  batch_values db (k ∷ ks) =
      ground (arith, go (modified k) (get_local_value_at_block db k b), batch_values db ks)
    where
      go :
          (o : Option (Option LocalSharedValue)) (h : Option (Option Bytes))
          → completed base (λ _. elim o [ some found ↦ found | none ↦ of_cache h ]) k ≡ elim o [
            | some found ↦ elim found [ some v ↦ v.value | none ↦ base k ]
            | none ↦ over h (base k)
          ]
      go none none = refl
      go none (some v) = refl
      go (some none) h = refl
      go (some (some v)) h = refl

  -- At a block between the fork point and the one being built, with a valid history: a single read
  -- gives the local modification that is valid there, nothing for a key under a deleted prefix, else
  -- the recorded value, else the state of the fork point; a batch read of distinct keys gives the
  -- same for each key, except that a key under a deleted prefix has the state of the fork point. A
  -- read fails only if the node lets it.
  pub get_batch-historical :
      (m : ℕ) (k : Bytes) (keys : List Bytes) (env : Env rpc)
      → IsHistory m env.db
      → IsCacheOf chain env.db
      → has_duplicates keys ≡ false
      → Ensures
          (λ o s.
            (value_of o ≡ historical_view (chain layer.first_forked_block_hash) layer env.db b k)
            × Kept chain env.db s.db)
          (λ s. Fails × Kept chain env.db s.db)
          (get rpc layer b k env)
        × Ensures
            (λ os s.
              (map value_of os
                ≡ map
                    (historical_batch_view (chain layer.first_forked_block_hash) layer env.db b)
                    keys)
              × Kept chain env.db s.db)
            (λ s. Fails × Kept chain env.db s.db)
            (get_batch rpc layer b keys env)
  unfolding get_batch
  get_batch-historical m k [] env h c d =
      (get_at k env c, returned (refl, (c, SameHistory_refl env.db)))
  get_batch-historical m k (first ∷ others) env h c d =
      let keys = first ∷ others in
      (
        get_at k env c,
        rw (not_latest, historical, from_history_lem m keys env h d)
            (weaken-Ensures
              (complete_lem honest layer env.db (merged modified (found_in env.db)) keys env
                (c, SameHistory_refl env.db))
              (λ os s q. (q.0 ∙ batch_values env.db keys, q.1)) (λ _ q. q)),
      )
