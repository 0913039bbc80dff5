-- ===== src/Fork/Local/BatchReads.antt =====
-- `get_batch` of the local layer against `get`, key by key, whatever prefixes are deleted.
pub mod Merge
use pop_cli.Prelude.{
  ℕ, zero, suc, ◌+◌, ◌≤◌, ◌<◌, ◌≡◌, refl, ◌∙◌, sym, ap, Bool, true, false, ◌&&◌, List, [], ◌∷◌, map,
  Option, none, some, arith, if◌then◌else◌, nat_beq, has_duplicates, nat_beq_refl, Option-cases,
  Bool-cases, inl, inr,
}
use mathlib.Core.Path.{subst}
use pop_cli.Bytes.{Bytes, bytes_eq}
use pop_cli.Fork.Result.{Result, ok, err}
use pop_cli.Fork.Monad.{
  M, ◌>>=◌, ◌>>◌, pure, lift, Ensures, returned, raised, after-Ensures, weaken-Ensures,
}
use pop_cli.Fork.Rpc.{Rpc, IsHonest}
use pop_cli.Fork.Cache.Tables.{Db}
use pop_cli.Fork.Cache.History.{get_local_value_at_block, get_local_values_at_block_batch}
use pop_cli.Fork.Cache.History.Invariant.{IsHistory}
use pop_cli.Fork.Cache.History.Batch.{get_local_values_at_block_batch_lem}
use pop_cli.Fork.Remote.{Env}
use pop_cli.Fork.Remote
use pop_cli.Fork.Remote.Sound.{IsCacheOf, SameHistory, Kept}
use pop_cli.Fork.Remote.Sound.Reads.{get-chain}
use pop_cli.Fork.Remote.Sound.Batch.{get_batch-chain}
use pop_cli.Fork.Local.{
  LocalSharedValue, Layer, get_local_modification, of_remote, of_cache, foreign, pushed, non_local,
  scatter, indices_of, keys_of, is_historical, get_base, batch_latest, complete_with_base,
  from_history, batch_historical, get_batch, get, get_with, get_unmodified, get_historical,
}
use pop_cli.Fork.Local.Timeline.{over}
use pop_cli.Fork.Local.Refine.{value_of, SameHistory_refl}
use Merge.{merged, scatter-merged, non_local-distinct, all_local}

-- A single read at the block being built: the modification, a deletion by prefix included, or the
-- state of the fork point.
abbrev pub latest_view : {rpc : Rpc} → (Bytes → Option Bytes) → Layer rpc → Bytes → Option Bytes
latest_view base layer k = elim (get_local_modification layer k layer.current_block_number) [
  | some found ↦ value_of found
  | none ↦ base k
]

-- What the loop over the results makes of one.
abbrev pub completed :
    (Bytes → Option Bytes) → (Bytes → Option LocalSharedValue) → Bytes → Option Bytes
completed base F k = elim (F k) [ some v ↦ v.value | none ↦ base k ]

value_of-of_remote : (v : Option Bytes) → value_of (of_remote v) ≡ v
value_of-of_remote none = refl
value_of-of_remote (some v) = refl

map-of_remote :
    (f : Bytes → Option Bytes) (ks : List Bytes)
    → map of_remote (map f ks) ≡ map (λ k. of_remote (f k)) ks
map-of_remote f [] = refl
map-of_remote f (k ∷ ks) = ap (◌∷◌ (of_remote (f k))) (map-of_remote f ks)

pub map-of_cache :
    (f : Bytes → Option (Option Bytes)) (ks : List Bytes)
    → map of_cache (map f ks) ≡ map (λ k. of_cache (f k)) ks
map-of_cache f [] = refl
map-of_cache f (k ∷ ks) = ap (◌∷◌ (of_cache (f k))) (map-of_cache f ks)

pub map-values :
    (F : Bytes → Option LocalSharedValue) (V : Bytes → Option Bytes) (ks : List Bytes)
    → ((k : Bytes) → value_of (F k) ≡ V k)
    → map value_of (map F ks) ≡ map V ks
map-values F V [] h = refl
map-values F V (k ∷ ks) h = ground (arith, h k, map-values F V ks h)

module _ {rpc : Rpc} {chain : Bytes → Bytes → Option Bytes} {Fails : Type 0}
    (honest : IsHonest rpc chain Fails) (layer : Layer rpc) where
  abbrev base : Bytes → Option Bytes
  base = chain layer.first_forked_block_hash

  pub base_lem :
      (db₀ : Db) (k : Bytes) (env : Env rpc)
      → Kept chain db₀ env.db
      → Ensures
          (λ o s. (value_of o ≡ base k) × Kept chain db₀ s.db)
          (λ s. Fails × Kept chain db₀ s.db)
          (get_base rpc layer k env)
  unfolding get_base
  base_lem db₀ k env kept =
      after-Ensures _ (get-chain honest db₀ layer.first_forked_block_hash k env kept)
        (λ v s q. returned (value_of-of_remote v ∙ q.0, q.1))

  pub complete_lem :
      (db₀ : Db) (F : Bytes → Option LocalSharedValue) (keys : List Bytes) (env : Env rpc)
      → Kept chain db₀ env.db
      → Ensures
          (λ os s. (map value_of os ≡ map (completed base F) keys) × Kept chain db₀ s.db)
          (λ s. Fails × Kept chain db₀ s.db)
          (complete_with_base rpc layer keys (map F keys) env)
  unfolding complete_with_base
  complete_lem db₀ F [] env kept = returned (refl, kept)
  complete_lem db₀ F (k ∷ ks) env kept = go (F k) (λ s q. complete_lem db₀ F ks s q)
    where
      go :
          (o : Option LocalSharedValue)
          → ((s : Env rpc)
              → Kept chain db₀ s.db
              → Ensures
                  (λ os s'. (map value_of os ≡ map (completed base F) ks) × Kept chain db₀ s'.db)
                  (λ s'. Fails × Kept chain db₀ s'.db)
                  (complete_with_base rpc layer ks (map F ks) s))
          → Ensures
              (λ os s.
                (map value_of os
                  ≡ elim o [ some v ↦ v.value | none ↦ base k ] ∷ map (completed base F) ks)
                × Kept chain db₀ s.db)
              (λ s. Fails × Kept chain db₀ s.db)
              (complete_with_base rpc layer (k ∷ ks) (o ∷ map F ks) env)
      go (some v) rest =
          after-Ensures _ (rest env kept) (λ os s q. returned (ap (◌∷◌ v.value) q.0, q.1))
      go none rest = after-Ensures _ (base_lem db₀ k env kept) (λ o s q.
          after-Ensures _ (rest s q.1) (λ os s' q'. returned (ground (arith, q.0, q'.0), q'.1)))

  -- The views as results of reads, with what is kept.
  abbrev pub Ends : {A : Type 0} → Db → (A → Type 0) → A → Env rpc → Type 0
  Ends db₀ P a s = P a × Kept chain db₀ s.db

  abbrev at_latest : Bytes → Option (Option LocalSharedValue)
  at_latest k = get_local_modification layer k layer.current_block_number

  get_at_latest :
      (k : Bytes) (env : Env rpc)
      → IsCacheOf chain env.db
      → Ensures
          (Ends env.db (λ o. value_of o ≡ latest_view base layer k))
          (λ s. Fails × Kept chain env.db s.db)
          (get rpc layer layer.current_block_number k env)
  unfolding get
  get_at_latest k env c = go (at_latest k)
    where
      go :
          (o : Option (Option LocalSharedValue))
          → Ensures
              (Ends env.db
                (λ r. value_of r ≡ elim o [ some found ↦ value_of found | none ↦ base k ]))
              (λ s. Fails × Kept chain env.db s.db)
              (get_with rpc o layer layer.current_block_number k env)
      go (some found) = returned (refl, (c, SameHistory_refl env.db))
      go none =
          rw (nat_beq_refl layer.current_block_number)
            (base_lem env.db k env (c, SameHistory_refl env.db))

  latest_values :
      (keys : List Bytes)
      → map value_of (map (merged at_latest (λ k. of_remote (base k))) keys)
        ≡ map (latest_view base layer) keys
  latest_values keys = map-values _ _ keys (λ k. go k (at_latest k))
    where
      go :
          (k : Bytes) (o : Option (Option LocalSharedValue))
          → value_of (elim o [ some found ↦ found | none ↦ of_remote (base k) ])
            ≡ elim o [ some found ↦ value_of found | none ↦ base k ]
      go k none = value_of-of_remote (base k)
      go k (some found) = refl

  batch_at_latest :
      (keys : List Bytes) (env : Env rpc)
      → IsCacheOf chain env.db
      → has_duplicates keys ≡ false
      → Ensures
          (Ends env.db (λ os. map value_of os ≡ map (latest_view base layer) keys))
          (λ s. Fails × Kept chain env.db s.db)
          (batch_latest rpc layer
            (map pushed (map at_latest keys))
            (non_local 0 keys (map at_latest keys))
            env)
  unfolding batch_latest
  batch_at_latest keys env c d = go (non_local 0 keys (map at_latest keys)) refl
    where
      go :
          (entries : List (ℕ × Bytes))
          → non_local 0 keys (map at_latest keys) ≡ entries
          → Ensures
              (Ends env.db (λ os. map value_of os ≡ map (latest_view base layer) keys))
              (λ s. Fails × Kept chain env.db s.db)
              (batch_latest rpc layer (map pushed (map at_latest keys)) entries env)
      go [] e = returned (
        ap (map value_of) (all_local at_latest (λ k. of_remote (base k)) 0 keys e)
            ∙ latest_values keys,
        (c, SameHistory_refl env.db),
      )
      go (x ∷ entries) e =
          after-Ensures _
            (get_batch-chain honest env.db layer.first_forked_block_hash (keys_of (x ∷ entries)) env
              (subst (λ es. has_duplicates (keys_of es) ≡ false) e
                (non_local-distinct 0 keys (map at_latest keys) d))
              (c, SameHistory_refl env.db))
            (λ vs s q. rw q.0 (
              subst
                (λ es.
                  Ensures (Ends env.db (λ os. map value_of os ≡ map (latest_view base layer) keys))
                    (λ t. Fails × Kept chain env.db t.db)
                    (lift
                      (scatter (map pushed (map at_latest keys)) (indices_of es)
                        (map of_remote (map base (keys_of es))))
                      s))
                e
                (rw
                  (
                    map-of_remote base (keys_of (non_local 0 keys (map at_latest keys))),
                    scatter-merged at_latest (λ k. of_remote (base k)) keys,
                  )
                  (returned (latest_values keys, q.1)))))

  -- At the block being built a single read and a batch read of distinct keys agree: each key has its
  -- local modification, nothing if it is deleted (by itself or by a prefix), or else its value in
  -- the state of the fork point. A read fails only if the node lets it, and what is cached of each
  -- block stays its state.
  pub get_batch-latest :
      (k : Bytes) (keys : List Bytes) (env : Env rpc)
      → IsCacheOf chain env.db
      → has_duplicates keys ≡ false
      → Ensures
          (λ o s.
            (value_of o ≡ latest_view (chain layer.first_forked_block_hash) layer k)
            × Kept chain env.db s.db)
          (λ s. Fails × Kept chain env.db s.db)
          (get rpc layer layer.current_block_number k env)
        × Ensures
            (λ os s.
              (map value_of os ≡ map (latest_view (chain layer.first_forked_block_hash) layer) keys)
              × Kept chain env.db s.db)
            (λ s. Fails × Kept chain env.db s.db)
            (get_batch rpc layer layer.current_block_number keys env)
  unfolding get_batch
  get_batch-latest k [] env c d =
      (get_at_latest k env c, returned (refl, (c, SameHistory_refl env.db)))
  get_batch-latest k (first ∷ others) env c d = (
    get_at_latest k env c,
    rw (nat_beq_refl layer.current_block_number) (batch_at_latest (first ∷ others) env c d),
  )
