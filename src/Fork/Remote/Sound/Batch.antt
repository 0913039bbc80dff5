-- ===== src/Fork/Remote/Sound/Batch.antt =====
-- The batch read answers with the state of the chain, key by key.
use pop_cli.Prelude.{
  ℕ, suc, ◌+◌, ◌≡◌, refl, ◌∙◌, ap, false, List, [], ◌∷◌, map, Option, none, some, arith,
  has_duplicates, contains, set, Option-cases, inl, inr,
}
use mathlib.Core.Path.{subst}
use pop_cli.Bytes.{Bytes, bytes_eq}
use pop_cli.Fork.Result.{ok}
use pop_cli.Fork.Monad.{Ensures, returned, after-Ensures, lift}
use pop_cli.Fork.Rpc.{Rpc, IsHonest}
use pop_cli.Fork.Cache.Tables.{Db}
use pop_cli.Fork.Cache.Storage.{get_storage, entry_keys}
use pop_cli.Fork.Cache.Storage.Batch.{get_storage_batch-get_storage}
use pop_cli.Fork.Remote.{
  Env, zip_entries, flatten, uncached_indices, uncached_keys, fill_results, fetch_rest, get_batch,
}
use pop_cli.Fork.Remote.Sound.{Kept, call_with_reconnect_lem}
use pop_cli.Fork.Remote.Sound.Pages.{store_batch_lem}

uncached_indices-suc :
    (i : ℕ) (cs : List (Option (Option Bytes)))
    → uncached_indices (i + 1) cs ≡ map suc (uncached_indices i cs)
unfolding uncached_indices
uncached_indices-suc i [] = refl
uncached_indices-suc i (none ∷ cs) = ground (arith, uncached_indices-suc (i + 1) cs)
uncached_indices-suc i (some v ∷ cs) = uncached_indices-suc (i + 1) cs

fill_results-suc :
    (x : Option Bytes) (is : List ℕ) (xs vs ys : List (Option Bytes))
    → fill_results xs is vs ≡ ok ys
    → fill_results (x ∷ xs) (map suc is) vs ≡ ok (x ∷ ys)
unfolding fill_results
fill_results-suc x [] xs vs ys h = ground arith
fill_results-suc x (i ∷ is) xs [] ys h = cc
fill_results-suc x (i ∷ is) xs (v ∷ vs) ys h = fill_results-suc x is (set xs i v) vs ys h

module _ (f : Bytes → Option Bytes) (g : Bytes → Option (Option Bytes))
    (agrees : (k : Bytes) (v : Option Bytes) → g k ≡ some v → v ≡ f k) where
  -- Writing the fetched values over the gaps gives the value of every key.
  fill_results_lem :
      (keys : List Bytes)
      → fill_results
          (map flatten (map g keys))
          (uncached_indices 0 (map g keys))
          (map f (uncached_keys keys (map g keys)))
        ≡ ok (map f keys)
  unfolding fill_results uncached_indices uncached_keys
  fill_results_lem [] = refl
  fill_results_lem (k ∷ ks) = go (rest (fill_results_lem ks)) (g k) (agrees k)
    where
      rest :
          fill_results
              (map flatten (map g ks))
              (uncached_indices 0 (map g ks))
              (map f (uncached_keys ks (map g ks)))
            ≡ ok (map f ks)
          → (x : Option Bytes)
          → fill_results
              (x ∷ map flatten (map g ks))
              (uncached_indices (0 + 1) (map g ks))
              (map f (uncached_keys ks (map g ks)))
            ≡ ok (x ∷ map f ks)
      rest ih x = rw (uncached_indices-suc 0 (map g ks)) (
          fill_results-suc x (uncached_indices 0 (map g ks)) (map flatten (map g ks))
            (map f (uncached_keys ks (map g ks))) (map f ks) ih)

      go :
          ((x : Option Bytes)
            → fill_results
                (x ∷ map flatten (map g ks))
                (uncached_indices (0 + 1) (map g ks))
                (map f (uncached_keys ks (map g ks)))
              ≡ ok (x ∷ map f ks))
          → (o : Option (Option Bytes)) → ((v : Option Bytes) → o ≡ some v → v ≡ f k)
          → fill_results
              (flatten o ∷ map flatten (map g ks))
              (uncached_indices 0 (o ∷ map g ks))
              (map f (uncached_keys (k ∷ ks) (o ∷ map g ks)))
            ≡ ok (f k ∷ map f ks)
      go filled none h = filled (f k)
      go filled (some v) h = filled v ∙ ap (λ x. ok (x ∷ map f ks)) (h v refl)

  flatten_lem :
      (keys : List Bytes)
      → uncached_keys keys (map g keys) ≡ []
      → map flatten (map g keys) ≡ map f keys
  unfolding uncached_keys
  flatten_lem [] h = refl
  flatten_lem (k ∷ ks) h = elim (Option-cases (g k)) [
    | inl e ↦ absurd (ground arith)
    | inr (v, e) ↦ ground (arith, e, agrees k v, flatten_lem ks)
  ]

entry_keys-zip_entries :
    (f : Bytes → Option Bytes) (ks : List Bytes) → entry_keys (zip_entries ks (map f ks)) ≡ ks
entry_keys-zip_entries f [] = refl
entry_keys-zip_entries f (k ∷ ks) = ap (◌∷◌ k) (entry_keys-zip_entries f ks)

contains-uncached_keys :
    (k : Bytes) (keys : List Bytes) (cached : List (Option (Option Bytes)))
    → contains keys k ≡ false
    → contains (uncached_keys keys cached) k ≡ false
unfolding uncached_keys
contains-uncached_keys k keys [] h = refl
contains-uncached_keys k [] (c ∷ cached) h = refl
contains-uncached_keys k (j ∷ keys) (none ∷ cached) h =
    ground (arith, contains-uncached_keys k keys cached)
contains-uncached_keys k (j ∷ keys) (some x ∷ cached) h =
    contains-uncached_keys k keys cached (ground arith)

-- Distinct keys stay distinct.
uncached_keys-distinct :
    (keys : List Bytes) (cached : List (Option (Option Bytes)))
    → has_duplicates keys ≡ false
    → has_duplicates (uncached_keys keys cached) ≡ false
unfolding uncached_keys
uncached_keys-distinct keys [] h = refl
uncached_keys-distinct [] (c ∷ cached) h = refl
uncached_keys-distinct (k ∷ keys) (none ∷ cached) h =
    ground (arith, uncached_keys-distinct keys cached, contains-uncached_keys k keys cached)
uncached_keys-distinct (k ∷ keys) (some x ∷ cached) h =
    uncached_keys-distinct keys cached (ground arith)

module _ {rpc : Rpc} {chain : Bytes → Bytes → Option Bytes} {Fails : Type 0}
    (honest : IsHonest rpc chain Fails) (db₀ : Db) where
  -- A batch read of distinct keys answers in order with the value of each key in the state of the
  -- block, whether cached or fetched, and fails only if the node lets it; either way what is cached
  -- of each block is still its state, and the history of local values is unchanged.
  pub get_batch-chain :
      (h : Bytes) (keys : List Bytes) (env : Env rpc)
      → has_duplicates keys ≡ false
      → Kept chain db₀ env.db
      → Ensures
          (λ vs s. (vs ≡ map (chain h) keys) × Kept chain db₀ s.db)
          (λ s. Fails × Kept chain db₀ s.db)
          (get_batch rpc h keys env)
  unfolding get_batch
  get_batch-chain h [] env d kept = returned (refl, kept)
  get_batch-chain h (k ∷ ks) env d kept =
      rw (get_storage_batch-get_storage env.db h (k ∷ ks) kept.0.keyed d)
        (go (uncached_keys keys (map g keys)) refl)
    where
      keys : List Bytes
      keys = k ∷ ks

      g : Bytes → Option (Option Bytes)
      g = get_storage env.db h

      distinct :
          {us : List Bytes}
          → uncached_keys keys (map g keys) ≡ us
          → has_duplicates (entry_keys (zip_entries us (map (chain h) us))) ≡ false
      distinct {us} e =
          rw (entry_keys-zip_entries (chain h) us)
            (subst (λ xs. has_duplicates xs ≡ false) e (uncached_keys-distinct keys (map g keys) d))

      go :
          (uncached : List Bytes)
          → uncached_keys keys (map g keys) ≡ uncached
          → Ensures
              (λ vs s. (vs ≡ map (chain h) keys) × Kept chain db₀ s.db)
              (λ s. Fails × Kept chain db₀ s.db)
              (fetch_rest rpc uncached h (map g keys) env)
      go [] e = returned (flatten_lem (chain h) g (kept.0.agrees h) keys e, kept)
      go (j ∷ js) e =
          after-Ensures _
            (call_with_reconnect_lem honest db₀ (rpc.storage_batch (j ∷ js) h) env
              (honest.storage_batch_reply (j ∷ js) h) kept)
            λ vs s q. rw q.0 (
              after-Ensures _ (store_batch_lem honest db₀ h (j ∷ js) s q.1 (distinct e))
                (λ _ s' kept'.
                  subst
                    (λ us.
                      Ensures (λ vs t. (vs ≡ map (chain h) keys) × Kept chain db₀ t.db)
                        (λ t. Fails × Kept chain db₀ t.db)
                        (lift
                          (fill_results (map flatten (map g keys)) (uncached_indices 0 (map g keys))
                            (map (chain h) us))
                          s'))
                    e
                    (rw (fill_results_lem (chain h) g (kept.0.agrees h) keys)
                      (returned (refl, kept')))))
