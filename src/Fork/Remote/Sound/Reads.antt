-- ===== src/Fork/Remote/Sound/Reads.antt =====
-- Reads through the cache answer with the state of the chain.
use pop_cli.Prelude.{◌≡◌, refl, Option, none, some, Bool-cases, inl, inr, leb, length, take}
use pop_cli.Bytes.{Bytes, bytes_eq}
use pop_cli.Fork.Monad.{or_recover, pure, Ensures, returned, after-Ensures, recover-Ensures}
use pop_cli.Fork.Rpc.{Rpc, IsHonest}
use pop_cli.Fork.Cache.Tables.{Db}
use pop_cli.Fork.Cache.Storage.{get_storage, set_storage}
use pop_cli.Fork.Cache.Blocks.{PrefixScanProgress, get_prefix_scan_progress}
use pop_cli.Fork.Remote.{
  Env, fetch_key, found_by_prefetch, prefetch_and_look, if_not_begun, speculate, or_fetch, get_from,
  get, min_storage_key_prefix_len, default_prefetch_page_size,
}
use pop_cli.Fork.Remote.Sound.{SameHistory, Kept, set_storage-IsCacheOf, call_with_reconnect_lem}
use pop_cli.Fork.Remote.Sound.Pages.{prefetch_prefix_single_page-Safe}

set_storage-SameHistory :
    (db₀ db : Db) (h k : Bytes) (v : Option Bytes)
    → SameHistory db₀ db
    → SameHistory db₀ (set_storage db h k v)
unfolding set_storage
set_storage-SameHistory db₀ db h k v s = record {
  same_keys = s.same_keys;
  same_values = s.same_values;
  same_next = s.same_next;
}

module _ {rpc : Rpc} {chain : Bytes → Bytes → Option Bytes} {Fails : Type 0}
    (honest : IsHonest rpc chain Fails) (db₀ : Db) where
  -- What a found value says.
  abbrev Found : Bytes → Bytes → Option (Option Bytes) → Type 0
  Found h k o = (v : Option Bytes) → o ≡ some v → v ≡ chain h k

  fetch_key_lem :
      (h k : Bytes) (env : Env rpc)
      → Kept chain db₀ env.db
      → Ensures
          (λ v s. (v ≡ chain h k) × Kept chain db₀ s.db)
          (λ s. Fails × Kept chain db₀ s.db)
          (fetch_key rpc h k env)
  unfolding fetch_key
  fetch_key_lem h k env kept =
      after-Ensures _
        (call_with_reconnect_lem honest db₀ (rpc.storage k h) _ (honest.storage_reply k h) kept)
        (λ v s q. returned (
          q.0,
          (
            set_storage-IsCacheOf chain s.db h k v q.1.0 q.0,
            set_storage-SameHistory db₀ s.db h k v q.1.1,
          ),
        ))

  prefetch_and_look_lem :
      (h k : Bytes) (env : Env rpc)
      → Kept chain db₀ env.db
      → Ensures
          (λ o s. Found h k o × Kept chain db₀ s.db)
          (λ s. Kept chain db₀ s.db)
          (prefetch_and_look rpc h k env)
  unfolding prefetch_and_look
  prefetch_and_look_lem h k env kept =
      after-Ensures _
        (prefetch_prefix_single_page-Safe honest db₀ h (take min_storage_key_prefix_len k)
          default_prefetch_page_size env kept)
        (λ _ s kept'. look (get_storage s.db h k) s kept' (kept'.0.agrees h k))
    where
      look :
          (o : Option (Option Bytes)) (s : Env rpc)
          → Kept chain db₀ s.db
          → Found h k o
          → Ensures
              (λ o s. Found h k o × Kept chain db₀ s.db)
              (λ s. Kept chain db₀ s.db)
              (found_by_prefetch rpc o s)
      look none s kept' f = returned (f, kept')
      look (some v) s kept' f = returned (f, kept')

  speculate_lem :
      (h k : Bytes) (env : Env rpc)
      → Kept chain db₀ env.db
      → Ensures
          (λ o s. Found h k o × Kept chain db₀ s.db)
          (λ s. Fails × Kept chain db₀ s.db)
          (speculate rpc h k env)
  unfolding speculate
  speculate_lem h k env kept = elim (Bool-cases (leb min_storage_key_prefix_len (length k))) [
    | inl e ↦ rw e (begun (get_prefix_scan_progress env.db h (take min_storage_key_prefix_len k)))
    | inr e ↦ rw e (returned ((λ v g. cc), kept))
  ]
    where
      begun :
          (progress : Option PrefixScanProgress)
          → Ensures
              (λ o s. Found h k o × Kept chain db₀ s.db)
              (λ s. Fails × Kept chain db₀ s.db)
              (if_not_begun rpc progress (or_recover (prefetch_and_look rpc h k) (pure none)) env)
      begun none =
          recover-Ensures _ (prefetch_and_look_lem h k env kept)
            (λ s kept'. returned ((λ v g. cc), kept'))
      begun (some progress) = returned ((λ v g. cc), kept)

  or_fetch_lem :
      (h k : Bytes) (o : Option (Option Bytes)) (env : Env rpc)
      → Found h k o
      → Kept chain db₀ env.db
      → Ensures
          (λ v s. (v ≡ chain h k) × Kept chain db₀ s.db)
          (λ s. Fails × Kept chain db₀ s.db)
          (or_fetch rpc h k o env)
  unfolding or_fetch
  or_fetch_lem h k none env f kept = fetch_key_lem h k env kept
  or_fetch_lem h k (some v) env f kept = returned (f v refl, kept)

  get_from_lem :
      (h k : Bytes) (o : Option (Option Bytes)) (env : Env rpc)
      → Found h k o
      → Kept chain db₀ env.db
      → Ensures
          (λ v s. (v ≡ chain h k) × Kept chain db₀ s.db)
          (λ s. Fails × Kept chain db₀ s.db)
          (get_from rpc o h k env)
  unfolding get_from
  get_from_lem h k (some v) env f kept = returned (f v refl, kept)
  get_from_lem h k none env f kept =
      after-Ensures _ (speculate_lem h k env kept) (λ o s q. or_fetch_lem h k o s q.0 q.1)

  -- A read through the cache ends with the value of the key in the state of the block, or with an
  -- error that the node has let happen; either way what is cached of each block is still its state,
  -- and the history of local values is unchanged.
  pub get-chain :
      (h k : Bytes) (env : Env rpc)
      → Kept chain db₀ env.db
      → Ensures
          (λ v s. (v ≡ chain h k) × Kept chain db₀ s.db)
          (λ s. Fails × Kept chain db₀ s.db)
          (get rpc h k env)
  unfolding get
  get-chain h k env kept = get_from_lem h k (get_storage env.db h k) env (kept.0.agrees h k) kept
