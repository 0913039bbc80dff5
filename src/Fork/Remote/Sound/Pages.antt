-- ===== src/Fork/Remote/Sound/Pages.antt =====
-- Prefetching keeps the cache in agreement with the chain, whatever the node lists as keys.
use pop_cli.Prelude.{
  ℕ, ◌≡◌, ◌∙◌, Bool, true, false, List, [], ◌∷◌, map, Option, none, some, arith, if◌then◌else◌,
  has_duplicates, Bool-cases, inl, inr, or_else, ltb, length,
}
use pop_cli.Bytes.{Bytes, bytes_beq, bytes_beq_iff, bytes_eq}
use pop_cli.Assoc.{lookup}
use pop_cli.Fork.Result.{ok, err, duplicated_keys}
use pop_cli.Fork.Monad.{Outcome, Ensures, returned, raised, after-Ensures, weaken-Ensures}
use pop_cli.Fork.Rpc.{Rpc, IsHonest}
use pop_cli.Fork.Cache.Tables.{Db}
use pop_cli.Fork.Cache.Storage.{get_storage, set_storage_batch, entry_keys}
use pop_cli.Fork.Cache.Storage.Laws.{IsKeyed}
use pop_cli.Fork.Cache.Storage.Batch.{get_storage-set_storage_batch}
use pop_cli.Fork.Cache.Blocks.{PrefixScanProgress, get_prefix_scan_progress, update_prefix_scan}
use pop_cli.Fork.Remote.{
  Env, zip_entries, last_key, store_batch, record_progress, store_page, first_page, single_page,
  prefetch_prefix_single_page,
}
use pop_cli.Fork.Remote.Sound.{
  IsCacheOf, SameHistory, Kept, lookup-zip_entries, call_with_reconnect_lem,
}

-- A batch with repeated keys is refused.
set_storage_batch-duplicates :
    (db : Db) (h : Bytes) (es : List (Bytes × Option Bytes))
    → has_duplicates (entry_keys es) ≡ true
    → set_storage_batch db h es ≡ err duplicated_keys
unfolding set_storage_batch
set_storage_batch-duplicates db h [] e = cc
set_storage_batch-duplicates db h (x ∷ es) e = rw e

set_storage_batch-history :
    (db db' : Db) (h : Bytes) (es : List (Bytes × Option Bytes))
    → set_storage_batch db h es ≡ ok db'
    → SameHistory db db'
unfolding set_storage_batch
set_storage_batch-history db db' h [] e = record {
  same_keys = ground arith;
  same_values = ground arith;
  same_next = ground arith;
}
set_storage_batch-history db db' h (x ∷ es) e = record {
  same_keys = ground arith;
  same_values = ground arith;
  same_next = ground arith;
}

pub SameHistory-trans : {a b c : Db} → SameHistory a b → SameHistory b c → SameHistory a c
SameHistory-trans p q = record {
  same_keys = q.same_keys ∙ p.same_keys;
  same_values = q.same_values ∙ p.same_values;
  same_next = q.same_next ∙ p.same_next;
}

pub update_prefix_scan-Kept :
    (chain : Bytes → Bytes → Option Bytes) (db₀ db : Db) (h p last : Bytes) (complete : Bool)
    → Kept chain db₀ db
    → Kept chain db₀ (update_prefix_scan db h p last complete)
unfolding update_prefix_scan get_storage
update_prefix_scan-Kept chain db₀ db h p last complete (c, s) = (
  record { keyed = c.keyed; agrees = c.agrees },
  record { same_keys = s.same_keys; same_values = s.same_values; same_next = s.same_next },
)

module _ {rpc : Rpc} {chain : Bytes → Bytes → Option Bytes} {Fails : Type 0}
    (honest : IsHonest rpc chain Fails) (db₀ : Db) where
  abbrev pub Safe : {A : Type 0} → Outcome (Env rpc) A → Type 0
  Safe = Ensures (λ _ s. Kept chain db₀ s.db) (λ s. Kept chain db₀ s.db)

  entries_of : Bytes → List Bytes → List (Bytes × Option Bytes)
  entries_of h ks = zip_entries ks (map (chain h) ks)

  stored-IsCacheOf :
      (db db' : Db) (h : Bytes) (ks : List Bytes)
      → IsCacheOf chain db
      → IsKeyed db'.storage
      → ((h' k : Bytes)
          → get_storage db' h' k ≡ (
              if bytes_beq h h'
              then or_else (lookup k (entries_of h ks)) (get_storage db h' k)
              else get_storage db h' k))
      → IsCacheOf chain db'
  unfolding entries_of
  stored-IsCacheOf db db' h ks c keyed reads = record {
    keyed = keyed;
    agrees = λ h' k v e. ground (
      arith,
      e,
      reads h' k,
      bytes_beq_iff h h',
      c.agrees h' k v,
      lookup-zip_entries (chain h) k v ks,
    );
  }

  -- A batch of distinct keys is stored.
  pub store_batch_lem :
      {E : Env rpc → Type 0} (h : Bytes) (ks : List Bytes) (env : Env rpc)
      → Kept chain db₀ env.db
      → has_duplicates (entry_keys (zip_entries ks (map (chain h) ks))) ≡ false
      → Ensures
          (λ _ s. Kept chain db₀ s.db)
          E
          (store_batch rpc h (zip_entries ks (map (chain h) ks)) env)
  unfolding entries_of
  store_batch_lem h ks env (c, s) e =
      let (db', stored, keyed, reads) =
        get_storage-set_storage_batch env.db h (entries_of h ks) c.keyed e in
      rw stored (
        returned (
          stored-IsCacheOf env.db db' h ks c keyed reads,
          SameHistory-trans s (set_storage_batch-history env.db db' h _ stored),
        ))

  pub store_batch-Safe :
      (h : Bytes) (ks : List Bytes) (env : Env rpc)
      → Kept chain db₀ env.db
      → Safe (store_batch rpc h (zip_entries ks (map (chain h) ks)) env)
  unfolding entries_of
  store_batch-Safe h ks env (c, s) =
      elim (Bool-cases (has_duplicates (entry_keys (entries_of h ks)))) [
        | inl e ↦ rw (set_storage_batch-duplicates env.db h (entries_of h ks) e) (raised (c, s))
        | inr e ↦ store_batch_lem h ks env (c, s) e
      ]

  record_progress-Safe :
      (h p : Bytes) (last : Option Bytes) (b : Bool) (env : Env rpc)
      → Kept chain db₀ env.db
      → Safe (record_progress rpc h p last b env)
  record_progress-Safe h p none b env k = returned k
  record_progress-Safe h p (some key) b env k =
      returned (update_prefix_scan-Kept chain db₀ env.db h p key b k)

  pub store_page-Safe :
      (h p : Bytes) (ks : List Bytes) (b : Bool) (env : Env rpc)
      → Kept chain db₀ env.db
      → Safe (store_page rpc h p ks b env)
  unfolding store_page
  store_page-Safe h p ks b env k =
      after-Ensures _
        (weaken-Ensures
          (call_with_reconnect_lem honest db₀ (rpc.storage_batch ks h) env
            (honest.storage_batch_reply ks h) k)
          (λ _ _ q. q) (λ _ f. f.1))
        λ vs s (e, k'). rw e (
          after-Ensures _ (store_batch-Safe h ks s k')
            (λ _ s' k''. record_progress-Safe h p (last_key ks) b s' k''))

  first_page-Safe :
      (h p : Bytes) (n : ℕ) (ks : List Bytes) (env : Env rpc)
      → Kept chain db₀ env.db
      → Safe (first_page rpc h p n ks env)
  unfolding first_page
  first_page-Safe h p n [] env k = returned (update_prefix_scan-Kept chain db₀ env.db h p p true k)
  first_page-Safe h p n (x ∷ ks) env k =
      after-Ensures _ (store_page-Safe h p (x ∷ ks) (ltb (length (x ∷ ks)) n) env k)
        (λ _ s k'. returned k')

  single_page-Safe :
      (progress : Option PrefixScanProgress) (h p : Bytes) (n : ℕ) (env : Env rpc)
      → Kept chain db₀ env.db
      → Safe (single_page rpc progress h p n env)
  unfolding single_page
  single_page-Safe none h p n env k =
      after-Ensures _
        (weaken-Ensures
          (call_with_reconnect_lem honest db₀ (rpc.storage_keys_paged p n none h) env
            (honest.storage_keys_paged_reply p n none h) k)
          (λ _ _ q. q.1) (λ _ f. f.1))
        (λ ks s k'. first_page-Safe h p n ks s k')
  single_page-Safe (some progress) h p n env k = elim (Bool-cases progress.is_complete) [
    | inl e ↦ rw e (returned k)
    | inr e ↦ rw e (returned k)
  ]

  -- The speculative prefetch never leaves anything in the cache that is not the state of the block,
  -- and never touches the history; it may fail.
  pub prefetch_prefix_single_page-Safe :
      (h p : Bytes) (n : ℕ) (env : Env rpc)
      → Kept chain db₀ env.db
      → Safe (prefetch_prefix_single_page rpc h p n env)
  unfolding prefetch_prefix_single_page
  prefetch_prefix_single_page-Safe h p n env k =
      single_page-Safe (get_prefix_scan_progress env.db h p) h p n env k
