-- ===== src/Fork/Local/Keeping.antt =====
-- The reads of the local layer keep the cache and the history.
use pop_cli.Prelude.{
  ℕ, ◌+◌, ◌<◌, ◌≡◌, ltb, nat_beq, Bool, true, false, Option, none, some, if◌then◌else◌, arith,
}
use pop_cli.Bytes.{Bytes}
use pop_cli.Fork.Monad.{M, ◌>>=◌, lift, Ensures, returned, raised, Preserves-bind}
use pop_cli.Fork.Rpc.{Rpc, IsHonest}
use pop_cli.Fork.Cache.Tables.{Db, BlockRow}
use pop_cli.Fork.Cache.Blocks.{get_block_by_number}
use pop_cli.Fork.Cache.History.{get_local_value_at_block}
use pop_cli.Fork.Remote.{Env}
use pop_cli.Fork.Remote.Sound.{Kept}
use pop_cli.Fork.Remote.Sound.Keeping.{
  Replying, Keeping, lift-Keeping, remote_get-Keeping, fetch-Keeping,
}
use pop_cli.Fork.Local.{
  Layer, LocalSharedValue, get_local_modification, get, get_with, get_unmodified, get_base,
  get_historical, get_before, get_block, cached_or_fetched, is_historical, metadata_at,
  or_not_found, version_at,
}

module _ {rpc : Rpc} {chain : Bytes → Bytes → Option Bytes} {Fails : Type 0}
    (honest : IsHonest rpc chain Fails) (replying : Replying rpc) (db₀ : Db)
    (layer : Layer rpc) where
  abbrev Keeps : {A : Type 0} → M (Env rpc) A → Type 0
  Keeps m = Keeping honest replying db₀ m

  get_base-Keeps : (k : Bytes) → Keeps (get_base rpc layer k)
  unfolding get_base
  get_base-Keeps k =
      Preserves-bind (remote_get-Keeping honest replying db₀ layer.first_forked_block_hash k)
        (λ v s q. returned q)

  get_historical-Keeps :
      (k : Bytes) (o : Option (Option Bytes)) → Keeps (get_historical rpc layer k o)
  unfolding get_historical
  get_historical-Keeps k (some v) s q = returned q
  get_historical-Keeps k none s q = get_base-Keeps k s q

  get_before-Keeps : (k : Bytes) (o : Option BlockRow) → Keeps (get_before rpc k o)
  unfolding get_before
  get_before-Keeps k none s q = returned q
  get_before-Keeps k (some row) s q =
      Preserves-bind (remote_get-Keeping honest replying db₀ row.hash k) (λ v s q. returned q) s q

  cached_or_fetched-Keeps : (n : ℕ) (o : Option BlockRow) → Keeps (cached_or_fetched rpc n o)
  unfolding cached_or_fetched
  cached_or_fetched-Keeps n none s q = fetch-Keeping honest replying db₀ n s q
  cached_or_fetched-Keeps n (some row) s q = returned q

  get_block-Keeps : (n : ℕ) → Keeps (get_block rpc n)
  unfolding get_block
  get_block-Keeps n s q =
      Preserves-bind (lift-Keeping honest replying db₀ (get_block_by_number s.db n))
        (cached_or_fetched-Keeps n) s q

  get_unmodified-Keeps : (n : ℕ) (k : Bytes) → Keeps (get_unmodified rpc layer n k)
  unfolding get_unmodified
  get_unmodified-Keeps n k s q =
      go (nat_beq n layer.current_block_number)
        (is_historical layer.first_forked_block_number layer.current_block_number n)
    where
      go :
          (a b : Bool)
          → Ensures
              (λ _ s'. Kept chain db₀ s'.db)
              (λ s'. Kept chain db₀ s'.db)
              ((if a
                  then get_base rpc layer k
                  else if b
                  then (λ env. get_historical rpc layer k (get_local_value_at_block env.db k n) env)
                  else (get_block rpc n >>= get_before rpc k))
                s)
      go true b = get_base-Keeps k s q
      go false true = get_historical-Keeps k (get_local_value_at_block s.db k n) s q
      go false false = Preserves-bind (get_block-Keeps n) (get_before-Keeps k) s q

  get_with-Keeps :
      (o : Option (Option LocalSharedValue)) (n : ℕ) (k : Bytes) → Keeps (get_with rpc o layer n k)
  unfolding get_with
  get_with-Keeps none n k s q = get_unmodified-Keeps n k s q
  get_with-Keeps (some found) n k s q = returned q

  -- A read at any block.
  pub get-Keeps : (n : ℕ) (k : Bytes) → Keeps (get rpc layer n k)
  unfolding get
  get-Keeps n k = get_with-Keeps (get_local_modification layer k n) n k

  not_before : (a b : ℕ) → a < b + 1 → ltb b a ≡ false
  not_before a b l = ground arith

  version-Keeps : (o : Option rpc.Metadata) → Keeps (lift (or_not_found o))
  unfolding or_not_found
  version-Keeps none s q = raised q
  version-Keeps (some m) s q = returned q

  -- Metadata is asked of the node only before the fork point.
  pub metadata_at-Keeps :
      (n : ℕ) → layer.first_forked_block_number < n + 1 → Keeps (metadata_at layer n)
  unfolding metadata_at
  metadata_at-Keeps n l s q =
      rw (not_before layer.first_forked_block_number n l)
        (version-Keeps (version_at n layer.metadata_versions) s q)
