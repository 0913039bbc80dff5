-- ===== src/Fork/Remote/Sound/Keeping.antt =====
-- Code that keeps the cache true to the chain and the history of local values, or fails.
use pop_cli.Prelude.{ℕ, Option, none, some}
use pop_cli.Bytes.{Bytes}
use pop_cli.Fork.Result.{Result, ok, err}
use pop_cli.Fork.Monad.{
  Outcome, M, lift, Ensures, returned, raised, weaken-Ensures, Preserves, Preserves-bind,
}
use pop_cli.Fork.Rpc.{Rpc, RpcBlock, IsHonest}
use pop_cli.Fork.Cache.Tables.{Db}
use pop_cli.Fork.Cache.Storage.{get_storage}
use pop_cli.Fork.Cache.Blocks.{cache_block}
use pop_cli.Fork.Remote.{Env, call, cache_by_number, fetch_and_cache_block_by_number}
use pop_cli.Fork.Remote.Sound.{Kept}
use pop_cli.Fork.Remote.Sound.Reads.{get-chain}
use pop_cli.Fork.Remote

-- Whatever the world, the node replies or fails.
pub record Replying (rpc : Rpc) : Type 0 where
  pub block_by_number_ends :
      (n : ℕ) (w : rpc.World) → Ensures (λ _ _. Unit {0}) (λ _. Unit {0}) (rpc.block_by_number n w)

module _ {rpc : Rpc} {chain : Bytes → Bytes → Option Bytes} {Fails : Type 0}
    (honest : IsHonest rpc chain Fails) (replying : Replying rpc) (db₀ : Db) where
  abbrev pub Keeping : {A : Type 0} → M (Env rpc) A → Type 0
  Keeping m = Preserves (λ s. Kept chain db₀ s.db) m

  pub lift-Keeping : {A : Type 0} (r : Result A) → Keeping (lift r)
  lift-Keeping (ok a) s k = returned k
  lift-Keeping (err e) s k = raised k

  pub remote_get-Keeping : (h k : Bytes) → Keeping (Remote.get rpc h k)
  remote_get-Keeping h k s kept =
      weaken-Ensures (get-chain honest db₀ h k s kept) (λ _ _ q. q.1) (λ _ q. q.1)

  cache_block-Kept :
      (db : Db) (hash : Bytes) (n : ℕ) (parent_hash header : Bytes)
      → Kept chain db₀ db
      → Kept chain db₀ (cache_block db hash n parent_hash header)
  unfolding cache_block get_storage
  cache_block-Kept db hash n parent_hash header kept = (
    record { keyed = kept.0.keyed; agrees = kept.0.agrees },
    record {
      same_keys = kept.1.same_keys;
      same_values = kept.1.same_values;
      same_next = kept.1.same_next;
    },
  )

  cache_by_number-Keeping :
      (n : ℕ) (found : Option (Bytes × RpcBlock)) → Keeping (cache_by_number rpc n found)
  unfolding cache_by_number
  cache_by_number-Keeping n none s kept = returned kept
  cache_by_number-Keeping n (some (hash, block)) s kept =
      returned (cache_block-Kept s.db hash n block.parent_hash block.header kept)

  call-Keeping : (n : ℕ) → Keeping (call rpc (rpc.block_by_number n))
  call-Keeping n s kept =
      go (rpc.block_by_number n s.world) (replying.block_by_number_ends n s.world)
    where
      go :
          (o : Outcome rpc.World (Option (Bytes × RpcBlock)))
          → Ensures (λ _ _. Unit {0}) (λ _. Unit {0}) o
          → Ensures
              (λ _ s'. Kept chain db₀ s'.db)
              (λ s'. Kept chain db₀ s'.db)
              (call rpc (λ _. o) s)
      go _ (returned u) = returned kept
      go _ (raised u) = raised kept

  pub fetch-Keeping : (n : ℕ) → Keeping (fetch_and_cache_block_by_number rpc n)
  unfolding fetch_and_cache_block_by_number
  fetch-Keeping n = Preserves-bind (call-Keeping n) (cache_by_number-Keeping n)
