-- ===== src/Fork/Tests/OfRemote.antt =====
-- The properties of the remote layer at concrete inputs.
use pop_cli.Prelude.{◌≡◌, refl, [], ◌∷◌, none, some}
use pop_cli.Fork.Monad.{Ensures}
use pop_cli.Fork.Remote.{prefetch_prefix_single_page}
use pop_cli.Fork.Remote
use pop_cli.Fork.Remote.Sound.{Kept}
use pop_cli.Fork.Remote.Sound.Reads.{get-chain}
use pop_cli.Fork.Remote.Sound.Batch.{get_batch-chain}
use pop_cli.Fork.Remote.Sound.Pages.{Safe, prefetch_prefix_single_page-Safe}
use pop_cli.Fork.Local.Refine.{SameHistory_refl}
use pop_cli.Fork.Tests.Data.{
  fork_hash, alice, bob, carol, balances, test_chain, test_rpc, test_honest, warm_db, test_env,
  warm_db-IsCacheOf,
}

get-chain_example :
    Ensures
      (λ v s. (v ≡ some (50 ∷ [])) × Kept test_chain warm_db s.db)
      (λ s. ⊥ × Kept test_chain warm_db s.db)
      (Remote.get test_rpc fork_hash carol test_env)
get-chain_example =
    get-chain test_honest warm_db fork_hash carol test_env
      (warm_db-IsCacheOf, SameHistory_refl warm_db)

get_batch-chain_example :
    Ensures
      (λ vs s. (vs ≡ some (100 ∷ []) ∷ none ∷ some (50 ∷ []) ∷ []) × Kept test_chain warm_db s.db)
      (λ s. ⊥ × Kept test_chain warm_db s.db)
      (Remote.get_batch test_rpc fork_hash (alice ∷ bob ∷ carol ∷ []) test_env)
get_batch-chain_example =
    get_batch-chain test_honest warm_db fork_hash (alice ∷ bob ∷ carol ∷ []) test_env refl
      (warm_db-IsCacheOf, SameHistory_refl warm_db)

prefetch_prefix_single_page-Safe_example :
    Safe test_honest warm_db (prefetch_prefix_single_page test_rpc fork_hash balances 10 test_env)
prefetch_prefix_single_page-Safe_example =
    prefetch_prefix_single_page-Safe test_honest warm_db fork_hash balances 10 test_env
      (warm_db-IsCacheOf, SameHistory_refl warm_db)
