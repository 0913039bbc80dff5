-- ===== src/Fork/Tests/OfQueries.antt =====
-- Queries of a block at concrete inputs.
use pop_cli.Prelude.{suc, ◌≡◌, refl, [], ◌∷◌, length, none, some, Option, arith}
use pop_cli.Fork.Monad.{returns}
use pop_cli.Fork.Cache.Storage.{set_storage}
use pop_cli.Fork.Cache.Blocks.{cache_block, get_block}
use pop_cli.Fork.Remote.{Env, block_number_by_hash, of_row}
use pop_cli.Fork.Local.{merge_keys_with_in_memory, merge_keys_with_cache}
use pop_cli.Fork.Block.{Block}
use pop_cli.Fork.Blockchain.{number_by_hash}
use pop_cli.Fork.Blockchain.Queries.{page, find_or_create_block_for_call}
use pop_cli.Fork.Blockchain.Paging.{all_pages, all_pages-page}
use pop_cli.Fork.Blockchain.Called.{number_of, Serves, find_or_create_block_for_call-number_by_hash}
use pop_cli.Fork.Tests.OfBlocks.{block_10}
use pop_cli.Fork.Tests.Data.{alice, bob, carol, test_rpc, warm_db, test_env, written}

all_pages-page_example :
    (all_pages
        (suc (length (merge_keys_with_in_memory written (carol ∷ alice ∷ bob ∷ []) [])))
        (λ s. page 2 s (merge_keys_with_in_memory written (carol ∷ alice ∷ bob ∷ []) []))
        none
      ≡ merge_keys_with_in_memory written (carol ∷ alice ∷ bob ∷ []) [])
    × (all_pages
          (suc (length (merge_keys_with_cache warm_db (carol ∷ alice ∷ bob ∷ []) [] 11)))
          (λ s. page 2 s (merge_keys_with_cache warm_db (carol ∷ alice ∷ bob ∷ []) [] 11))
          none
        ≡ merge_keys_with_cache warm_db (carol ∷ alice ∷ bob ∷ []) [] 11)
all_pages-page_example =
    all_pages-page written warm_db (carol ∷ alice ∷ bob ∷ []) [] 11 2 (omega arith)

-- Two pages: the keys in order, one of them written on the fork.
two_pages : all_pages 3 (λ s. page 2 s (alice ∷ bob ∷ carol ∷ [])) none ≡ alice ∷ bob ∷ carol ∷ []
unfolding all_pages page
two_pages = refl

-- The cache knows the block before the fork point.
abbrev cached_env : Env test_rpc
unfolding cache_block
cached_env = record test_env { db = cache_block warm_db (6 ∷ []) 9 (5 ∷ []) (1 ∷ []) }

cached_number : block_number_by_hash test_rpc (6 ∷ []) cached_env ≡ returns (some 9) cached_env
unfolding block_number_by_hash of_row cache_block get_block set_storage
cached_number = refl

find_or_create_block_for_call-number_by_hash_example :
    (found : Option Block) × (s : Env test_rpc) × ((find_or_create_block_for_call test_rpc
          (0 ∷ [])
          block_10
          (6 ∷ [])
          cached_env
        ≡ returns found s)
      × (number_by_hash test_rpc block_10 (6 ∷ []) cached_env ≡ returns (number_of found) s)
      × Serves (6 ∷ []) block_10 found)
find_or_create_block_for_call-number_by_hash_example =
    find_or_create_block_for_call-number_by_hash test_rpc (0 ∷ []) block_10 (6 ∷ []) cached_env
      (some 9) cached_env cached_number
