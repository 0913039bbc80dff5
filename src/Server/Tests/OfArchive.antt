-- ===== src/Server/Tests/OfArchive.antt =====
-- The properties of the `archive` methods at concrete inputs.
use pop_cli.Prelude.{
  ℕ, ◌≡◌, refl, sym, List, [], ◌∷◌, Option, none, some, arith, if◌then◌else◌, All, inl,
}
use pop_cli.Bytes.{Bytes}
use pop_cli.Fork.Monad.{returned, returns, M}
use pop_cli.Fork.Remote.{Env}
use pop_cli.Fork.Block.{Fields, Block, fork_block, child_block}
use pop_cli.Fork.Block.Laws.{IsHead}
use pop_cli.Fork.Blockchain.{find_block}
use pop_cli.Fork.Tests.Data.{
  fork_hash, test_rpc, test_honest, built_layer, built_db, built_env, built_timeline, built_first,
  built-Refines, built_db-IsCacheOf,
}
use pop_cli.Server.Hex.{parse_block_hash}
use pop_cli.Server.Items.{value}
use pop_cli.Server.Handler.{Replies}
use pop_cli.Server.Archive.{StorageDiffQueryItem, StorageDiffItem, diff_items, storage_diff}
use pop_cli.Server.Archive.Diff.{view, patch, queried, Changed}
use pop_cli.Server.Archive.StorageDiff.{Serves, named, storage_diff-patches}
use pop_cli.Server.OverFork.{fork_archive, state_at, IsKept, storage_diff-timeline}
use pop_cli.Server.Tests.Data.{test_hex, small_fork, small_state, hash_of, text_of}

-- The values at the keys 1, 2 and 3.
abbrev three_items : List StorageDiffQueryItem
three_items =
    record { key = b'0' ∷ b'1' ∷ []; return_type = value }
    ∷ record { key = b'0' ∷ b'2' ∷ []; return_type = value }
    ∷ record { key = b'0' ∷ b'3' ∷ []; return_type = value }
    ∷ []

small_fork-Serves : (n : ℕ) → Serves small_fork (λ _. Unit {0}) small_state n
small_fork-Serves n = record { storage_at_reply = λ k w i. returned (tt, refl) }

storage_diff-patches_example :
    Replies
      (λ _. Unit {0})
      (λ r.
        (diff : List StorageDiffItem) × (r ≡ diff_items diff)
        × ((key : Bytes)
            → patch diff (view test_hex small_state 6) key ≡ (
                if queried three_items key
                then view test_hex small_state 7 key
                else view test_hex small_state 6 key))
        × All (Changed test_hex small_state 7 6) diff)
      (storage_diff test_hex
        (λ bytes. bytes)
        small_fork
        (text_of 7)
        three_items
        (some (text_of 6))
        tt)
unfolding parse_block_hash
storage_diff-patches_example =
    storage_diff-patches test_hex (λ bytes. bytes) small_state 7 6 small_fork (small_fork-Serves 7)
      (small_fork-Serves 6) (text_of 7) (hash_of 7) (hash_of 6) three_items (some (text_of 6)) tt
      ((λ e. cc), ((λ e. cc), ((λ e. cc), tt))) refl (λ w i. returned (tt, refl))
      (named (text_of 6) refl) (λ w i. returned (tt, refl)) tt

abbrev bare : ℕ → Bytes → Bytes → Fields
bare number hash parent_hash = record {
  number = number;
  hash = hash;
  parent_hash = parent_hash;
  header = [];
  extrinsics = [];
  handle = built_layer.handle;
}

-- The head of the fork after two blocks.
abbrev two_blocks_head : Block
two_blocks_head =
    child_block (bare 12 (hash_of 12) (11 ∷ []))
      (child_block (bare 11 (11 ∷ []) fork_hash) (fork_block (bare 10 fork_hash [])))

two_blocks_head-IsHead : IsHead built_layer.shared two_blocks_head built_db built_timeline
two_blocks_head-IsHead = record {
  chain = (refl, refl, (refl, refl, sym built_first));
  refines = built-Refines;
  next = refl;
}

abbrev no_call : Bytes → Bytes → Bytes → M (Env test_rpc) (Option Bytes)
no_call hash function parameters env = returns none env

storage_diff-timeline_example :
    Replies
      (IsKept test_honest no_call 3 built_layer.shared two_blocks_head built_timeline)
      (λ r.
        (diff : List StorageDiffItem) × (r ≡ diff_items diff)
        × ((key : Bytes)
            → patch diff
                (view test_hex
                  (state_at test_honest no_call 3 built_layer.shared two_blocks_head built_timeline)
                  11)
                key
              ≡ (if queried three_items key
                  then view test_hex
                      (state_at test_honest no_call 3 built_layer.shared two_blocks_head
                        built_timeline)
                      12
                      key
                  else view test_hex
                      (state_at test_honest no_call 3 built_layer.shared two_blocks_head
                        built_timeline)
                      11
                      key))
        × All
            (Changed test_hex
              (state_at test_honest no_call 3 built_layer.shared two_blocks_head built_timeline)
              12
              11)
            diff)
      (storage_diff test_hex
        (λ bytes. bytes)
        (fork_archive test_rpc no_call 3 built_layer.shared two_blocks_head)
        (text_of 12)
        three_items
        none
        built_env)
unfolding parse_block_hash find_block
storage_diff-timeline_example =
    storage_diff-timeline test_honest no_call 3 built_layer.shared two_blocks_head built_timeline
      test_hex (λ bytes. bytes) (bare 12 (hash_of 12) (11 ∷ [])) (text_of 12) three_items built_env
      two_blocks_head-IsHead (refl, (refl, tt)) built_db-IsCacheOf (inl refl)
      (rw built_first (omega arith)) (omega arith) refl ((λ e. cc), ((λ e. cc), ((λ e. cc), tt)))
