-- ===== src/Server/OverFork.antt =====
-- `impl ArchiveBlockchain for Blockchain`, crates/pop-fork/src/rpc_server/methods/archive.rs: the
-- fork behind the handlers, with a head that is not moved meanwhile. Calls of the runtime, and the
-- fuel for pages of keys, are parameters.
use mathlib.Core.Path.{subst}
use pop_cli.Prelude.{
  ℕ, ◌+◌, ◌-◌, ◌≤◌, ◌<◌, ◌≡◌, refl, sym, ap, ◌∙◌, inl, inr, List, Option, none, arith,
  if◌then◌else◌, All,
}
use pop_cli.Bytes.{Bytes}
use pop_cli.Fork.Monad.{M, returns, returned, weaken-Ensures}
use pop_cli.Fork.Rpc.{Rpc, IsHonest}
use pop_cli.Fork.Remote.{Env}
use pop_cli.Fork.Remote.Sound.{IsCacheOf}
use pop_cli.Fork.Local.{Shared}
use pop_cli.Fork.Local.Timeline.{Timeline, observe, Refines}
use pop_cli.Fork.Block.{Fields, Block, fork_block, child_block, fields, layer_of}
use pop_cli.Fork.Block.Laws.{IsChain, IsHead}
use pop_cli.Fork.Blockchain.{
  block_hash_at, block_header, block_body, number_by_hash, block_parent_hash, get_storage_value,
  storage_keys_by_prefix,
}
use pop_cli.Fork.Blockchain.Laws.{On, HasDistinctHashes, find_block-hash}
use pop_cli.Fork.Blockchain.Storage.{get_storage_value-keeps}
use pop_cli.Server.Error.{answer}
use pop_cli.Server.Hex.{Codec, parse_block_hash}
use pop_cli.Server.Backend.{ArchiveBlockchain}
use pop_cli.Server.Handler.{Replies}
use pop_cli.Server.Archive.{StorageDiffQueryItem, StorageDiffItem, diff_items, storage_diff}
use pop_cli.Server.Archive.Diff.{view, patch, queried, WantsValue, Changed}
use pop_cli.Server.Archive.StorageDiff.{
  Serves, Resolves, HasParent, by_parent, storage_diff-patches,
}

abbrev pub fork_archive :
    (rpc : Rpc)
    → (Bytes → Bytes → Bytes → M (Env rpc) (Option Bytes))
    → ℕ
    → Shared rpc
    → Block
    → ArchiveBlockchain
fork_archive rpc call_at_block fuel shared head = record {
  World = Env rpc;
  head_number = λ env. returns (fields head).number env;
  block_hash_at = block_hash_at rpc head;
  block_header = block_header rpc head;
  block_body = block_body rpc head;
  call_at_block = call_at_block;
  block_number_by_hash = number_by_hash rpc head;
  storage_at = get_storage_value rpc shared head;
  storage_keys_by_prefix = storage_keys_by_prefix rpc fuel shared head;
  block_parent_hash = block_parent_hash rpc head;
}

On-self : (block : Block) → On (fields block) block
On-self (fork_block f) = refl
On-self (child_block f below) = inl refl

-- A block after the fork point has its parent on the fork.
parent_of :
    (first : ℕ) (f : Fields) (block : Block)
    → IsChain first block
    → On f block
    → first < f.number
    → (g : Fields) × On g block × (g.hash ≡ f.parent_hash) × (g.number + 1 ≡ f.number)
parent_of first f (fork_block g) c o lt = absurd (omega (arith, c, ap Fields.number o))
parent_of first f (child_block g below) c (inl e) lt = (
  fields below,
  inr (On-self below),
  sym (ap Fields.parent_hash e ∙ c.1),
  sym (ap Fields.number e ∙ c.0),
)
parent_of first f (child_block g below) c (inr o) lt =
    let (h, on, hash, number) = parent_of first f below c.2 o lt in (h, inr on, hash, number)

module _ {rpc : Rpc} {chain : Bytes → Bytes → Option Bytes} {Fails : Type 0}
    (honest : IsHonest rpc chain Fails)
    (call_at_block : Bytes → Bytes → Bytes → M (Env rpc) (Option Bytes)) (fuel : ℕ)
    (shared : Shared rpc) (head : Block) (t : Timeline) where
  -- The state of a block after the fork point.
  abbrev pub state_at : ℕ → Bytes → Option Bytes
  state_at = observe (chain (fields head).handle.first_forked_block_hash) t

  abbrev pub IsKept : Env rpc → Type 0
  IsKept env = IsCacheOf chain env.db × Refines (layer_of shared head) env.db t

  abbrev archive : ArchiveBlockchain
  archive = fork_archive rpc call_at_block fuel shared head

  archive-Serves :
      (n : ℕ)
      → (fields head).handle.first_forked_block_number < n
      → n ≤ t.now
      → Serves archive IsKept state_at n
  archive-Serves n lo hi = record {
    storage_at_reply = λ k env kept.
        weaken-Ensures (get_storage_value-keeps honest shared head t n k lo hi env kept)
          (λ _ _ r. (r.1, r.0)) (λ _ r. r.0.1);
  }

  archive-Resolves :
      (f : Fields) → HasDistinctHashes head → On f head → Resolves archive IsKept f.hash f.number
  unfolding number_by_hash
  archive-Resolves f d on env kept = rw (find_block-hash f head d on) (returned (kept, refl))

  archive-HasParent :
      (f : Fields)
      → HasDistinctHashes head
      → On f head
      → HasParent archive IsKept f.hash f.parent_hash
  unfolding block_parent_hash
  archive-HasParent f d on env kept = rw (find_block-hash f head d on) (returned (kept, refl))

  -- Let no two blocks of the fork have the same hash, and let every item ask for values, not hashes. The
  -- storage diff of a block of the fork against its parent, both after the fork point, is right for the
  -- timeline of the fork: a refusal, or a list of changes that turns what a client sees of the timeline at
  -- the parent into what it sees at the block, at every key that was asked for, and has no item whose
  -- value is the same in both.
  pub storage_diff-timeline :
      (hex : Codec) (blake2_256 : Bytes → Bytes) (f : Fields) (text : Bytes)
      (items : List StorageDiffQueryItem) (env : Env rpc)
      → IsHead shared head env.db t
      → HasDistinctHashes head
      → IsCacheOf chain env.db
      → On f head
      → (fields head).handle.first_forked_block_number + 1 < f.number
      → f.number ≤ (fields head).number
      → parse_block_hash hex text ≡ answer f.hash
      → All WantsValue items
      → Replies IsKept
          (λ r.
            (diff : List StorageDiffItem) × (r ≡ diff_items diff)
            × ((key : Bytes)
                → patch diff (view hex state_at (f.number - 1)) key ≡ (
                    if queried items key
                    then view hex state_at f.number key
                    else view hex state_at (f.number - 1) key))
            × All (Changed hex state_at f.number (f.number - 1)) diff)
          (storage_diff hex blake2_256
            (fork_archive rpc call_at_block fuel shared head)
            text
            items
            none
            env)
  storage_diff-timeline hex blake2_256 f text items env h d c on lo hi parsed wants =
      let (g, on', hash, number) =
        parent_of (fields head).handle.first_forked_block_number f head h.chain on (omega arith) in
      storage_diff-patches hex blake2_256 state_at f.number (f.number - 1) archive
        (archive-Serves f.number (omega arith) (omega (arith, hi, h.next)))
        (archive-Serves (f.number - 1) (omega arith) (omega (arith, hi, h.next))) text f.hash
        f.parent_hash items none env wants parsed (archive-Resolves f d on)
        (by_parent (archive-HasParent f d on))
        (subst (λ n. Resolves archive IsKept f.parent_hash n) (omega (arith, number))
          (subst (λ x. Resolves archive IsKept x g.number) hash (archive-Resolves g d on')))
        (c, h.refines)
