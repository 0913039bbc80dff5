-- ===== src/Fork/Blockchain/Called.antt =====
-- The block that a call is run on, against the lookup of its number.
use pop_cli.Prelude.{ℕ, ◌≡◌, refl, ap, ◌∙◌, ◌⊎◌, inl, inr, Option, none, some, arith, Bool-cases}
use pop_cli.Bytes.{Bytes, bytes_beq, bytes_beq_iff}
use pop_cli.Fork.Monad.{returns}
use pop_cli.Fork.Rpc.{Rpc}
use pop_cli.Fork.Remote.{Env, block_number_by_hash}
use pop_cli.Fork.Block.{Fields, Block, fork_block, child_block, fields}
use pop_cli.Fork.Blockchain.{find_block, has_hash, with_upstream, retry_upstream, number_by_hash}
use pop_cli.Fork.Blockchain.Queries.{
  find_clone, mocked_for_call, or_mocked, find_or_create_block_for_call,
}

abbrev fields_of : Option Block → Option Fields
fields_of none = none
fields_of (some block) = some (fields block)

abbrev pub number_of : Option Block → Option ℕ
number_of none = none
number_of (some block) = some (fields block).number

-- A block that is found has the hash, and it is that of the fork or has the storage of the head.
abbrev pub Serves : Bytes → Block → Option Block → Type 0
Serves hash head none = find_block (has_hash hash) head ≡ none
Serves hash head (some block) =
    ((fields block).hash ≡ hash)
    × ((find_block (has_hash hash) head ≡ some (fields block))
        ⊎ ((find_block (has_hash hash) head ≡ none)
            × ((fields block).handle ≡ (fields head).handle)))

find_clone-find_block :
    (hash : Bytes) (head : Block)
    → find_block (has_hash hash) head ≡ fields_of (find_clone hash head)
unfolding find_block find_clone
find_clone-find_block hash (fork_block f) = elim (Bool-cases (bytes_beq f.hash hash)) [
  | inl e ↦ rw e refl
  | inr e ↦ rw e refl
]
find_clone-find_block hash (child_block f parent) = elim (Bool-cases (bytes_beq f.hash hash)) [
  | inl e ↦ rw e refl
  | inr e ↦ rw e (find_clone-find_block hash parent)
]

find_block-has_hash :
    (hash : Bytes) (head : Block) (f : Fields)
    → find_block (has_hash hash) head ≡ some f
    → f.hash ≡ hash
unfolding find_block
find_block-has_hash hash (fork_block g) f e = ground (arith, e, bytes_beq_iff g.hash hash)
find_block-has_hash hash (child_block g parent) f e =
    ground (arith, e, bytes_beq_iff g.hash hash, find_block-has_hash hash parent f)

module _ (rpc : Rpc) (zero_hash : Bytes) (head : Block) (hash : Bytes) (env : Env rpc) where
  -- Both give the same answer and leave the same environment.
  abbrev Agrees : Option Block → Env rpc → Type 0
  Agrees found s =
      (find_or_create_block_for_call rpc zero_hash head hash env ≡ returns found s)
      × (number_by_hash rpc head hash env ≡ returns (number_of found) s)
      × Serves hash head found

  on_fork : (block : Block) → find_clone hash head ≡ some block → Agrees (some block) env
  unfolding find_or_create_block_for_call or_mocked number_by_hash
  on_fork block e =
      let q = find_clone-find_block hash head ∙ ap fields_of e in
      (rw e refl, rw q refl, (find_block-has_hash hash head (fields block) q, inl q))

  made : Option ℕ → Option Block
  made none = none
  made (some n) = some (mocked_for_call zero_hash hash n (fields head).handle)

  on_node :
      (o : Option ℕ) (s : Env rpc)
      → block_number_by_hash rpc hash env ≡ returns o s
      → find_clone hash head ≡ none
      → Agrees (made o) s
  unfolding find_or_create_block_for_call or_mocked number_by_hash with_upstream retry_upstream made
  on_node none s a e =
      let q = find_clone-find_block hash head ∙ ap fields_of e in
      (rw (e, a) refl, rw (q, a) refl, q)
  on_node (some n) s a e =
      let q = find_clone-find_block hash head ∙ ap fields_of e in
      (rw (e, a) refl, rw (q, a) refl, (refl, inr (q, refl)))

  -- Where the node, or the cache of its blocks, answers with the number of a hash, the lookup of a block
  -- for a call and the lookup of the number agree: they leave the same environment, and find nothing
  -- both or a block with that number. It has the hash; it is the block of the fork with the hash, or,
  -- if the fork has none, a block with the storage of the head.
  pub find_or_create_block_for_call-number_by_hash :
      (o : Option ℕ) (s : Env rpc)
      → block_number_by_hash rpc hash env ≡ returns o s
      → (found : Option Block) × (s' : Env rpc) × Agrees found s'
  find_or_create_block_for_call-number_by_hash o s a = go (find_clone hash head) refl
    where
      go :
          (c : Option Block)
          → find_clone hash head ≡ c
          → (found : Option Block) × (s' : Env rpc) × Agrees found s'
      go none e = (made o, s, on_node o s a e)
      go (some block) e = (some block, env, on_fork block e)
