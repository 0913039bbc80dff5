-- ===== src/Fork/Blockchain/Laws.antt =====
-- The lookups of the blocks of a fork agree with each other.
use pop_cli.Prelude.{
  ℕ, ◌≤◌, ◌<◌, ◌≡◌, refl, ◌∙◌, sym, ap, true, false, Option, none, some, arith, nat_beq, ltb,
  if◌then◌else◌, Bool-cases, inl, inr, ◌⊎◌, nat_beq_refl,
}
use pop_cli.Bytes.{bytes_beq, bytes_beq_iff}
use pop_cli.Fork.Monad.{returns}
use pop_cli.Fork.Rpc.{Rpc}
use pop_cli.Fork.Remote.{Env, call}
use pop_cli.Fork.Block.{Fields, Block, fork_block, child_block, fields}
use pop_cli.Fork.Block.Laws.{IsChain}
use pop_cli.Fork.Blockchain.{
  find_block, has_hash, has_number, with_upstream, block_body, block_hash_at, number_by_hash,
  block_parent_hash,
}

-- The block is the head or one of the blocks below it.
abbrev pub On : Fields → Block → Type 0
On f (fork_block g) = f ≡ g
On f (child_block g parent) = (f ≡ g) ⊎ On f parent

-- No two blocks of the fork have the same hash.
abbrev pub HasDistinctHashes : Block → Type 0
HasDistinctHashes (fork_block f) = Unit {0}
HasDistinctHashes (child_block f parent) =
    (find_block (has_hash f.hash) parent ≡ none) × HasDistinctHashes parent

first_le : {first : ℕ} (block : Block) → IsChain first block → first ≤ (fields block).number
first_le (fork_block f) c = omega (arith, c)
first_le (child_block f parent) c = omega (arith, c.0, first_le parent c.2)

On-number :
    (first : ℕ) (f : Fields) (block : Block)
    → IsChain first block
    → On f block
    → (first ≤ f.number) × (f.number ≤ (fields block).number)
On-number first f (fork_block g) c o = (rw o (omega (arith, c)), rw o (omega arith))
On-number first f (child_block g parent) c (inl e) =
    (rw e (omega (arith, c.0, first_le parent c.2)), rw e (omega arith))
On-number first f (child_block g parent) c (inr o) =
    let (lo, hi) = On-number first f parent c.2 o in (lo, omega (arith, hi, c.0))

find_block-number :
    (first : ℕ) (f : Fields) (block : Block)
    → IsChain first block
    → On f block
    → find_block (has_number f.number) block ≡ some f
unfolding find_block
find_block-number first f (fork_block g) c o = rw o (rw (nat_beq_refl g.number))
find_block-number first f (child_block g parent) c (inl e) = rw e (rw (nat_beq_refl g.number))
find_block-number first f (child_block g parent) c (inr o) =
    rw (other (On-number first f parent c.2 o).1) (find_block-number first f parent c.2 o)
  where
    other : f.number ≤ (fields parent).number → nat_beq g.number f.number ≡ false
    other h = ground (arith, c.0, h)

not_both : (o : Option Fields) (f : Fields) → o ≡ none → o ≡ some f → ⊥
not_both o f a b = cc

pub find_block-hash :
    (f : Fields) (block : Block)
    → HasDistinctHashes block
    → On f block
    → find_block (has_hash f.hash) block ≡ some f
unfolding find_block
find_block-hash f (fork_block g) d o = rw o (rw ((bytes_beq_iff g.hash g.hash).1 refl))
find_block-hash f (child_block g parent) d (inl e) =
    rw e (rw ((bytes_beq_iff g.hash g.hash).1 refl))
find_block-hash f (child_block g parent) d (inr o) = elim (Bool-cases (bytes_beq g.hash f.hash)) [
  | inl e ↦ absurd (
      not_both _ f
        (ap (λ h. find_block (has_hash h) parent) (sym ((bytes_beq_iff g.hash f.hash).0 e)) ∙ d.0)
        (find_block-hash f parent d.1 o))
  | inr e ↦ rw e (find_block-hash f parent d.1 o)
]

find_block-above :
    (first n : ℕ) (block : Block)
    → IsChain first block
    → n < first
    → find_block (has_number n) block ≡ none
unfolding find_block
find_block-above first n (fork_block f) c h = ground (arith, c, h)
find_block-above first n (child_block f parent) c h =
    rw (other (first_le parent c.2)) (find_block-above first n parent c.2 h)
  where
    other : first ≤ (fields parent).number → nat_beq f.number n ≡ false
    other l = ground (arith, c.0, l, h)

-- Every number from the fork point to the head has its block.
pub block_at :
    (first n : ℕ) (block : Block)
    → IsChain first block
    → first ≤ n
    → n ≤ (fields block).number
    → (f : Fields) × (f.number ≡ n) × On f block
block_at first n (fork_block f) c l h = (f, omega (arith, c), refl)
block_at first n (child_block f parent) c l h = elim (Bool-cases (nat_beq f.number n)) [
  | inl e ↦ (f, ground (arith, e), inl refl)
  | inr e ↦
      let (g, number, on) = block_at first n parent c.2 l (ground (arith, c.0, e, h)) in
      (g, number, inr on)
]

-- The lookups on a fork, of which no two blocks have the same hash, agree: each number from the fork point to the head is the number of a block
-- of the fork. The lookup by that number gives its hash; the lookups by that hash give the number,
-- the extrinsics and the parent hash of the same block; and none of them asks the node.
pub block_hash_at_lem :
    (rpc : Rpc) (first n : ℕ) (head : Block) (env : Env rpc)
    → IsChain first head
    → HasDistinctHashes head
    → first ≤ n
    → n ≤ (fields head).number
    → (f : Fields) × (f.number ≡ n)
      × On f head
      × (block_hash_at rpc head n env ≡ returns (some f.hash) env)
      × (number_by_hash rpc head f.hash env ≡ returns (some n) env)
      × (block_body rpc head f.hash env ≡ returns (some f.extrinsics) env)
      × (block_parent_hash rpc head f.hash env ≡ returns (some f.parent_hash) env)
unfolding block_hash_at number_by_hash block_body block_parent_hash
block_hash_at_lem rpc first n head env c d l h =
    let (f, number, on) = block_at first n head c l h in
    let by_hash = find_block-hash f head d on in
    (
      f,
      number,
      on,
      rw (at_or_below, sym number, find_block-number first f head c on),
      rw by_hash (ap (λ m. returns (some m) env) number),
      rw by_hash,
      rw by_hash,
    )
  where
    at_or_below : ltb (fields head).number n ≡ false
    at_or_below = ground (arith, h)

-- For a number outside the fork the lookup by number finds nothing beyond the head, without asking
-- the node, and before the fork point gives what the node answers.
pub block_hash_at-outside :
    (rpc : Rpc) (first n : ℕ) (head : Block) (env : Env rpc)
    → IsChain first head
    → (n < first) ⊎ ((fields head).number < n)
    → block_hash_at rpc head n env ≡ (
        if ltb (fields head).number n
        then returns none env
        else with_upstream rpc (call rpc (rpc.block_hash_at n)) env)
unfolding block_hash_at
block_hash_at-outside rpc first n head env c (inr h) = rw (beyond h)
  where
    beyond : (fields head).number < n → ltb (fields head).number n ≡ true
    beyond h = ground (arith, h)
block_hash_at-outside rpc first n head env c (inl h) =
    rw (before (first_le head c), find_block-above first n head c h)
  where
    before : first ≤ (fields head).number → ltb (fields head).number n ≡ false
    before l = ground (arith, h, l)
