-- ===== src/Fork/Block/Laws.antt =====
-- What a new block sees: the state that its parent had under construction.
use pop_cli.Prelude.{ℕ, ◌+◌, ◌≤◌, ◌<◌, ◌≡◌, refl, ◌∙◌, sym, ap, List, Option, arith, inl, inr, ◌⊎◌}
use pop_cli.Bytes.{Bytes}
use pop_cli.Fork.Result.{arithmetic}
use pop_cli.Fork.Monad.{◌>>=◌, returns, raises, Ensures, raised, weaken-Ensures}
use pop_cli.Fork.Rpc.{Rpc, IsHonest}
use pop_cli.Fork.Cache.Tables.{Db}
use pop_cli.Fork.Cache.Blocks.{u32_max}
use pop_cli.Fork.Remote.{Env}
use pop_cli.Fork.Remote.Sound.{IsCacheOf}
use mathlib.Core.Path.{subst}
use pop_cli.Fork.Local.{Handle, Shared, get}
use pop_cli.Fork.Local.Timeline.{Timeline, over, observe, seal, Refines}
use pop_cli.Fork.Local.Refine.{value_of, get-observe}
use pop_cli.Fork.Local.Commit.{commit-Refines}
use pop_cli.Fork.Local.Runs.{IsCacheOf-storage}
use pop_cli.Fork.Block.{Block, fork_block, child_block, fields, with_fields, layer_of, child}

-- Numbers go up by one from the fork point, and each block names its parent.
abbrev pub IsChain : ℕ → Block → Type 0
IsChain first (fork_block f) = f.number ≡ first
IsChain first (child_block f parent) =
    (f.number ≡ (fields parent).number + 1)
    × (f.parent_hash ≡ (fields parent).hash)
    × IsChain first parent

-- The head of a fork: the block being built is the one after it.
pub record IsHead {rpc : Rpc} (shared : Shared rpc) (block : Block) (db : Db) (t : Timeline)
    : Type 0 where
  pub chain : IsChain (layer_of shared block).first_forked_block_number block
  pub refines : Refines (layer_of shared block) db t
  pub next : (fields block).number + 1 ≡ t.now

moved : Block → Handle → Block
moved block handle = with_fields block (record (fields block) { handle = handle })

IsChain-moved :
    (first : ℕ) (block : Block) (handle : Handle)
    → IsChain first block
    → IsChain first (moved block handle)
unfolding moved
IsChain-moved first (fork_block g) handle c = c
IsChain-moved first (child_block g parent) handle c = c

abbrev born : Block → Handle → Bytes → Bytes → List Bytes → Block
unfolding moved
born block handle hash header extrinsics =
    child_block
      (record {
        number = (fields block).number + 1;
        hash = hash;
        parent_hash = (fields block).hash;
        header = header;
        extrinsics = extrinsics;
        handle = handle;
      })
      (moved block handle)

fields-moved :
    (block : Block) (handle : Handle)
    → fields (moved block handle) ≡ record (fields block) { handle = handle }
unfolding moved
fields-moved (fork_block g) handle = refl
fields-moved (child_block g parent) handle = refl

-- Making a child fails only at the last block number, and then changes nothing. Else the child is
-- the head of the fork, named after its parent, with the header, hash and extrinsics given; the
-- timeline is sealed, and nothing else has changed.
pub child-IsHead :
    {rpc : Rpc} (shared : Shared rpc) (block : Block) (env : Env rpc) (t : Timeline)
    (hash header : Bytes) (extrinsics : List Bytes)
    → IsHead shared block env.db t
    → ((u32_max < t.now + 1)
        × (child rpc shared block hash header extrinsics env ≡ raises arithmetic env))
      ⊎ ((block' : Block) × (db' : Db) × (child rpc shared block hash header extrinsics env
            ≡ returns block' (record env { db = db' }))
          × IsHead shared block' db' (seal t)
          × ((fields block').hash ≡ hash)
          × ((fields block').header ≡ header)
          × ((fields block').parent_hash ≡ (fields block).hash)
          × ((fields block').extrinsics ≡ extrinsics)
          × ((fields block').handle.first_forked_block_hash
              ≡ (fields block).handle.first_forked_block_hash)
          × ((fields block').handle.first_forked_block_number
              ≡ (fields block).handle.first_forked_block_number)
          × (db'.storage ≡ env.db.storage))
unfolding child moved born
child-IsHead {rpc} shared block env t hash header extrinsics h =
    elim (commit-Refines (layer_of shared block) env t h.refines) [
      | inl (over, e) ↦ inl (over, rw e)
      | inr (layer₁, db₁, e, r, sh, sf, same, ss) ↦ inr (
        born block layer₁.handle hash header extrinsics,
        db₁,
        rw e,
        record {
          chain = (
            ap (λ f. f.number + 1) (sym (fields-moved block layer₁.handle)),
            ap (λ f. f.hash) (sym (fields-moved block layer₁.handle)),
            subst (λ first. IsChain first (moved block layer₁.handle)) (sym sf)
                (IsChain-moved _ block layer₁.handle h.chain),
          );
          refines =
              subst
                (λ shared'.
                  Refines (record { handle = layer₁.handle; shared = shared' }) db₁ (seal t))
                same r;
          next = ap (λ n. n + 1) h.next;
        },
        refl,
        refl,
        refl,
        refl,
        sh,
        sf,
        ss,
      )
    ]

-- A new block shows the state that its parent had under construction: after a child is made, a read
-- at its number ends with the last value written on the fork, or else the value in the state of the
-- fork point. It fails only if the block numbers are at their end, or the node lets it.
pub child-observe :
    {rpc : Rpc} {chain : Bytes → Bytes → Option Bytes} {Fails : Type 0}
    (honest : IsHonest rpc chain Fails) (shared : Shared rpc) (block : Block) (env : Env rpc)
    (t : Timeline) (hash header : Bytes) (extrinsics : List Bytes) (k : Bytes)
    → IsHead shared block env.db t
    → IsCacheOf chain env.db
    → Ensures
        (λ o _.
          value_of o ≡ over (t.writes k) (chain (fields block).handle.first_forked_block_hash k))
        (λ _. (u32_max < t.now + 1) ⊎ Fails)
        ((child rpc shared block hash header extrinsics >>= λ block'.
            get rpc (layer_of shared block') (fields block').number k)
          env)
child-observe {chain = chain} honest shared block env t hash header extrinsics k h c =
    elim (child-IsHead shared block env t hash header extrinsics h) [
      | inl (over, e) ↦ rw e (raised (inl over))
      | inr (block', db', e, h', _, _, _, _, sh, sf, ss) ↦ rw e (
          weaken-Ensures
            (get-observe honest (layer_of shared block') (record env { db = db' })
              (IsCacheOf-storage chain env.db db' ss c) (seal t) h'.refines (fields block').number k
              (rw sf (first_lower h'.next)) (at_most h'.next))
            (λ o s q.
              q.0
              ∙ seen (chain (fields block').handle.first_forked_block_hash) (fields block').number
                  h'.next
              ∙ ap (λ f. over (t.writes k) (chain f k)) sh)
            (λ s q. inr q.0))
    ]
  where
    first_lower : {n : ℕ} → n + 1 ≡ t.now + 1 → (fields block).handle.first_forked_block_number < n
    first_lower e = omega (arith, h.refines.after_fork, e)

    at_most : {n : ℕ} → n + 1 ≡ t.now + 1 → n ≤ t.now + 1
    at_most e = omega (arith, e)

    seen :
        (base : Bytes → Option Bytes) (n : ℕ)
        → n + 1 ≡ t.now + 1
        → observe base (seal t) n k ≡ over (t.writes k) (base k)
    seen base n e = ground arith
