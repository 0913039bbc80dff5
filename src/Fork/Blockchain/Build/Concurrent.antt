-- ===== src/Fork/Blockchain/Build/Concurrent.antt =====
-- Builds that run at the same time. A build reads the head, builds without a lock, swaps the head, and
-- announces the block; between these, other builds and all else that changes the fork may come.
use pop_cli.Prelude.{◌≡◌, List, [], ◌∷◌, ◌++◌}
use pop_cli.Bytes.{Bytes}
use pop_cli.Fork.Result.{Error}
use pop_cli.Fork.Monad.{returns, raises}
use pop_cli.Fork.Rpc.{Rpc}
use pop_cli.Fork.Remote.{Env}
use pop_cli.Fork.Local.{Shared}
use pop_cli.Fork.Block.{Block, fields}
use pop_cli.Fork.Blockchain.Build.{
  Engine, BuildBlockResult, Fork, Built, build_on, commit_head, announce,
}

-- Where a build is.
pub data Pending {rpc : Rpc} (engine : Engine rpc) : Type 0 where
  waiting : Block → List Bytes → Pending engine
  built : Block → Built engine → Pending engine
  swapped : Built engine → Pending engine

-- The last block of a chain of blocks from the first, each of which names the one before.
pub data Descends (first : Block) : Block → Type 0 where
  here : Descends first first
  next :
      {block : Block} (child : Block)
      → Descends first block
      → (fields child).parent_hash ≡ (fields block).hash
      → Descends first child

module _ {rpc : Rpc} (engine : Engine rpc) where
  pub data Step
      : Fork engine → List (Pending engine) → Fork engine → List (Pending engine) → Type 0 where
    asked :
        (xs : List Bytes) (fork : Fork engine) (pending : List (Pending engine))
        → Step fork pending fork (waiting fork.head xs ∷ pending)
    built_on :
        (before after : List (Pending engine)) (parent : Block) (xs : List Bytes)
        (made : Built engine) (fork fork' : Fork engine)
        → build_on engine parent xs fork ≡ returns made fork'
        → Step fork
            (before ++ waiting parent xs ∷ after)
            fork'
            (before ++ built parent made ∷ after)
    build_failed :
        (before after : List (Pending engine)) (parent : Block) (xs : List Bytes) (e : Error)
        (fork fork' : Fork engine)
        → build_on engine parent xs fork ≡ raises e fork'
        → Step fork (before ++ waiting parent xs ∷ after) fork' (before ++ after)
    head_swapped :
        (before after : List (Pending engine)) (parent : Block) (made : Built engine) (u : Unit {0})
        (fork fork' : Fork engine)
        → commit_head engine (fields parent).hash made fork ≡ returns u fork'
        → Step fork (before ++ built parent made ∷ after) fork' (before ++ swapped made ∷ after)
    lost :
        (before after : List (Pending engine)) (parent : Block) (made : Built engine) (e : Error)
        (fork fork' : Fork engine)
        → commit_head engine (fields parent).hash made fork ≡ raises e fork'
        → Step fork (before ++ built parent made ∷ after) fork' (before ++ after)
    announced :
        (before after : List (Pending engine)) (made : Built engine) (r : BuildBlockResult)
        (fork fork' : Fork engine)
        → announce engine made fork ≡ returns r fork'
        → Step fork (before ++ swapped made ∷ after) fork' (before ++ after)
    -- reads, and the other writes of storage
    moved :
        (fork : Fork engine) (pending : List (Pending engine)) (env : Env rpc) (shared : Shared rpc)
        → Step fork pending (record fork { env = env; shared = shared }) pending

  pub data Reach (fork : Fork engine) : Fork engine → List (Pending engine) → Type 0 where
    start : Reach fork fork []
    step :
        {s t : Fork engine} {pending pending' : List (Pending engine)}
        → Reach fork s pending
        → Step s pending t pending'
        → Reach fork t pending'
