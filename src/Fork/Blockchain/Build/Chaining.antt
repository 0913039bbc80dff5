-- ===== src/Fork/Blockchain/Build/Chaining.antt =====
-- However builds interleave, the heads of the fork form one chain.
use pop_cli.Prelude.{◌≡◌, List, All}
use pop_cli.Bytes.{Bytes}
use pop_cli.Fork.Rpc.{Rpc}
use pop_cli.Fork.Block.{Block, fields}
use pop_cli.Fork.Blockchain.Build.{Engine, BlockchainEvent, Fork}
use pop_cli.Fork.Blockchain.Build.Names.{Names}
use pop_cli.Fork.Blockchain.Build.Concurrent.{Pending, waiting, built, swapped, Descends}

module _ {rpc : Rpc} (engine : Engine rpc) where
  -- The head and the events are as they were.
  abbrev Same : Fork engine → Fork engine → Type 0
  Same f s = (s.head ≡ f.head) × (s.events ≡ f.events)

  module _ (first : Block) where
    -- The event is of a block of the chain.
    abbrev pub Announced : BlockchainEvent → Type 0
    Announced event =
        (block : Block) × Descends first block
        × (event.hash ≡ (fields block).hash)
        × (event.parent_hash ≡ (fields block).parent_hash)

    abbrev Ready : Pending engine → Type 0
    Ready (waiting parent xs) = Unit {0}
    Ready (built parent made) = (fields made.result.block).parent_hash ≡ (fields parent).hash
    Ready (swapped made) = Descends first made.result.block

    record IsChained (fork : Fork engine) (pending : List (Pending engine)) : Type 0 where
      head : Descends first fork.head
      announcements : All Announced fork.events
      ready : All Ready pending
