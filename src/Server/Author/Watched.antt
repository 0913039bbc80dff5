-- ===== src/Server/Author/Watched.antt =====
-- What a watching client is told, over the fork.
use pop_cli.Prelude.{◌≡◌, List, Option}
use pop_cli.Bytes.{Bytes}
use pop_cli.Fork.Rpc.{Rpc, IsHonest}
use pop_cli.Fork.Remote.Sound.Keeping.{Replying}
use pop_cli.Fork.Local.Timeline.{Timeline}
use pop_cli.Fork.Pool.{new_pool}
use pop_cli.Fork.Builder.Hosts.{Hosts}
use pop_cli.Fork.Blockchain.Build.{Engine, Fork}
use pop_cli.Fork.Blockchain.Validate.{TransactionValidityError}
use pop_cli.Server.Hex.{Codec}
use pop_cli.Server.Author.{AuthorState, TransactionStatus}
use pop_cli.Server.Author.Backing.{fork_author, Tells}

module _ {rpc : Rpc} {chain : Bytes → Bytes → Option Bytes} {Fails : Type 0}
    (honest : IsHonest rpc chain Fails) (replying : Replying rpc) (engine : Engine rpc)
    (hosts : (executor : engine.Executor) → Hosts chain (engine.runtime executor))
    (decode : Bytes → Option (Option TransactionValidityError)) where
  module _ (hex : Codec) (blake2_256 : Bytes → Bytes)
      (reason : TransactionValidityError → Bytes) where
    -- The pool is empty, and what was sent tells what happened.
    abbrev Honest :
        Option Bytes
        → Fork engine
        → List TransactionStatus
        → AuthorState (fork_author engine decode)
        → Type 0
    Honest extrinsic fork statuses s =
        (s.txpool ≡ new_pool) × Tells engine hex fork s.world extrinsic statuses
