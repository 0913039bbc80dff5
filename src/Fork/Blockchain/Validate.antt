-- ===== src/Fork/Blockchain/Validate.antt =====
-- `validate_extrinsic` of crates/pop-fork/src/blockchain.rs. The decoder of the answer of the runtime is
-- derived by the library `scale`, so an argument: `none` is a failed decoding, `some none` is valid.
use pop_cli.Prelude.{ℕ, Bool, true, false, ◌∷◌, ◌++◌, Option, none, some}
use pop_cli.Bytes.{Bytes}
use pop_cli.Fork.Monad.{Outcome, returns, raises, stuck, M}
use pop_cli.Fork.Rpc.{Rpc}
use pop_cli.Fork.Remote.{Env}
use pop_cli.Fork.Block.{fields, layer_of}
use pop_cli.Fork.Builder.{RuntimeCallResult, validate_transaction}
use pop_cli.Fork.Blockchain.Build.{Engine, Fork}

pub data InvalidTransaction : Type 0 where
  bad_call : InvalidTransaction
  payment : InvalidTransaction
  future : InvalidTransaction
  stale : InvalidTransaction
  bad_mandatory : InvalidTransaction
  mandatory_dispatch : InvalidTransaction
  bad_signer : InvalidTransaction
  custom : ℕ → InvalidTransaction

pub data UnknownTransaction : Type 0 where
  cannot_lookup : UnknownTransaction
  no_unsigned_validator : UnknownTransaction
  custom_unknown : ℕ → UnknownTransaction

pub data TransactionValidityError : Type 0 where
  invalid : InvalidTransaction → TransactionValidityError
  unknown : UnknownTransaction → TransactionValidityError

unfoldable pub is_unknown : TransactionValidityError → Bool
is_unknown (invalid _) = false
is_unknown (unknown _) = true

-- `transaction_source::EXTERNAL`
abbrev pub external : ℕ
external = 2

-- What is wrong with the extrinsic, if anything is.
abbrev pub verdict : Option (Option TransactionValidityError) → Option TransactionValidityError
verdict none = some (unknown cannot_lookup)
verdict (some result) = result

module _ {rpc : Rpc} (engine : Engine rpc)
    (decode : Bytes → Option (Option TransactionValidityError)) where
  abbrev pub validated :
      Fork engine
      → Outcome (Env rpc) RuntimeCallResult
      → Outcome (Fork engine) (Option TransactionValidityError)
  validated fork (returns result env) =
      returns (verdict (decode result.output)) (record fork { env = env })
  validated fork (raises e env) = returns (some (unknown cannot_lookup)) (record fork { env = env })
  validated fork stuck = stuck

  unfoldable pub validate_extrinsic : Bytes → M (Fork engine) (Option TransactionValidityError)
  validate_extrinsic extrinsic fork = validated fork (
      (engine.runtime fork.executor).execute validate_transaction
        (external ∷ extrinsic ++ (fields fork.head).hash) (layer_of fork.shared fork.head) fork.env)
