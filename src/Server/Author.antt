-- ===== src/Server/Author.antt =====
-- The `author` methods, crates/pop-fork/src/rpc_server/methods/author.rs: what is submitted is built into
-- a block at once. Locks of the pool are never poisoned. The pause before the last status is left out.
pub mod Backing
pub mod Watched
use pop_cli.Prelude.{ℕ, Bool, List, [], ◌∷◌, map, Option, none, some, if◌then◌else◌}
use pop_cli.Bytes.{Bytes}
use pop_cli.Fork.Result.{Error}
use pop_cli.Fork.Monad.{Outcome, returns, raises, stuck, M}
use pop_cli.Fork.Pool.{TxPool, submit, submit_and_drain, drain}
use pop_cli.Fork.Blockchain.Validate.{TransactionValidityError, is_unknown}
use pop_cli.Server.Error.{
  RpcResult, answer, refuse, RpcServerError, internal, invalid_transaction, unknown_transaction,
}
use pop_cli.Server.Hex.{Codec, from_bytes, parse_hex_bytes, to_bytes}

-- An extrinsic that failed, with the reason.
pub record AuthorBuildResult : Type 0 where
  pub block_number : ℕ
  pub block_hash : Bytes
  pub failed : List (Bytes × Bytes)

pub record AuthorBlockchain : Type 1 where
  pub World : Type 0
  pub validate_extrinsic : Bytes → M World (Option TransactionValidityError)
  pub build_block : List Bytes → M World AuthorBuildResult

-- What a watching client is sent.
pub data TransactionStatus : Type 0 where
  ready : TransactionStatus
  broadcast : TransactionStatus
  in_block : Bytes → TransactionStatus
  finalized : Bytes → TransactionStatus
  invalid_hex : TransactionStatus
  invalid_transaction_status : TransactionValidityError → TransactionStatus
  invalid_dispatch : Bytes → TransactionStatus
  dropped : Error → TransactionStatus

pub record AuthorState (b : AuthorBlockchain) : Type 0 where
  pub txpool : TxPool
  pub world : b.World

module _ (hex : Codec) (blake2_256 : Bytes → Bytes) (reason : TransactionValidityError → Bytes)
    (b : AuthorBlockchain) where
  abbrev refusal : TransactionValidityError → RpcServerError
  refusal e =
      if is_unknown e then unknown_transaction (reason e) else invalid_transaction (reason e)

  submitted :
      Bytes → TxPool → Outcome b.World AuthorBuildResult → Outcome (AuthorState b) (RpcResult Bytes)
  submitted hash pool (returns result w) =
      returns (answer (from_bytes hex hash)) (record { txpool = pool; world = w })
  submitted hash pool (raises e w) =
      returns (refuse (internal e)) (record { txpool = pool; world = w })
  submitted hash pool stuck = stuck

  submit_valid :
      Bytes
      → TxPool
      → Outcome b.World (Option TransactionValidityError)
      → Outcome (AuthorState b) (RpcResult Bytes)
  unfolding is_unknown submit_and_drain submitted
  submit_valid bytes pool (returns (some e) w) =
      returns (refuse (refusal e)) (record { txpool = pool; world = w })
  submit_valid bytes pool (returns none w) =
      let r = submit_and_drain blake2_256 pool bytes in submitted r.0 r.2 (b.build_block r.1 w)
  submit_valid bytes pool (raises e w) =
      returns (refuse (internal e)) (record { txpool = pool; world = w })
  submit_valid bytes pool stuck = stuck

  unfoldable pub submit_extrinsic : Bytes → M (AuthorState b) (RpcResult Bytes)
  unfolding submit_valid
  submit_extrinsic text s = elim (parse_hex_bytes hex text) [
    | refuse e ↦ returns (refuse e) s
    | answer bytes ↦ submit_valid bytes s.txpool (b.validate_extrinsic bytes s.world)
  ]

  -- The statuses after the block; in the code any failure counts as that of the extrinsic.
  unfoldable pub watch_result :
      TxPool → Outcome b.World AuthorBuildResult → Outcome (AuthorState b) (List TransactionStatus)
  watch_result pool (returns result w) = elim result.failed [
    | failed ∷ _ ↦
        returns (ready ∷ broadcast ∷ invalid_dispatch failed.1 ∷ [])
          (record { txpool = pool; world = w })
    | [] ↦
        returns
          (ready
            ∷ broadcast
            ∷ in_block (from_bytes hex result.block_hash)
            ∷ finalized (from_bytes hex result.block_hash)
            ∷ [])
          (record { txpool = pool; world = w })
  ]
  watch_result pool (raises e w) =
      returns (ready ∷ broadcast ∷ dropped e ∷ []) (record { txpool = pool; world = w })
  watch_result pool stuck = stuck

  unfoldable pub watch_valid :
      Bytes
      → TxPool
      → Outcome b.World (Option TransactionValidityError)
      → Outcome (AuthorState b) (List TransactionStatus)
  unfolding submit drain watch_result
  watch_valid bytes pool (returns (some e) w) =
      returns (invalid_transaction_status e ∷ []) (record { txpool = pool; world = w })
  watch_valid bytes pool (returns none w) =
      let drained = drain (submit blake2_256 pool bytes).1 in
      watch_result drained.1 (b.build_block drained.0 w)
  watch_valid bytes pool (raises e w) = raises e (record { txpool = pool; world = w })
  watch_valid bytes pool stuck = stuck

  unfoldable pub watch_parsed : Option Bytes → M (AuthorState b) (List TransactionStatus)
  unfolding watch_valid
  watch_parsed none s = returns (invalid_hex ∷ []) s
  watch_parsed (some bytes) s = watch_valid bytes s.txpool (b.validate_extrinsic bytes s.world)

  -- The statuses that are sent. The locks of `submit` and of `drain` are taken with nothing in between.
  unfoldable pub submit_and_watch_extrinsic : Bytes → M (AuthorState b) (List TransactionStatus)
  unfolding watch_parsed
  submit_and_watch_extrinsic text = watch_parsed (to_bytes hex text)

  unfoldable pub pending_extrinsics : AuthorState b → RpcResult (List Bytes)
  pending_extrinsics s = answer (map (from_bytes hex) s.txpool.pending)
