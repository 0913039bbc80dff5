-- ===== src/Fork/Builder/State.antt =====
-- What a builder keeps and what it takes from the runtime, crates/pop-fork/src/builder.rs and executor.rs.
use pop_cli.Prelude.{ℕ, Bool, List, Option}
use pop_cli.Bytes.{Bytes}
use pop_cli.Fork.Result.{Result}
use pop_cli.Fork.Monad.{M}
use pop_cli.Fork.Rpc.{Rpc}
use pop_cli.Fork.Remote.{Env}
use pop_cli.Fork.Local.{Shared, Layer}
use pop_cli.Fork.Block.{Block}

pub data BuilderPhase : Type 0 where
  created : BuilderPhase
  initialized : BuilderPhase
  inherents_applied : BuilderPhase

-- `RuntimeCallResult`, with the parts that the builder uses.
pub record RuntimeCallResult : Type 0 where
  pub output : Bytes
  pub storage_diff : List (Bytes × Option Bytes)

pub data ApplyExtrinsicResult : Type 0 where
  success : ℕ → ApplyExtrinsicResult
  dispatch_failed : Bytes → ApplyExtrinsicResult

-- The functions of the runtime that are called.
pub data RuntimeApi : Type 0 where
  core_initialize_block : RuntimeApi
  apply_extrinsic_api : RuntimeApi
  finalize_block : RuntimeApi
  metadata_api : RuntimeApi
  aura_api_slot_duration : RuntimeApi
  validate_transaction : RuntimeApi

-- The executor, the providers of inherents, and library functions.
pub record Runtime (rpc : Rpc) : Type 0 where
  pub execute : RuntimeApi → Bytes → Layer rpc → M (Env rpc) RuntimeCallResult
  pub providers : List (Shared rpc → Block → M (Env rpc) (List Bytes))
  pub blake2_256 : Bytes → Bytes
  pub code_key : Bytes
  pub decode_metadata : Bytes → Result rpc.Metadata
  pub has_para_inherent : rpc.Metadata → Bool
  pub para_inherent_included_key : Bytes

-- `BlockBuilder`, with the environment and what the layers of the fork share.
pub record Building (rpc : Rpc) : Type 0 where
  pub env : Env rpc
  pub shared : Shared rpc
  pub parent : Block
  pub extrinsics : List Bytes
  pub header : Bytes
  pub phase : BuilderPhase
