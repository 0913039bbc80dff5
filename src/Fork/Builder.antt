-- ===== src/Fork/Builder.antt =====
-- The building of a block, crates/pop-fork/src/builder.rs. The runtime runs in a WebAssembly engine,
-- and the inherents come from providers: both are parameters. A builder is made as `build_block` of
-- crates/pop-fork/src/blockchain.rs makes it, with nothing to prefetch. The compiled prototype that
-- is handed from call to call, and the texts of logs and errors, are left out.
mod State
pub use State.*
pub mod Phases
pub mod Laws
pub mod Writes
pub mod Finish
pub mod Hosts
pub mod Inherents
use pop_cli.Prelude.{
  ℕ, Bool, true, false, ◌&&◌, List, [], ◌∷◌, ◌++◌, Option, none, some, length, nat_beq,
  if◌then◌else◌,
}
use pop_cli.Bytes.{Bytes}
use pop_cli.Fork.Result.{
  Result, not_initialized, already_initialized, inherents_not_applied, inherents_already_applied,
  inherent_provider,
}
use pop_cli.Fork.Monad.{
  Outcome, returns, raises, stuck, M, ◌>>=◌, ◌>>◌, pure, raise, modify, gets, lift,
}
use pop_cli.Fork.Rpc.{Rpc}
use pop_cli.Fork.Remote.{Env, reset_stats}
use pop_cli.Fork.Local.{
  Shared, Layer, set, set_batch, has_code_changed_at, register_metadata_version,
}
use pop_cli.Fork.Block.{Fields, Block, fields, layer_of, child, block_metadata}

-- `(Some(0x00), Some(0x00))`
abbrev pub dispatch_ok : Bytes → Bool
dispatch_ok [] = false
dispatch_ok (a ∷ []) = false
dispatch_ok (a ∷ b ∷ output) = nat_beq a 0 && nat_beq b 0

-- `output.first().map(|&b| b == 0x00).unwrap_or(false)`
abbrev pub is_success : Bytes → Bool
is_success [] = false
is_success (a ∷ output) = nat_beq a 0

-- What is included, and what has failed and why.
unfoldable pub keep_result :
    Bytes
    → ApplyExtrinsicResult
    → List Bytes × List (Bytes × Bytes)
    → List Bytes × List (Bytes × Bytes)
keep_result extrinsic (success _) (included, failed) = (extrinsic ∷ included, failed)
keep_result extrinsic (dispatch_failed reason) (included, failed) =
    (included, (extrinsic, reason) ∷ failed)

module _ {rpc : Rpc} (runtime : Runtime rpc) where
  abbrev with_env : {A : Type 0} → Building rpc → Outcome (Env rpc) A → Outcome (Building rpc) A
  with_env b (returns a env) = returns a (record b { env = env })
  with_env b (raises e env) = raises e (record b { env = env })
  with_env b stuck = stuck

  abbrev pub on_env : {A : Type 0} → M (Env rpc) A → M (Building rpc) A
  on_env m b = with_env b (m b.env)

  abbrev pub execute_on : RuntimeApi → Bytes → M (Building rpc) RuntimeCallResult
  execute_on api arguments b = on_env (runtime.execute api arguments (layer_of b.shared b.parent)) b

  abbrev pub reset_storage_stats : M (Building rpc) (Unit {0})
  reset_storage_stats = modify (λ b. record b { env = record (b.env) { stats = reset_stats } })

  unfoldable pub apply_storage_diff : List (Bytes × Option Bytes) → M (Building rpc) (Unit {0})
  apply_storage_diff diff =
      modify (λ b. record b { shared = (set_batch (layer_of b.shared b.parent) diff).shared })

  abbrev pub set_phase : BuilderPhase → M (Building rpc) (Unit {0})
  set_phase phase = modify (λ b. record b { phase = phase })

  abbrev pub push_extrinsic : Bytes → M (Building rpc) (Unit {0})
  push_extrinsic extrinsic = modify (λ b. record b { extrinsics = b.extrinsics ++ extrinsic ∷ [] })

  unfoldable pub initialize_created : M (Building rpc) RuntimeCallResult
  unfolding apply_storage_diff
  initialize_created = do
    reset_storage_stats
    header ← gets (λ b. b.header)
    result ← execute_on core_initialize_block header
    apply_storage_diff result.storage_diff
    set_phase initialized
    pure result

  unfoldable pub initialize : M (Building rpc) RuntimeCallResult
  unfolding initialize_created
  initialize b = elim b.phase [
    | created ↦ initialize_created b
    | initialized ↦ raise already_initialized b
    | inherents_applied ↦ raise already_initialized b
  ]

  -- `.map_err(|e| BlockBuilderError::InherentProvider { … })`
  abbrev pub provider_error : {A : Type 0} → Outcome (Building rpc) A → Outcome (Building rpc) A
  provider_error (returns a b) = returns a b
  provider_error (raises e b) = raises inherent_provider b
  provider_error stuck = stuck

  -- The first loop of `apply_inherents`.
  unfoldable pub provide_all :
      List (Shared rpc → Block → M (Env rpc) (List Bytes)) → M (Building rpc) (List Bytes)
  provide_all [] = pure []
  provide_all (provider ∷ providers) = do
    inherents ← (λ b. provider_error (on_env (provider b.shared b.parent) b))
    rest ← provide_all providers
    pure (inherents ++ rest)

  -- The second loop.
  unfoldable pub apply_each_inherent : List Bytes → M (Building rpc) (List RuntimeCallResult)
  unfolding apply_storage_diff
  apply_each_inherent [] = pure []
  apply_each_inherent (inherent ∷ inherents) = do
    result ← execute_on apply_extrinsic_api inherent
    (if dispatch_ok result.output
        then (do
          apply_storage_diff result.storage_diff
          push_extrinsic inherent
          results ← apply_each_inherent inherents
          pure (result ∷ results))
        else raise inherent_provider)

  unfoldable pub mock_relay_chain_inherent : M (Building rpc) (Unit {0})
  mock_relay_chain_inherent = do
    metadata ← (λ b. on_env (block_metadata rpc b.shared b.parent) b)
    (if runtime.has_para_inherent metadata
        then modify (λ b. record b {
          shared =
              (set (layer_of b.shared b.parent) runtime.para_inherent_included_key
                (some [])).shared;
        })
        else pure tt)

  unfoldable pub inherents_initialized : M (Building rpc) (List RuntimeCallResult)
  unfolding provide_all apply_each_inherent mock_relay_chain_inherent
  inherents_initialized = do
    reset_storage_stats
    inherents ← provide_all runtime.providers
    results ← apply_each_inherent inherents
    mock_relay_chain_inherent
    set_phase inherents_applied
    pure results

  unfoldable pub apply_inherents : M (Building rpc) (List RuntimeCallResult)
  unfolding inherents_initialized
  apply_inherents b = elim b.phase [
    | created ↦ raise not_initialized b
    | initialized ↦ inherents_initialized b
    | inherents_applied ↦ raise inherents_already_applied b
  ]

  unfoldable pub apply_result : Bytes → RuntimeCallResult → M (Building rpc) ApplyExtrinsicResult
  unfolding apply_storage_diff
  apply_result extrinsic result =
      if is_success result.output
      then (do
        apply_storage_diff result.storage_diff
        push_extrinsic extrinsic
        pure (success (length result.storage_diff)))
      else pure (dispatch_failed result.output)

  -- `apply_extrinsic` in the phase in which it is allowed.
  unfoldable pub apply_ready : Bytes → M (Building rpc) ApplyExtrinsicResult
  unfolding apply_result
  apply_ready extrinsic = do
    reset_storage_stats
    result ← execute_on apply_extrinsic_api extrinsic
    apply_result extrinsic result

  unfoldable pub apply_extrinsic : Bytes → M (Building rpc) ApplyExtrinsicResult
  unfolding apply_ready
  apply_extrinsic extrinsic b = elim b.phase [
    | created ↦ raise not_initialized b
    | initialized ↦ raise inherents_not_applied b
    | inherents_applied ↦ apply_ready extrinsic b
  ]

  unfoldable pub register_new_metadata : M (Building rpc) (Unit {0})
  register_new_metadata = do
    result ← execute_on metadata_api []
    metadata ← lift (runtime.decode_metadata result.output)
    modify (λ b. record b {
      shared =
          (register_metadata_version (layer_of b.shared b.parent)
            (layer_of b.shared b.parent).current_block_number metadata).shared;
    })

  -- A new runtime came into force in the parent.
  abbrev pub code_changed : Building rpc → Bool
  code_changed b =
      has_code_changed_at runtime.code_key (layer_of b.shared b.parent) (fields b.parent).number

  unfoldable pub finalize_ready : M (Building rpc) Block
  unfolding apply_storage_diff register_new_metadata
  finalize_ready = do
    reset_storage_stats
    result ← execute_on finalize_block []
    apply_storage_diff result.storage_diff
    changed ← gets code_changed
    (if changed then register_new_metadata else pure tt)
    (λ b.
        on_env
          (child rpc b.shared b.parent (runtime.blake2_256 result.output) result.output
            b.extrinsics)
          b)

  unfoldable pub finalize : M (Building rpc) Block
  unfolding finalize_ready
  finalize b = elim b.phase [
    | created ↦ raise not_initialized b
    | initialized ↦ raise inherents_not_applied b
    | inherents_applied ↦ finalize_ready b
  ]

  -- The loop of `Blockchain::build_block`.
  unfoldable pub apply_all : List Bytes → M (Building rpc) (List Bytes × List (Bytes × Bytes))
  unfolding apply_extrinsic keep_result
  apply_all [] = pure ([], [])
  apply_all (extrinsic ∷ extrinsics) = do
    result ← apply_extrinsic extrinsic
    rest ← apply_all extrinsics
    pure (keep_result extrinsic result rest)
