-- ===== src/Fork/Blockchain/Build/Parents.antt =====
-- A builder keeps its parent, however its code ends.
use pop_cli.Prelude.{
  ◌≡◌, Bool, true, false, List, [], ◌∷◌, ◌++◌, Option, some, length, if◌then◌else◌,
}
use pop_cli.Bytes.{Bytes}
use pop_cli.Fork.Result.{
  Result, ok, err, inherent_provider, not_initialized, already_initialized, inherents_not_applied,
  inherents_already_applied,
}
use pop_cli.Fork.Monad.{
  Outcome, returns, raises, stuck, M, ◌>>=◌, ◌>>◌, pure, raise, lift, modify, OnEnd, on_value,
  on_error, on_stuck, after-OnEnd,
}
use pop_cli.Fork.Rpc.{Rpc}
use pop_cli.Fork.Remote.{Env}
use pop_cli.Fork.Local.{Shared, set}
use pop_cli.Fork.Block.{Block, layer_of, block_metadata}
use pop_cli.Fork.Builder.{
  RuntimeApi, BuilderPhase, created, initialized, inherents_applied, RuntimeCallResult, Runtime,
  Building, dispatch_ok, is_success, success, dispatch_failed, on_env, execute_on,
  apply_storage_diff, push_extrinsic, initialize_created, initialize, provider_error, provide_all,
  apply_each_inherent, mock_relay_chain_inherent, inherents_initialized, apply_inherents,
  apply_result, apply_ready, apply_extrinsic, apply_all, keep_result, set_phase,
  reset_storage_stats, register_new_metadata, core_initialize_block, apply_extrinsic_api,
  metadata_api,
}

-- However the code ends, the parent is still `p`.
abbrev pub Fixes : {rpc : Rpc} {A : Type 0} → Block → M (Building rpc) A → Type 0
Fixes {rpc} p m =
    (s : Building rpc) → s.parent ≡ p → OnEnd (λ _ s'. s'.parent ≡ p) (λ s'. s'.parent ≡ p) (m s)

Fixes-bind :
    {rpc : Rpc} {A B : Type 0} {p : Block} {m : M (Building rpc) A} {f : A → M (Building rpc) B}
    → Fixes p m
    → ((a : A) → Fixes p (f a))
    → Fixes p (m >>= f)
Fixes-bind {f = f} h k s e = after-OnEnd f (h s e) (λ a s' e'. k a s' e')

pure-Fixes : {rpc : Rpc} {A : Type 0} {p : Block} (a : A) → Fixes {rpc = rpc} p (pure a)
pure-Fixes a s e = on_value e

module _ {rpc : Rpc} (runtime : Runtime rpc) (p : Block) where
  on_env-Fixes :
      {A : Type 0} (m : M (Env rpc) A) (s : Building rpc)
      → s.parent ≡ p
      → OnEnd (λ _ s'. s'.parent ≡ p) (λ s'. s'.parent ≡ p) (on_env runtime m s)
  on_env-Fixes {A} m s e = go (m s.env)
    where
      go :
          (o : Outcome (Env rpc) A)
          → OnEnd (λ _ s'. s'.parent ≡ p) (λ s'. s'.parent ≡ p) (on_env runtime (λ _. o) s)
      go (returns a env) = on_value e
      go (raises x env) = on_error e
      go stuck = on_stuck

  abbrev Fixed : {A : Type 0} → M (Building rpc) A → Type 0
  Fixed m = Fixes p m

  pub execute-Fixes :
      (api : RuntimeApi) (arguments : Bytes) → Fixed (execute_on runtime api arguments)
  execute-Fixes api arguments s e =
      on_env-Fixes (runtime.execute api arguments (layer_of s.shared s.parent)) s e

  pub apply-Fixes : (diff : List (Bytes × Option Bytes)) → Fixed (apply_storage_diff runtime diff)
  unfolding apply_storage_diff
  apply-Fixes diff s e = on_value e

  push-Fixes : (x : Bytes) → Fixed (push_extrinsic runtime x)
  push-Fixes x s e = on_value e

  -- A guard on the phase lets the code run or refuses it.
  guard-Fixes :
      {A : Type 0} (phase : BuilderPhase) (m₁ m₂ m₃ : M (Building rpc) A) (s : Building rpc)
      → OnEnd (λ _ s'. s'.parent ≡ p) (λ s'. s'.parent ≡ p) (m₁ s)
      → OnEnd (λ _ s'. s'.parent ≡ p) (λ s'. s'.parent ≡ p) (m₂ s)
      → OnEnd (λ _ s'. s'.parent ≡ p) (λ s'. s'.parent ≡ p) (m₃ s)
      → OnEnd
          (λ _ s'. s'.parent ≡ p)
          (λ s'. s'.parent ≡ p)
          (elim phase [ created ↦ m₁ s | initialized ↦ m₂ s | inherents_applied ↦ m₃ s ])
  guard-Fixes created m₁ m₂ m₃ s a b c = a
  guard-Fixes initialized m₁ m₂ m₃ s a b c = b
  guard-Fixes inherents_applied m₁ m₂ m₃ s a b c = c

  set_phase-Fixes : (phase : BuilderPhase) → Fixed (set_phase runtime phase)
  set_phase-Fixes phase s e = on_value e

  pub reset-Fixes : Fixed (reset_storage_stats runtime)
  reset-Fixes s e = on_value e

  initialize_created-Fixes : Fixed (initialize_created runtime)
  unfolding initialize_created
  initialize_created-Fixes = Fixes-bind reset-Fixes λ _. λ s.
      Fixes-bind (execute-Fixes core_initialize_block s.header)
        (λ result.
          Fixes-bind (apply-Fixes result.storage_diff)
            λ _. Fixes-bind (set_phase-Fixes initialized) λ _. pure-Fixes result)
        s

  pub initialize-Fixes : Fixed (initialize runtime)
  unfolding initialize
  initialize-Fixes s e =
      guard-Fixes s.phase (initialize_created runtime) (raise already_initialized)
        (raise already_initialized) s (initialize_created-Fixes s e) (on_error e) (on_error e)

  provider_error-Fixes :
      {A : Type 0} (o : Outcome (Building rpc) A)
      → OnEnd (λ _ s'. s'.parent ≡ p) (λ s'. s'.parent ≡ p) o
      → OnEnd (λ _ s'. s'.parent ≡ p) (λ s'. s'.parent ≡ p) (provider_error runtime o)
  provider_error-Fixes _ (on_value e) = on_value e
  provider_error-Fixes _ (on_error e) = on_error e
  provider_error-Fixes _ on_stuck = on_stuck

  provide_all-Fixes :
      (providers : List (Shared rpc → Block → M (Env rpc) (List Bytes)))
      → Fixed (provide_all runtime providers)
  unfolding provide_all
  provide_all-Fixes [] = pure-Fixes {A = List Bytes} []
  provide_all-Fixes (provider ∷ providers) =
      Fixes-bind (λ s e. provider_error-Fixes _ (on_env-Fixes (provider s.shared s.parent) s e))
        λ inherents. Fixes-bind (provide_all-Fixes providers) λ rest. pure-Fixes (inherents ++ rest)

  inherent-Fixes :
      (x : Bytes) (m : M (Building rpc) (List RuntimeCallResult)) (result : RuntimeCallResult)
      (good : Bool)
      → Fixed m
      → Fixed (
          if good
          then (do
            apply_storage_diff runtime result.storage_diff
            push_extrinsic runtime x
            results ← m
            pure (result ∷ results))
          else raise inherent_provider)
  inherent-Fixes x m result true others =
      Fixes-bind (apply-Fixes result.storage_diff) λ _.
        Fixes-bind (push-Fixes x) λ _. Fixes-bind others λ results. pure-Fixes (result ∷ results)
  inherent-Fixes x m result false others = λ s e. on_error e

  each_inherent-Fixes : (inherents : List Bytes) → Fixed (apply_each_inherent runtime inherents)
  unfolding apply_each_inherent
  each_inherent-Fixes [] = pure-Fixes {A = List RuntimeCallResult} []
  each_inherent-Fixes (x ∷ xs) =
      Fixes-bind (execute-Fixes apply_extrinsic_api x)
        λ result. inherent-Fixes x _ result (dispatch_ok result.output) (each_inherent-Fixes xs)

  mock_if-Fixes :
      (has : Bool)
      → Fixed (
          if has
          then modify (λ b. record b {
            shared =
                (set
                  (layer_of b.shared b.parent)
                  runtime.para_inherent_included_key
                  (some [])).shared;
          })
          else pure tt)
  mock_if-Fixes true = λ s e. on_value e
  mock_if-Fixes false = pure-Fixes tt

  mock-Fixes : Fixed (mock_relay_chain_inherent runtime)
  unfolding mock_relay_chain_inherent
  mock-Fixes =
      Fixes-bind (λ s e. on_env-Fixes (block_metadata rpc s.shared s.parent) s e)
        λ metadata. mock_if-Fixes (runtime.has_para_inherent metadata)

  inherents_initialized-Fixes : Fixed (inherents_initialized runtime)
  unfolding inherents_initialized
  inherents_initialized-Fixes = Fixes-bind reset-Fixes λ _.
      Fixes-bind (provide_all-Fixes runtime.providers) λ inherents.
        Fixes-bind (each_inherent-Fixes inherents) λ results.
          Fixes-bind mock-Fixes
            λ _. Fixes-bind (set_phase-Fixes inherents_applied) λ _. pure-Fixes results

  pub inherents-Fixes : Fixed (apply_inherents runtime)
  unfolding apply_inherents
  inherents-Fixes s e =
      guard-Fixes s.phase (raise not_initialized) (inherents_initialized runtime)
        (raise inherents_already_applied) s (on_error e) (inherents_initialized-Fixes s e)
        (on_error e)

  result-Fixes :
      (x : Bytes) (result : RuntimeCallResult) (good : Bool)
      → Fixed (
          if good
          then (do
            apply_storage_diff runtime result.storage_diff
            push_extrinsic runtime x
            pure (success (length result.storage_diff)))
          else pure (dispatch_failed result.output))
  result-Fixes x result true =
      Fixes-bind (apply-Fixes result.storage_diff)
        λ _. Fixes-bind (push-Fixes x) λ _. pure-Fixes (success (length result.storage_diff))
  result-Fixes x result false = pure-Fixes (dispatch_failed result.output)

  ready-Fixes : (x : Bytes) → Fixed (apply_ready runtime x)
  unfolding apply_ready apply_result
  ready-Fixes x = Fixes-bind reset-Fixes λ _.
      Fixes-bind (execute-Fixes apply_extrinsic_api x)
        λ result. result-Fixes x result (is_success result.output)

  extrinsic-Fixes : (x : Bytes) → Fixed (apply_extrinsic runtime x)
  unfolding apply_extrinsic
  extrinsic-Fixes x s e =
      guard-Fixes s.phase (raise not_initialized) (raise inherents_not_applied)
        (apply_ready runtime x) s (on_error e) (on_error e) (ready-Fixes x s e)

  pub all-Fixes : (xs : List Bytes) → Fixed (apply_all runtime xs)
  unfolding apply_all
  all-Fixes [] = pure-Fixes {A = List Bytes × List (Bytes × Bytes)} ([], [])
  all-Fixes (x ∷ xs) =
      Fixes-bind (extrinsic-Fixes x)
        λ result. Fixes-bind (all-Fixes xs) λ rest. pure-Fixes (keep_result x result rest)

  decode-Fixes : (o : Result rpc.Metadata) → Fixed (lift o)
  decode-Fixes (ok m) = pure-Fixes m
  decode-Fixes (err x) = λ s e. on_error e

  register-Fixes : Fixed (register_new_metadata runtime)
  unfolding register_new_metadata
  register-Fixes = Fixes-bind (execute-Fixes metadata_api []) λ result.
      Fixes-bind (decode-Fixes (runtime.decode_metadata result.output))
        λ metadata. λ s e. on_value e

  pub register_if-Fixes :
      (changed : Bool) → Fixed (if changed then register_new_metadata runtime else pure tt)
  register_if-Fixes true = register-Fixes
  register_if-Fixes false = pure-Fixes tt
