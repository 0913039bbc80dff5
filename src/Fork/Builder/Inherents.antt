-- ===== src/Fork/Builder/Inherents.antt =====
-- The inherents of a block that is built: what the providers give, in order.
use pop_cli.Prelude.{
  ◌≡◌, refl, ◌∙◌, sym, ap, Bool, true, false, List, [], ◌∷◌, ◌++◌, some, append_assoc, append_nil,
  if◌then◌else◌,
}
use pop_cli.Bytes.{Bytes}
use pop_cli.Fork.Result.{
  inherent_provider, already_initialized, not_initialized, inherents_already_applied,
}
use pop_cli.Fork.Monad.{
  Outcome, returns, raises, stuck, M, ◌>>=◌, ◌>>◌, pure, raise, modify, Ensures, returned, raised,
  OnEnd, on_value, on_error, on_stuck, after-OnEnd,
}
use pop_cli.Fork.Rpc.{Rpc}
use pop_cli.Fork.Remote.{Env, reset_stats}
use pop_cli.Fork.Local.{Shared, set}
use pop_cli.Fork.Block.{Block, layer_of, block_metadata}
use pop_cli.Fork.Builder.{
  BuilderPhase, created, initialized, inherents_applied, RuntimeCallResult, Runtime, Building,
  dispatch_ok, on_env, apply_storage_diff, push_extrinsic, provider_error, provide_all,
  apply_each_inherent, mock_relay_chain_inherent, inherents_initialized, apply_inherents,
  initialize, initialize_created, core_initialize_block, apply_extrinsic_api,
}

-- The providers, asked one after the other about a block, returned these lists, put together.
pub data Provided {rpc : Rpc} (shared : Shared rpc) (block : Block)
    : List (Shared rpc → Block → M (Env rpc) (List Bytes))
      → Env rpc
      → List Bytes
      → Env rpc
      → Type 0 where
  provided_none : {env : Env rpc} → Provided shared block [] env [] env
  provided_by :
      {provider : Shared rpc → Block → M (Env rpc) (List Bytes)}
      {providers : List (Shared rpc → Block → M (Env rpc) (List Bytes))} {env env₁ env₂ : Env rpc}
      {xs ys : List Bytes}
      → provider shared block env ≡ returns xs env₁
      → Provided shared block providers env₁ ys env₂
      → Provided shared block (provider ∷ providers) env (xs ++ ys) env₂

pub with-OnEnd :
    {S A : Type 0} {Q R : A → S → Type 0} {E F : S → Type 0} {o : Outcome S A}
    → Ensures Q E o
    → OnEnd R F o
    → Ensures (λ a s. Q a s × R a s) E o
with-OnEnd (returned q) (on_value r) = returned (q, r)
with-OnEnd (raised e) (on_error f) = raised e

module _ {rpc : Rpc} (runtime : Runtime rpc) where
  -- If it returns, the extrinsics are these.
  abbrev Has : {A : Type 0} → List Bytes → Outcome (Building rpc) A → Type 0
  Has xs o = OnEnd (λ _ s. s.extrinsics ≡ xs) (λ _. Unit {0}) o

  on_env-Has :
      {A : Type 0} (m : M (Env rpc) A) (b : Building rpc) → Has b.extrinsics (on_env runtime m b)
  on_env-Has {A} m b = go (m b.env)
    where
      go : (o : Outcome (Env rpc) A) → Has b.extrinsics (on_env runtime (λ _. o) b)
      go (returns a env) = on_value refl
      go (raises e env) = on_error tt
      go stuck = on_stuck

  created-Has : (b : Building rpc) → Has b.extrinsics (initialize_created runtime b)
  unfolding initialize_created apply_storage_diff
  created-Has b =
      after-OnEnd _
        (on_env-Has (runtime.execute core_initialize_block b.header (layer_of b.shared b.parent))
          (record b { env = record (b.env) { stats = reset_stats } }))
        (λ result s e. on_value e)

  pub initialize-Has : (b : Building rpc) → Has b.extrinsics (initialize runtime b)
  unfolding initialize
  initialize-Has b = go b.phase
    where
      go :
          (phase : BuilderPhase)
          → Has b.extrinsics (elim phase [
            | created ↦ initialize_created runtime b
            | initialized ↦ raise already_initialized b
            | inherents_applied ↦ raise already_initialized b
          ])
      go created = created-Has b
      go initialized = on_error tt
      go inherents_applied = on_error tt

  provide_all-Provided :
      (providers : List (Shared rpc → Block → M (Env rpc) (List Bytes))) (b : Building rpc)
      → OnEnd
          (λ xs s.
            Provided b.shared b.parent providers b.env xs s.env × (s.extrinsics ≡ b.extrinsics))
          (λ _. Unit {0})
          (provide_all runtime providers b)
  unfolding provide_all
  provide_all-Provided [] b = on_value (provided_none, refl)
  provide_all-Provided (provider ∷ providers) b =
      go (provide_all-Provided providers) (provider b.shared b.parent b.env) refl
    where
      go :
          ((b' : Building rpc)
            → OnEnd
                (λ xs s.
                  Provided b'.shared b'.parent providers b'.env xs s.env
                  × (s.extrinsics ≡ b'.extrinsics))
                (λ _. Unit {0})
                (provide_all runtime providers b'))
          → (o : Outcome (Env rpc) (List Bytes)) → provider b.shared b.parent b.env ≡ o
          → OnEnd
              (λ xs s.
                Provided b.shared b.parent (provider ∷ providers) b.env xs s.env
                × (s.extrinsics ≡ b.extrinsics))
              (λ _. Unit {0})
              (((λ b'. provider_error runtime (on_env runtime (λ _. o) b')) >>= λ inherents.
                  provide_all runtime providers >>= λ rest. pure (inherents ++ rest))
                b)
      go others (returns xs env) e =
          after-OnEnd _ (others (record b { env = env }))
            (λ ys s q. on_value (provided_by e q.0, q.1))
      go others (raises x env) e = on_error tt
      go others stuck e = on_stuck

  each_inherent-Has :
      (xs : List Bytes) (b : Building rpc)
      → Has (b.extrinsics ++ xs) (apply_each_inherent runtime xs b)
  unfolding apply_each_inherent apply_storage_diff
  each_inherent-Has [] b = on_value (sym (append_nil b.extrinsics))
  each_inherent-Has (x ∷ xs) b =
      after-OnEnd _
        (on_env-Has (runtime.execute apply_extrinsic_api x (layer_of b.shared b.parent)) b)
        (λ result s e. go (each_inherent-Has xs) result s e (dispatch_ok result.output))
    where
      go :
          ((b' : Building rpc) → Has (b'.extrinsics ++ xs) (apply_each_inherent runtime xs b'))
          → (result : RuntimeCallResult) (s : Building rpc) → s.extrinsics ≡ b.extrinsics
          → (good : Bool)
          → Has (b.extrinsics ++ x ∷ xs) (
              (if good
                  then (do
                    apply_storage_diff runtime result.storage_diff
                    push_extrinsic runtime x
                    results ← apply_each_inherent runtime xs
                    pure (result ∷ results))
                  else raise inherent_provider)
                s)
      go others result s e true = after-OnEnd _ (others _) (λ results s' e'.
          on_value (e' ∙ ap (λ ys. (ys ++ x ∷ []) ++ xs) e ∙ append_assoc b.extrinsics (x ∷ []) xs))
      go others result s e false = on_error tt

  mock-Has : (b : Building rpc) → Has b.extrinsics (mock_relay_chain_inherent runtime b)
  unfolding mock_relay_chain_inherent set
  mock-Has b =
      after-OnEnd _ (on_env-Has (block_metadata rpc b.shared b.parent) b)
        (λ metadata s e. go s e (runtime.has_para_inherent metadata))
    where
      go :
          (s : Building rpc)
          → s.extrinsics ≡ b.extrinsics
          → (has : Bool)
          → Has b.extrinsics (
              (if has
                  then modify (λ b. record b {
                    shared =
                        (set
                          (layer_of b.shared b.parent)
                          runtime.para_inherent_included_key
                          (some [])).shared;
                  })
                  else pure tt)
                s)
      go s e true = on_value e
      go s e false = on_value e

  -- What the block has got: the inherents, as the providers gave them for its parent.
  abbrev pub Filled : Block → List Bytes → List Bytes → Type 0
  Filled parent before extrinsics =
      (inherents : List Bytes) × (shared : Shared rpc) × (env : Env rpc) × (env' : Env rpc)
      × (Provided shared parent runtime.providers env inherents env'
          × (extrinsics ≡ before ++ inherents))

  inherents_initialized-Filled :
      (b : Building rpc)
      → OnEnd
          (λ _ s. Filled b.parent b.extrinsics s.extrinsics)
          (λ _. Unit {0})
          (inherents_initialized runtime b)
  unfolding inherents_initialized
  inherents_initialized-Filled b =
      after-OnEnd _
        (provide_all-Provided runtime.providers
          (record b { env = record (b.env) { stats = reset_stats } }))
        λ inherents s₁ q. after-OnEnd _ (each_inherent-Has inherents s₁) λ results s₂ e₂.
          after-OnEnd _ (mock-Has s₂) λ _ s₃ e₃. on_value (
            inherents,
            b.shared,
            record (b.env) { stats = reset_stats },
            s₁.env,
            (q.0, e₃ ∙ e₂ ∙ ap (λ ys. ys ++ inherents) q.1),
          )

  pub apply_inherents-Filled :
      (b : Building rpc)
      → OnEnd
          (λ _ s. Filled b.parent b.extrinsics s.extrinsics)
          (λ _. Unit {0})
          (apply_inherents runtime b)
  unfolding apply_inherents
  apply_inherents-Filled b = go b.phase
    where
      go :
          (phase : BuilderPhase)
          → OnEnd {A = List RuntimeCallResult}
              (λ _ s. Filled b.parent b.extrinsics s.extrinsics)
              (λ _. Unit {0})
              (elim phase [
                | created ↦ raise not_initialized b
                | initialized ↦ inherents_initialized runtime b
                | inherents_applied ↦ raise inherents_already_applied b
              ])
      go created = on_error tt
      go initialized = inherents_initialized-Filled b
      go inherents_applied = on_error tt
