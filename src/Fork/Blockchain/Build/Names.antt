-- ===== src/Fork/Blockchain/Build/Names.antt =====
-- The block that a builder makes names the parent.
use pop_cli.Prelude.{◌≡◌, refl, sym, List, []}
use mathlib.Core.Path.{subst}
use pop_cli.Bytes.{Bytes}
use pop_cli.Fork.Result.{not_initialized, inherents_not_applied}
use pop_cli.Fork.Monad.{
  Outcome, returns, raises, stuck, M, raise, OnEnd, on_value, on_error, on_stuck, after-OnEnd,
  weaken-OnEnd,
}
use pop_cli.Fork.Rpc.{Rpc}
use pop_cli.Fork.Remote.{Env}
use pop_cli.Fork.Local.{Shared, commit}
use pop_cli.Fork.Block.{Block, fields, layer_of, child}
use pop_cli.Fork.Builder.{
  BuilderPhase, created, initialized, inherents_applied, Runtime, Building, on_env, code_changed,
  finalize_ready, finalize, finalize_block,
}
use pop_cli.Fork.Blockchain.Build.{run_builder}
use pop_cli.Fork.Blockchain.Build.Parents.{
  initialize-Fixes, inherents-Fixes, all-Fixes, reset-Fixes, execute-Fixes, apply-Fixes,
  register_if-Fixes,
}

module _ {rpc : Rpc} (runtime : Runtime rpc) (p : Block) where
  -- The block names the parent.
  abbrev pub Names : Block → Type 0
  Names block = (fields block).parent_hash ≡ (fields p).hash

  any-OnEnd : {S A : Type 0} (o : Outcome S A) → OnEnd (λ _ _. Unit {0}) (λ _. Unit {0}) o
  any-OnEnd (returns a s) = on_value tt
  any-OnEnd (raises e s) = on_error tt
  any-OnEnd stuck = on_stuck

  child-Names :
      (shared : Shared rpc) (hash header : Bytes) (extrinsics : List Bytes) (env : Env rpc)
      → OnEnd
          (λ block _. Names block)
          (λ _. Unit {0})
          (child rpc shared p hash header extrinsics env)
  unfolding child
  child-Names shared hash header extrinsics env =
      after-OnEnd _ (any-OnEnd (commit {rpc = rpc} (layer_of shared p) env))
        (λ layer s u. on_value refl)

  made-Names :
      (m : M (Env rpc) Block) (s : Building rpc)
      → OnEnd (λ block _. Names block) (λ _. Unit {0}) (m s.env)
      → OnEnd (λ block _. Names block) (λ _. Unit {0}) (on_env runtime m s)
  made-Names m s h = go (m s.env) h
    where
      go :
          (o : Outcome (Env rpc) Block)
          → OnEnd (λ block _. Names block) (λ _. Unit {0}) o
          → OnEnd (λ block _. Names block) (λ _. Unit {0}) (on_env runtime (λ _. o) s)
      go _ (on_value q) = on_value q
      go _ (on_error u) = on_error tt
      go _ on_stuck = on_stuck

  -- Errors are of no interest here.
  loose :
      {A : Type 0} {Q : A → Building rpc → Type 0} {E : Building rpc → Type 0}
      {o : Outcome (Building rpc) A}
      → OnEnd Q E o
      → OnEnd Q (λ _. Unit {0}) o
  loose h = weaken-OnEnd h (λ _ _ q. q) (λ _ _. tt)

  finalize_ready-Names :
      (s : Building rpc)
      → s.parent ≡ p
      → OnEnd (λ block _. Names block) (λ _. Unit {0}) (finalize_ready runtime s)
  unfolding finalize_ready
  finalize_ready-Names s e = after-OnEnd _ (loose (reset-Fixes runtime p s e)) λ _ s₁ e₁.
      after-OnEnd _ (loose (execute-Fixes runtime p finalize_block [] s₁ e₁)) λ result s₂ e₂.
        after-OnEnd _ (loose (apply-Fixes runtime p result.storage_diff s₂ e₂)) λ _ s₃ e₃.
          after-OnEnd _ (loose (register_if-Fixes runtime p (code_changed runtime s₃) s₃ e₃))
            λ _ s₄ e₄.
              made-Names
                (child rpc s₄.shared s₄.parent (runtime.blake2_256 result.output) result.output
                  s₄.extrinsics)
                s₄
                (subst
                  (λ parent.
                    OnEnd (λ block _. Names block) (λ _. Unit {0})
                      (child rpc s₄.shared parent (runtime.blake2_256 result.output) result.output
                        s₄.extrinsics s₄.env))
                  (sym e₄)
                  (child-Names s₄.shared (runtime.blake2_256 result.output) result.output
                    s₄.extrinsics s₄.env))

  finalize-Names :
      (s : Building rpc)
      → s.parent ≡ p
      → OnEnd (λ block _. Names block) (λ _. Unit {0}) (finalize runtime s)
  unfolding finalize
  finalize-Names s e = go s.phase
    where
      go :
          (phase : BuilderPhase)
          → OnEnd
              (λ block _. Names block)
              (λ _. Unit {0})
              (elim phase [
                | created ↦ raise not_initialized s
                | initialized ↦ raise inherents_not_applied s
                | inherents_applied ↦ finalize_ready runtime s
              ])
      go created = on_error tt
      go initialized = on_error tt
      go inherents_applied = finalize_ready-Names s e

  pub run_builder-Names :
      (xs : List Bytes) (s : Building rpc)
      → s.parent ≡ p
      → OnEnd (λ r _. Names r.0.block) (λ _. Unit {0}) (run_builder runtime xs s)
  unfolding run_builder
  run_builder-Names xs s e = after-OnEnd _ (loose (initialize-Fixes runtime p s e)) λ _ s₁ e₁.
      after-OnEnd _ (loose (inherents-Fixes runtime p s₁ e₁)) λ _ s₂ e₂.
        after-OnEnd _ (loose (all-Fixes runtime p xs s₂ e₂))
          λ applied s₃ e₃. after-OnEnd _ (finalize-Names s₃ e₃) λ block s₄ q. on_value q
