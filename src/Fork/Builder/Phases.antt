-- ===== src/Fork/Builder/Phases.antt =====
-- The phases of the building of a block.
use pop_cli.Prelude.{◌≡◌, refl, inl, inr, ◌⊎◌}
use pop_cli.Bytes.{Bytes}
use pop_cli.Fork.Result.{
  Error, not_initialized, already_initialized, inherents_not_applied, inherents_already_applied,
}
use pop_cli.Fork.Monad.{raises, M}
use pop_cli.Fork.Rpc.{Rpc}
use pop_cli.Fork.Builder.{
  BuilderPhase, created, initialized, inherents_applied, Runtime, Building, initialize,
  apply_inherents, apply_extrinsic, finalize,
}

-- The operation is refused, with nothing changed.
abbrev pub Refuses : {S A : Type 0} → M S A → S → Type 0
Refuses m s = (e : Error) × (m s ≡ raises e s)

module _ {rpc : Rpc} (runtime : Runtime rpc) where
  -- In each phase only the operations of one stage are open: to initialize, to apply the inherents,
  -- or to apply extrinsics and finalize. All others are refused, with nothing changed.
  pub one_stage :
      (x : Bytes) (b : Building rpc)
      → (Refuses (apply_inherents runtime) b
          × Refuses (apply_extrinsic runtime x) b
          × Refuses (finalize runtime) b)
        ⊎ ((Refuses (initialize runtime) b
              × Refuses (apply_extrinsic runtime x) b
              × Refuses (finalize runtime) b)
            ⊎ (Refuses (initialize runtime) b × Refuses (apply_inherents runtime) b))
  unfolding initialize apply_inherents apply_extrinsic finalize
  one_stage x b = go b.phase refl
    where
      go :
          (p : BuilderPhase)
          → b.phase ≡ p
          → (Refuses (apply_inherents runtime) b
              × Refuses (apply_extrinsic runtime x) b
              × Refuses (finalize runtime) b)
            ⊎ ((Refuses (initialize runtime) b
                  × Refuses (apply_extrinsic runtime x) b
                  × Refuses (finalize runtime) b)
                ⊎ (Refuses (initialize runtime) b × Refuses (apply_inherents runtime) b))
      go created e = inl ((not_initialized, rw e), (not_initialized, rw e), (not_initialized, rw e))
      go initialized e = inr (
          inl (
            (already_initialized, rw e),
            (inherents_not_applied, rw e),
            (inherents_not_applied, rw e),
          ))
      go inherents_applied e =
          inr (inr ((already_initialized, rw e), (inherents_already_applied, rw e)))
