-- ===== src/Fork/Builder/Laws.antt =====
-- What the extrinsics do to a block that is built.
use pop_cli.Prelude.{
  length, append_assoc, append_nil, arith, ◌≡◌, ◌≢◌, refl, ◌∙◌, sym, ap, Bool, true, false, List,
  [], ◌∷◌, ◌++◌, if◌then◌else◌,
}
use pop_cli.Bytes.{Bytes}
use mathlib.Core.Path.{subst}
use pop_cli.Fork.Monad.{Outcome, returns, ◌>>◌, pure, Ensures, returned, raised, after-Ensures}
use pop_cli.Fork.Rpc.{Rpc}
use pop_cli.Fork.Remote.{Env, reset_stats}
use pop_cli.Fork.Local.{Layer, set_batch}
use pop_cli.Fork.Block.{layer_of}
use pop_cli.Fork.Builder.{
  inherents_applied, RuntimeCallResult, ApplyExtrinsicResult, success, dispatch_failed, RuntimeApi,
  Runtime, Building, is_success, on_env, execute_on, apply_result, apply_ready, apply_extrinsic,
  apply_all, keep_result, apply_extrinsic_api, apply_storage_diff, push_extrinsic,
}

-- A call of the runtime ends: with a result, or with an error where `Fails` allows it.
pub record Answers {rpc : Rpc} (runtime : Runtime rpc) (Fails : Type 0) : Type 0 where
  pub executes :
      (api : RuntimeApi) (arguments : Bytes) (layer : Layer rpc) (env : Env rpc)
      → Ensures (λ _ _. Unit {0}) (λ _. Fails) (runtime.execute api arguments layer env)

-- Each extrinsic goes, in order, to the included or to the failed.
pub data Splits : List Bytes → List Bytes → List (Bytes × Bytes) → Type 0 where
  split_none : Splits [] [] []
  split_included :
      (x : Bytes) {xs is : List Bytes} {fs : List (Bytes × Bytes)}
      → Splits xs is fs
      → Splits (x ∷ xs) (x ∷ is) fs
  split_failed :
      (x reason : Bytes) {xs is : List Bytes} {fs : List (Bytes × Bytes)}
      → Splits xs is fs
      → Splits (x ∷ xs) is ((x, reason) ∷ fs)

module _ {rpc : Rpc} (runtime : Runtime rpc) {Fails : Type 0}
    (answers : Answers runtime Fails) where
  -- Only the environment is changed.
  record Executed (b s : Building rpc) : Type 0 where
    same_shared : s.shared ≡ b.shared
    same_parent : s.parent ≡ b.parent
    same_extrinsics : s.extrinsics ≡ b.extrinsics
    same_header : s.header ≡ b.header
    same_phase : s.phase ≡ b.phase

  -- What the runtime is asked, with the counters of the layer reset.
  abbrev pub Returns : Bytes → Building rpc → RuntimeCallResult → Env rpc → Type 0
  Returns x b result env =
      runtime.execute apply_extrinsic_api x (layer_of b.shared b.parent)
        (record (b.env) { stats = reset_stats })
      ≡ returns result env

  execute_after_reset :
      (x : Bytes) (b : Building rpc)
      → Ensures
          (λ result s. Returns x b result s.env × Executed b s)
          (λ _. Fails)
          (execute_on runtime apply_extrinsic_api x
            (record b { env = record (b.env) { stats = reset_stats } }))
  execute_after_reset x b =
      go
        (runtime.execute apply_extrinsic_api x (layer_of b.shared b.parent)
          (record (b.env) { stats = reset_stats }))
        refl
        (answers.executes apply_extrinsic_api x (layer_of b.shared b.parent)
          (record (b.env) { stats = reset_stats }))
    where
      go :
          (o : Outcome (Env rpc) RuntimeCallResult)
          → runtime.execute apply_extrinsic_api x
              (layer_of b.shared b.parent)
              (record (b.env) { stats = reset_stats })
            ≡ o
          → Ensures (λ _ _. Unit {0}) (λ _. Fails) o
          → Ensures
              (λ result s. Returns x b result s.env × Executed b s)
              (λ _. Fails)
              (on_env runtime (λ _. o) (record b { env = record (b.env) { stats = reset_stats } }))
      go _ e (returned u) = returned (
        e,
        record {
          same_shared = refl;
          same_parent = refl;
          same_extrinsics = refl;
          same_header = refl;
          same_phase = refl;
        },
      )
      go _ e (raised f) = raised f

  opens :
      (x : Bytes) (b : Building rpc)
      → b.phase ≡ inherents_applied
      → apply_extrinsic runtime x b ≡ apply_ready runtime x b
  unfolding apply_extrinsic
  opens x b e = rw e

  -- What an extrinsic did, by what the runtime returned for it.
  abbrev pub Applied : Bytes → Building rpc → ApplyExtrinsicResult → Building rpc → Type 0
  Applied x b (success n) s =
      (result : RuntimeCallResult) × (Returns x b result s.env
        × ((rest : Bytes) × (result.output ≡ 0 ∷ rest))
        × (n ≡ length result.storage_diff)
        × (s.shared ≡ (set_batch (layer_of b.shared b.parent) result.storage_diff).shared)
        × (s.extrinsics ≡ b.extrinsics ++ x ∷ []))
  Applied x b (dispatch_failed reason) s =
      (result : RuntimeCallResult) × (Returns x b result s.env
        × ((rest : Bytes) → result.output ≢ 0 ∷ rest)
        × (reason ≡ result.output)
        × (s.shared ≡ b.shared)
        × (s.extrinsics ≡ b.extrinsics))

  zero_first : (output : Bytes) → is_success output ≡ true → (rest : Bytes) × (output ≡ 0 ∷ rest)
  zero_first [] e = cc
  zero_first (a ∷ output) e = (output, ap (λ n. n ∷ output) (ground (arith, e)))

  no_zero : (output rest : Bytes) → is_success output ≡ false → output ≢ 0 ∷ rest
  no_zero output rest e q = cc (e, ap is_success q)

  -- Where extrinsics are open, the runtime is called with the extrinsic over the parent's layer, and what
  -- it returns decides. If the first byte of the output is 0, its storage diff is written, its length
  -- reported, and the extrinsic appended to those of the block; if not, the output is the reason of the
  -- failure, and the storage of the fork and the extrinsics stay as they were. The parent, the header and
  -- the phase stay. An error is one of the runtime.
  pub apply_extrinsic-Applied :
      (x : Bytes) (b : Building rpc)
      → b.phase ≡ inherents_applied
      → Ensures
          (λ r s.
            Applied x b r s
            × (s.parent ≡ b.parent)
            × (s.header ≡ b.header)
            × (s.phase ≡ inherents_applied))
          (λ _. Fails)
          (apply_extrinsic runtime x b)
  unfolding apply_ready apply_result apply_storage_diff
  apply_extrinsic-Applied x b e =
      subst
        (Ensures
          (λ r s.
            Applied x b r s
            × (s.parent ≡ b.parent)
            × (s.header ≡ b.header)
            × (s.phase ≡ inherents_applied))
          (λ _. Fails))
        (sym (opens x b e))
        (after-Ensures _ (execute_after_reset x b)
          (λ result s q. go result s q.0 q.1 (is_success result.output) refl))
    where
      go :
          (result : RuntimeCallResult) (s : Building rpc)
          → Returns x b result s.env
          → Executed b s
          → (ok : Bool) → is_success result.output ≡ ok
          → Ensures
              (λ r s'.
                Applied x b r s'
                × (s'.parent ≡ b.parent)
                × (s'.header ≡ b.header)
                × (s'.phase ≡ inherents_applied))
              (λ _. Fails)
              ((if ok
                  then (do
                    apply_storage_diff runtime result.storage_diff
                    push_extrinsic runtime x
                    pure (success (length result.storage_diff)))
                  else pure (dispatch_failed result.output))
                s)
      go result s r q true z = returned (
        (
          result,
          (
            r,
            zero_first result.output z,
            refl,
            rw (q.same_shared, q.same_parent) refl,
            ap (λ xs. xs ++ x ∷ []) q.same_extrinsics,
          ),
        ),
        q.same_parent,
        q.same_header,
        q.same_phase ∙ e,
      )
      go result s r q false z = returned (
        (result, (r, λ rest. no_zero result.output rest z, refl, q.same_shared, q.same_extrinsics)),
        q.same_parent,
        q.same_header,
        q.same_phase ∙ e,
      )

  -- Where extrinsics are open, a list of extrinsics is split in order into those included and those
  -- that failed; those included are appended to the extrinsics of the block, and no others. The
  -- parent, the header and the phase stay. An error is one of the runtime.
  pub apply_all-Splits :
      (xs : List Bytes) (b : Building rpc)
      → b.phase ≡ inherents_applied
      → Ensures
          (λ r s.
            Splits xs r.0 r.1
            × (s.extrinsics ≡ b.extrinsics ++ r.0)
            × (s.parent ≡ b.parent)
            × (s.header ≡ b.header)
            × (s.phase ≡ inherents_applied))
          (λ _. Fails)
          (apply_all runtime xs b)
  unfolding apply_all keep_result
  apply_all-Splits [] b e = returned (split_none, sym (append_nil b.extrinsics), refl, refl, e)
  apply_all-Splits (x ∷ xs) b e = after-Ensures _ (apply_extrinsic-Applied x b e) (λ r s q.
      after-Ensures _ (apply_all-Splits xs s q.3) (λ rest s' q'. returned (go r s q rest s' q')))
    where
      go :
          (r : ApplyExtrinsicResult) (s : Building rpc)
          → (Applied x b r s
              × (s.parent ≡ b.parent)
              × (s.header ≡ b.header)
              × (s.phase ≡ inherents_applied))
          → (rest : List Bytes × List (Bytes × Bytes)) (s' : Building rpc)
          → (Splits xs rest.0 rest.1
              × (s'.extrinsics ≡ s.extrinsics ++ rest.0)
              × (s'.parent ≡ s.parent)
              × (s'.header ≡ s.header)
              × (s'.phase ≡ inherents_applied))
          → Splits (x ∷ xs) (keep_result x r rest).0 (keep_result x r rest).1
            × (s'.extrinsics ≡ b.extrinsics ++ (keep_result x r rest).0)
            × (s'.parent ≡ b.parent)
            × (s'.header ≡ b.header)
            × (s'.phase ≡ inherents_applied)
      go (success n) s q (is, fs) s' q' = (
        split_included x q'.0,
        q'.1 ∙ ap (λ ys. ys ++ is) q.0.1.4 ∙ append_assoc b.extrinsics (x ∷ []) is,
        q'.2 ∙ q.1,
        q'.3 ∙ q.2,
        q'.4,
      )
      go (dispatch_failed reason) s q (is, fs) s' q' = (
        split_failed x reason q'.0,
        q'.1 ∙ ap (λ ys. ys ++ is) q.0.1.4,
        q'.2 ∙ q.1,
        q'.3 ∙ q.2,
        q'.4,
      )
