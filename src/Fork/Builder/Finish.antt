-- ===== src/Fork/Builder/Finish.antt =====
-- The end of the building of a block: the new block is the head, over what the runtime wrote.
use pop_cli.Prelude.{
  ◌+◌, ◌<◌, ◌≡◌, refl, ◌∙◌, sym, ap, Bool, true, false, List, [], Option, if◌then◌else◌, inl, inr,
  ◌⊎◌,
}
use mathlib.Core.Path.{subst}
use pop_cli.Bytes.{Bytes}
use pop_cli.Fork.Result.{Result, ok, err}
use pop_cli.Fork.Monad.{
  returns, Outcome, ◌>>=◌, pure, lift, modify, Ensures, returned, raised, after-Ensures,
  weaken-Ensures,
}
use pop_cli.Fork.Rpc.{Rpc}
use pop_cli.Fork.Cache.Blocks.{u32_max}
use pop_cli.Fork.Remote.{Env, reset_stats}
use pop_cli.Fork.Remote.Sound.{SameHistory}
use pop_cli.Fork.Local.{set_batch, register_metadata_version}
use pop_cli.Fork.Local.Timeline.{Timeline, seal, Refines-same}
use pop_cli.Fork.Block.{Block, fields, layer_of, child}
use pop_cli.Fork.Block.Laws.{IsHead, child-IsHead}
use pop_cli.Fork.Builder.{
  inherents_applied, RuntimeCallResult, RuntimeApi, metadata_api, Runtime, Building, on_env,
  execute_on, apply_storage_diff, register_new_metadata, code_changed, finalize_ready, finalize,
  finalize_block,
}
use pop_cli.Fork.Builder.Writes.{
  Keeps, write_all, write_all-now, set_batch-Refines, register-Refines,
}

open_to_finalize :
    {rpc : Rpc} (runtime : Runtime rpc) (b : Building rpc)
    → b.phase ≡ inherents_applied
    → finalize runtime b ≡ finalize_ready runtime b
unfolding finalize
open_to_finalize runtime b e = rw e

module _ {rpc : Rpc} (runtime : Runtime rpc) {Fails : Type 0} (keeps : Keeps runtime Fails) where
  -- What stays while the block is finished, with the timeline `t`.
  record Ready (b : Building rpc) (t : Timeline) (s : Building rpc) : Type 0 where
    head : IsHead s.shared s.parent s.env.db t
    same_parent : s.parent ≡ b.parent
    same_extrinsics : s.extrinsics ≡ b.extrinsics

  execute_on-Ready :
      (api : RuntimeApi) (arguments : Bytes) (b : Building rpc) (t : Timeline) (s : Building rpc)
      → Ready b t s
      → Ensures
          (λ result s'.
            Ready b t s'
            × (env : Env rpc) × (runtime.execute api arguments (layer_of s.shared s.parent) s.env
                ≡ returns result env))
          (λ _. Fails ⊎ (u32_max < t.now + 1))
          (execute_on runtime api arguments s)
  execute_on-Ready api arguments b t s r =
      go (runtime.execute api arguments (layer_of s.shared s.parent) s.env)
        (keeps.executes api arguments (layer_of s.shared s.parent) s.env)
    where
      go :
          (o : Outcome (Env rpc) RuntimeCallResult)
          → Ensures (λ _ e. SameHistory s.env.db e.db) (λ _. Fails) o
          → Ensures
              (λ result s'. Ready b t s' × (env : Env rpc) × (o ≡ returns result env))
              (λ _. Fails ⊎ (u32_max < t.now + 1))
              (on_env runtime (λ _. o) s)
      go _ (returned {s = e} h) = returned (
        record {
          head = record {
            chain = r.head.chain;
            refines = Refines-same (layer_of s.shared s.parent) s.env.db e.db t h r.head.refines;
            next = r.head.next;
          };
          same_parent = r.same_parent;
          same_extrinsics = r.same_extrinsics;
        },
        e,
        refl,
      )
      go _ (raised f) = raised (inl f)

  register-Ready :
      (b : Building rpc) (t : Timeline) (s : Building rpc)
      → Ready b t s
      → Ensures
          (λ _ s'. Ready b t s')
          (λ _. Fails ⊎ (u32_max < t.now + 1))
          (register_new_metadata runtime s)
  unfolding register_new_metadata register_metadata_version
  register-Ready b t s r =
      after-Ensures _ (execute_on-Ready metadata_api [] b t s r) (λ result s' r'.
        go s' r'.0 (runtime.decode_metadata result.output) (keeps.decodes result.output))
    where
      go :
          (s' : Building rpc)
          → Ready b t s'
          → (o : Result rpc.Metadata) → Fails ⊎ ((m : rpc.Metadata) × (o ≡ ok m))
          → Ensures
              (λ _ s''. Ready b t s'')
              (λ _. Fails ⊎ (u32_max < t.now + 1))
              ((lift o >>= λ metadata. modify (λ b. record b {
                shared =
                    (register_metadata_version
                      (layer_of b.shared b.parent)
                      (layer_of b.shared b.parent).current_block_number
                      metadata).shared;
              }))
                s')
      go s' r (ok m) d = returned (record {
        head = record {
          chain = r.head.chain;
          refines = register-Refines (layer_of s'.shared s'.parent) s'.env.db t _ m r.head.refines;
          next = r.head.next;
        };
        same_parent = r.same_parent;
        same_extrinsics = r.same_extrinsics;
      })
      go s' r (err e) (inl f) = raised (inl f)
      go s' r (err e) (inr (m, p)) = absurd cc

  -- What a finished block is: the head of the fork with its timeline sealed, after the parent, named
  -- by the hash of its header, with the extrinsics that were applied.
  pub record Finished (b : Building rpc) (t : Timeline) (block : Block) (s : Building rpc)
      : Type 0 where
    pub head : IsHead s.shared block s.env.db (seal t)
    pub child_of : (fields block).parent_hash ≡ (fields b.parent).hash
    pub hashed : (fields block).hash ≡ runtime.blake2_256 (fields block).header
    pub same_extrinsics : (fields block).extrinsics ≡ b.extrinsics

  child-Finished :
      (output : Bytes) (b : Building rpc) (t : Timeline) (s : Building rpc)
      → Ready b t s
      → Ensures
          (λ block s'. Finished b t block s' × ((fields block).header ≡ output))
          (λ _. Fails ⊎ (u32_max < t.now + 1))
          (on_env runtime
            (child rpc s.shared s.parent (runtime.blake2_256 output) output s.extrinsics)
            s)
  child-Finished output b t s r =
      elim (child-IsHead s.shared s.parent s.env t (runtime.blake2_256 output) output s.extrinsics
        r.head) [
          | inl (over, e) ↦ rw e (raised (inr over))
          | inr (block', db', e, h, eh, ed, ep, ee, _, _, _) ↦ rw e (
              returned (
                record {
                  head = h;
                  child_of = ep ∙ ap (λ parent. (fields parent).hash) r.same_parent;
                  hashed = eh ∙ ap runtime.blake2_256 (sym ed);
                  same_extrinsics = ee ∙ r.same_extrinsics;
                },
                ed,
              ))
        ]

  register_if-Ready :
      (changed : Bool) (b : Building rpc) (t : Timeline) (s : Building rpc)
      → Ready b t s
      → Ensures
          (λ _ s'. Ready b t s')
          (λ _. Fails ⊎ (u32_max < t.now + 1))
          ((if changed then register_new_metadata runtime else pure tt) s)
  register_if-Ready true b t s r = register-Ready b t s r
  register_if-Ready false b t s r = returned r

  abbrev written_to : Building rpc → List (Bytes × Option Bytes) → Building rpc
  written_to s diff = record s { shared = (set_batch (layer_of s.shared s.parent) diff).shared }

  apply-Ready :
      (diff : List (Bytes × Option Bytes)) (b : Building rpc) (t : Timeline) (s : Building rpc)
      → Ready b t s
      → Ready b (write_all t diff) (written_to s diff)
  unfolding set_batch
  apply-Ready diff b t s r = record {
    head = record {
      chain = r.head.chain;
      refines = set_batch-Refines (layer_of s.shared s.parent) s.env.db t diff r.head.refines;
      next = r.head.next ∙ sym (write_all-now t diff);
    };
    same_parent = r.same_parent;
    same_extrinsics = r.same_extrinsics;
  }

  -- The call that finalizes the block returned the result.
  abbrev pub Finalizes : Building rpc → RuntimeCallResult → Type 0
  Finalizes b result =
      (env : Env rpc) × (runtime.execute finalize_block [] (layer_of b.shared b.parent)
          (record (b.env) { stats = reset_stats })
        ≡ returns result env)

  finalize_ready-Finished :
      (b : Building rpc) (t : Timeline)
      → IsHead b.shared b.parent b.env.db t
      → Ensures
          (λ block s.
            (result : RuntimeCallResult) × Finalizes b result
            × Finished b (write_all t result.storage_diff) block s
            × ((fields block).header ≡ result.output))
          (λ _. Fails ⊎ (u32_max < t.now + 1))
          (finalize_ready runtime b)
  unfolding finalize_ready apply_storage_diff
  finalize_ready-Finished b t h =
      after-Ensures _
        (execute_on-Ready finalize_block [] b t
          (record b { env = record (b.env) { stats = reset_stats } })
          (record {
            head = record { chain = h.chain; refines = h.refines; next = h.next };
            same_parent = refl;
            same_extrinsics = refl;
          }))
        (λ result s r.
          let t' = write_all t result.storage_diff in
          let s₁ = written_to s result.storage_diff in
          let r' = apply-Ready result.storage_diff b t s r.0 in
          weaken-Ensures
            (after-Ensures _ (register_if-Ready (code_changed runtime s₁) b t' s₁ r')
              (λ _ s' q. child-Finished result.output b t' s' q))
            (λ block s' q. (result, (r.1, r.2), q.0, q.1)) (λ _. bound result.storage_diff))
    where
      bound :
          (diff : List (Bytes × Option Bytes))
          → Fails ⊎ (u32_max < (write_all t diff).now + 1)
          → Fails ⊎ (u32_max < t.now + 1)
      bound diff (inl f) = inl f
      bound diff (inr over) = inr (rw (write_all-now t diff) at over)

  -- Where extrinsics are open over a parent that is the head of the fork, finalizing makes a block
  -- that is the new head: the storage diff that the runtime returns is written, the timeline is
  -- sealed, and the block follows the parent, has the output of the runtime for its header and the
  -- hash of that for its hash, and the extrinsics that were applied. It fails only if the runtime does, or at the last block number.
  pub finalize-Finished :
      (b : Building rpc) (t : Timeline)
      → b.phase ≡ inherents_applied
      → IsHead b.shared b.parent b.env.db t
      → Ensures
          (λ block s.
            (result : RuntimeCallResult) × Finalizes b result
            × Finished b (write_all t result.storage_diff) block s
            × ((fields block).header ≡ result.output))
          (λ _. Fails ⊎ (u32_max < t.now + 1))
          (finalize runtime b)
  finalize-Finished b t e h =
      subst
        (Ensures
          (λ block s.
            (result : RuntimeCallResult) × Finalizes b result
            × Finished b (write_all t result.storage_diff) block s
            × ((fields block).header ≡ result.output))
          (λ _. Fails ⊎ (u32_max < t.now + 1)))
        (sym (open_to_finalize runtime b e)) (finalize_ready-Finished b t h)
