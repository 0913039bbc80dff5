-- ===== src/Fork/Blockchain/Build/Extrinsics.antt =====
-- The extrinsics of a block that is built.
use pop_cli.Prelude.{
  ℕ, ◌≡◌, refl, ◌∙◌, sym, Bool, true, false, List, [], ◌∷◌, ◌++◌, length, Option, if◌then◌else◌,
}
use mathlib.Core.Path.{subst}
use pop_cli.Bytes.{Bytes}
use pop_cli.Fork.Monad.{
  ◌>>◌, pure, Ensures, returned, after-Ensures, both-Ensures, Moves, Moves-bind, pure-Moves,
}
use pop_cli.Fork.Rpc.{Rpc, IsHonest}
use pop_cli.Fork.Remote.Sound.Keeping.{Replying}
use pop_cli.Fork.Block.{Block}
use pop_cli.Fork.Builder.{
  created, inherents_applied, success, dispatch_failed, RuntimeCallResult, Runtime, Building,
  is_success, apply_extrinsic, apply_ready, apply_result, apply_all, keep_result,
  apply_storage_diff, push_extrinsic, apply_extrinsic_api,
}
use pop_cli.Fork.Builder.Laws.{Splits, apply_all-Splits}
use pop_cli.Fork.Builder.Hosts.{Hosts, Hosts-Answers}
use pop_cli.Fork.Builder.Inherents.{with-OnEnd, initialize-Has, Filled, apply_inherents-Filled}
use pop_cli.Fork.Blockchain.Build.{BuildBlockResult, run_builder}
use pop_cli.Fork.Blockchain.Build.Live.{Live, execute-Stays, reset-Stays, apply-Stays}
use pop_cli.Fork.Blockchain.Build.Stages.{Any, push-In, initialize-In, inherents-In}
use pop_cli.Fork.Blockchain.Build.Closing.{Closed, finalize-Closed}

module _ {rpc : Rpc} {chain : Bytes → Bytes → Option Bytes} {Fails : Type 0}
    (honest : IsHonest rpc chain Fails) (replying : Replying rpc) {runtime : Runtime rpc}
    (hosts : Hosts chain runtime) (parent : Block) (now : ℕ) where
  abbrev Open : Building rpc → Type 0
  Open = Live honest replying hosts parent now Any inherents_applied

  result-Open :
      (x : Bytes) (result : RuntimeCallResult) (good : Bool)
      → Moves Open Open (
          if good
          then (do
            apply_storage_diff runtime result.storage_diff
            push_extrinsic runtime x
            pure (success (length result.storage_diff)))
          else pure (dispatch_failed result.output))
  result-Open x result true =
      Moves-bind
        (apply-Stays honest replying hosts parent now Any inherents_applied result.storage_diff)
        λ _.
          Moves-bind (push-In honest replying hosts parent now inherents_applied x)
            λ _. pure-Moves (success (length result.storage_diff))
  result-Open x result false = pure-Moves (dispatch_failed result.output)

  apply_ready-Open : (x : Bytes) → Moves Open Open (apply_ready runtime x)
  unfolding apply_ready apply_result
  apply_ready-Open x =
      Moves-bind (reset-Stays honest replying hosts parent now Any inherents_applied) λ _.
        Moves-bind
          (execute-Stays honest replying hosts parent now Any inherents_applied apply_extrinsic_api
            x)
          λ result. result-Open x result (is_success result.output)

  open_to :
      (x : Bytes) (b : Building rpc)
      → b.phase ≡ inherents_applied
      → apply_extrinsic runtime x b ≡ apply_ready runtime x b
  unfolding apply_extrinsic
  open_to x b e = rw e refl

  apply_extrinsic-Open : (x : Bytes) → Moves Open Open (apply_extrinsic runtime x)
  apply_extrinsic-Open x b l =
      subst (Ensures (λ _ s. Open s) (λ _. Unit {0})) (sym (open_to x b l.same_phase))
        (apply_ready-Open x b l)

  apply_all-Open : (xs : List Bytes) → Moves Open Open (apply_all runtime xs)
  unfolding apply_all
  apply_all-Open [] = pure-Moves ([], [])
  apply_all-Open (x ∷ xs) =
      Moves-bind (apply_extrinsic-Open x)
        λ result. Moves-bind (apply_all-Open xs) λ rest. pure-Moves (keep_result x result rest)

  -- The block is closed over the inherents and what was included of the extrinsics.
  abbrev pub Ran : List Bytes → BuildBlockResult × Bool → Building rpc → Type 0
  Ran xs r s =
      Splits xs r.0.included r.0.failed
      × (inherents : List Bytes) × (Filled runtime parent [] inherents
          × Closed honest replying hosts parent now (inherents ++ r.0.included) r.0.block s)

  closed_at :
      (inherents included : List Bytes) (s : Building rpc)
      → Open s
      → s.extrinsics ≡ inherents ++ included
      → Live honest replying hosts parent now (λ ys. ys ≡ inherents ++ included) inherents_applied s
  closed_at inherents included s l e = record {
    timeline = l.timeline;
    same_now = l.same_now;
    head = l.head;
    cache = l.cache;
    same_parent = l.same_parent;
    body = e;
    same_phase = l.same_phase;
  }

  -- A new builder has no extrinsics.
  started :
      (b : Building rpc) (s : Building rpc) (inherents : List Bytes)
      → b.extrinsics ≡ []
      → s.parent ≡ parent
      → s.extrinsics ≡ b.extrinsics
      → Filled runtime s.parent s.extrinsics inherents
      → Filled runtime parent [] inherents
  started b s inherents e p q f =
      subst (λ block. Filled runtime block [] inherents) p
        (subst (λ ys. Filled runtime s.parent ys inherents) (q ∙ e) f)

  pub run_builder-Ran :
      (xs : List Bytes) (b : Building rpc)
      → b.extrinsics ≡ []
      → Live honest replying hosts parent now Any created b
      → Ensures (λ r s. Ran xs r s) (λ _. Unit {0}) (run_builder runtime xs b)
  unfolding run_builder
  run_builder-Ran xs b empty l =
      after-Ensures _
        (with-OnEnd (initialize-In honest replying hosts parent now b l) (initialize-Has runtime b))
        λ _ s₁ l₁.
          after-Ensures _
            (with-OnEnd (inherents-In honest replying hosts parent now s₁ l₁.0)
              (apply_inherents-Filled runtime s₁))
            λ _ s₂ l₂.
              after-Ensures _
                (both-Ensures (apply_all-Open xs s₂ l₂.0)
                  (apply_all-Splits runtime (Hosts-Answers hosts) xs s₂ l₂.0.same_phase))
                λ applied s₃ q.
                  after-Ensures _
                    (finalize-Closed honest replying hosts parent now (s₂.extrinsics ++ applied.0)
                      s₃ (closed_at s₂.extrinsics applied.0 s₃ q.0 q.1.1))
                    λ block s₄ c. returned (
                      q.1.0,
                      s₂.extrinsics,
                      (started b s₁ s₂.extrinsics empty l₁.0.same_parent l₁.1 l₂.1, c),
                    )
