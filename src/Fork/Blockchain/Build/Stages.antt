-- ===== src/Fork/Blockchain/Build/Stages.antt =====
-- The stages of the building of a block: each leads from one phase to the next, or fails.
use pop_cli.Prelude.{
  ℕ, ◌+◌, ◌<◌, ◌≡◌, refl, sym, Bool, true, false, List, [], ◌∷◌, All, Option, some, if◌then◌else◌,
  arith,
}
use mathlib.Core.Path.{subst}
use pop_cli.Bytes.{Bytes}
use pop_cli.Fork.Result.{inherent_provider}
use pop_cli.Fork.Monad.{
  Outcome, M, ◌>>=◌, ◌>>◌, pure, raise, modify, Ensures, returned, raised, weaken-Ensures, Moves,
  Moves-bind, pure-Moves,
}
use pop_cli.Fork.Rpc.{Rpc, IsHonest}
use pop_cli.Fork.Remote.{Env}
use pop_cli.Fork.Remote.Sound.Keeping.{Replying}
use pop_cli.Fork.Local.{Shared, set}
use pop_cli.Fork.Local.Keeping.{metadata_at-Keeps}
use pop_cli.Fork.Local.Timeline.{write}
use pop_cli.Fork.Local.Refine.{set-Refines, SameHistory_refl}
use pop_cli.Fork.Block.{Block, fields, layer_of, block_metadata}
use pop_cli.Fork.Builder.{
  BuilderPhase, created, initialized, inherents_applied, RuntimeCallResult, Runtime, Building,
  dispatch_ok, apply_storage_diff, set_phase, push_extrinsic, initialize_created, initialize,
  provider_error, provide_all, apply_each_inherent, mock_relay_chain_inherent,
  inherents_initialized, apply_inherents, core_initialize_block, apply_extrinsic_api,
}
use pop_cli.Fork.Builder.Hosts.{Hosts, Harmless}
use pop_cli.Fork.Blockchain.Build.Live.{
  Live, on_env-Stays, Harmless-Stays, execute-Stays, reset-Stays, apply-Stays,
}

-- Any extrinsics so far.
abbrev pub Any : List Bytes → Type 0
Any extrinsics = Unit {0}

module _ {rpc : Rpc} {chain : Bytes → Bytes → Option Bytes} {Fails : Type 0}
    (honest : IsHonest rpc chain Fails) (replying : Replying rpc) {runtime : Runtime rpc}
    (hosts : Hosts chain runtime) (parent : Block) (now : ℕ) where
  abbrev In : (List Bytes → Type 0) → BuilderPhase → Building rpc → Type 0
  In = Live honest replying hosts parent now

  set_phase-In :
      (Body : List Bytes → Type 0) (from to : BuilderPhase)
      → Moves (In Body from) (In Body to) (set_phase runtime to)
  set_phase-In Body from to b l = returned (record {
    timeline = l.timeline;
    same_now = l.same_now;
    head = l.head;
    cache = l.cache;
    same_parent = l.same_parent;
    body = l.body;
    same_phase = refl;
  })

  pub push-In :
      (phase : BuilderPhase) (x : Bytes)
      → Moves (In Any phase) (In Any phase) (push_extrinsic runtime x)
  push-In phase x b l = returned (record {
    timeline = l.timeline;
    same_now = l.same_now;
    head = l.head;
    cache = l.cache;
    same_parent = l.same_parent;
    body = tt;
    same_phase = l.same_phase;
  })

  initialize_created-In : Moves (In Any created) (In Any initialized) (initialize_created runtime)
  unfolding initialize_created
  initialize_created-In = Moves-bind (reset-Stays honest replying hosts parent now Any created) λ _.
      λ b.
        Moves-bind
          (execute-Stays honest replying hosts parent now Any created core_initialize_block
            b.header)
          (λ result.
            Moves-bind
              (apply-Stays honest replying hosts parent now Any created result.storage_diff)
              λ _. Moves-bind (set_phase-In Any created initialized) λ _. pure-Moves result)
          b

  in_created :
      (b : Building rpc) → b.phase ≡ created → initialize runtime b ≡ initialize_created runtime b
  unfolding initialize
  in_created b e = rw e refl

  pub initialize-In : Moves (In Any created) (In Any initialized) (initialize runtime)
  initialize-In b l =
      subst (Ensures (λ _ s. In Any initialized s) (λ _. Unit {0}))
        (sym (in_created b l.same_phase)) (initialize_created-In b l)

  provider_error-In :
      {A : Type 0} (o : Outcome (Building rpc) A)
      → Ensures (λ _ s. In Any initialized s) (λ _. Unit {0}) o
      → Ensures (λ _ s. In Any initialized s) (λ _. Unit {0}) (provider_error runtime o)
  provider_error-In _ (returned l) = returned l
  provider_error-In _ (raised u) = raised u

  provide_all-In :
      (providers : List (Shared rpc → Block → M (Env rpc) (List Bytes)))
      → All
          (λ provider.
            (shared : Shared rpc) (block : Block) → Harmless chain (provider shared block))
          providers
      → Moves (In Any initialized) (In Any initialized) (provide_all runtime providers)
  unfolding provide_all
  provide_all-In [] h b l = returned l
  provide_all-In (provider ∷ providers) h b l =
      Moves-bind
        (λ b' l'. provider_error-In _ (
          Harmless-Stays honest replying hosts parent now Any initialized
            (provider b'.shared b'.parent) b' l' (h.0 b'.shared b'.parent)))
        (λ inherents. Moves-bind (provide_all-In providers h.1) (λ rest s q. returned q)) b l

  each_inherent-In :
      (inherents : List Bytes)
      → Moves (In Any initialized) (In Any initialized) (apply_each_inherent runtime inherents)
  unfolding apply_each_inherent
  each_inherent-In [] b l = returned l
  each_inherent-In (x ∷ xs) b l =
      Moves-bind
        (execute-Stays honest replying hosts parent now Any initialized apply_extrinsic_api x)
        (λ result. go (each_inherent-In xs) result (dispatch_ok result.output)) b l
    where
      go :
          Moves (In Any initialized) (In Any initialized) (apply_each_inherent runtime xs)
          → (result : RuntimeCallResult) (good : Bool)
          → Moves (In Any initialized) (In Any initialized) (
              if good
              then (do
                apply_storage_diff runtime result.storage_diff
                push_extrinsic runtime x
                results ← apply_each_inherent runtime xs
                pure (result ∷ results))
              else raise inherent_provider)
      go others result true =
          Moves-bind
            (apply-Stays honest replying hosts parent now Any initialized result.storage_diff)
            λ _.
              Moves-bind (push-In initialized x)
                λ _. Moves-bind others λ results. pure-Moves (result ∷ results)
      go others result false = λ s q. raised tt

  set-In :
      (Body : List Bytes → Type 0) (phase : BuilderPhase) (key : Bytes) (v : Option Bytes)
      → Moves
          (In Body phase)
          (In Body phase)
          (modify (λ b. record b { shared = (set (layer_of b.shared b.parent) key v).shared }))
  unfolding set
  set-In Body phase key v b l = returned (record {
    timeline = write l.timeline key v;
    same_now = l.same_now;
    head = record {
      chain = l.head.chain;
      refines = set-Refines (layer_of b.shared b.parent) b.env.db l.timeline key v l.head.refines;
      next = l.head.next;
    };
    cache = l.cache;
    same_parent = l.same_parent;
    body = l.body;
    same_phase = l.same_phase;
  })

  first_below : (first n m : ℕ) → n + 1 ≡ m → first < m → first < n + 1
  first_below first n m e l = omega arith

  mock-In : Moves (In Any initialized) (In Any initialized) (mock_relay_chain_inherent runtime)
  unfolding mock_relay_chain_inherent block_metadata
  mock-In b l =
      Moves-bind
        (λ b' l'.
          on_env-Stays honest replying hosts parent now Any initialized
            (block_metadata rpc b'.shared b'.parent) b' l'
            (weaken-Ensures
              (metadata_at-Keeps honest replying b'.env.db (layer_of b'.shared b'.parent)
                (fields b'.parent).number
                (first_below _ _ _ l'.head.next l'.head.refines.after_fork) b'.env
                (l'.cache, SameHistory_refl b'.env.db))
              (λ _ _ q. q) (λ _ _. tt)))
        (λ metadata. go (runtime.has_para_inherent metadata)) b l
    where
      go :
          (has : Bool)
          → Moves (In Any initialized) (In Any initialized) (
              if has
              then modify (λ b. record b {
                shared =
                    (set
                      (layer_of b.shared b.parent)
                      runtime.para_inherent_included_key
                      (some [])).shared;
              })
              else pure tt)
      go true = set-In Any initialized runtime.para_inherent_included_key (some [])
      go false = pure-Moves tt

  inherents_initialized-In :
      Moves (In Any initialized) (In Any inherents_applied) (inherents_initialized runtime)
  unfolding inherents_initialized
  inherents_initialized-In =
      Moves-bind (reset-Stays honest replying hosts parent now Any initialized) λ _.
        Moves-bind (provide_all-In runtime.providers hosts.provides) λ inherents.
          Moves-bind (each_inherent-In inherents) λ results.
            Moves-bind mock-In λ _.
              Moves-bind (set_phase-In Any initialized inherents_applied) λ _. pure-Moves results

  in_initialized :
      (b : Building rpc)
      → b.phase ≡ initialized
      → apply_inherents runtime b ≡ inherents_initialized runtime b
  unfolding apply_inherents
  in_initialized b e = rw e refl

  pub inherents-In : Moves (In Any initialized) (In Any inherents_applied) (apply_inherents runtime)
  inherents-In b l =
      subst (Ensures (λ _ s. In Any inherents_applied s) (λ _. Unit {0}))
        (sym (in_initialized b l.same_phase)) (inherents_initialized-In b l)
