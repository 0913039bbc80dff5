-- ===== src/Fork/Blockchain/Build/Laws.antt =====
-- What `build_block` does, from a head of the fork.
use pop_cli.Prelude.{
  ℕ, ◌+◌, ◌<◌, ◌≡◌, refl, ◌∙◌, sym, ap, Bool, true, false, List, [], ◌∷◌, ◌++◌, Option, arith,
  ==_refl,
}
use mathlib.Core.Path.{subst}
use pop_cli.Bytes.{Bytes, bytes_eq, bytes_beq}
use pop_cli.Fork.Monad.{◌>>=◌, Ensures, returned, after-Ensures, weaken-Ensures}
use pop_cli.Fork.Rpc.{Rpc, IsHonest}
use pop_cli.Fork.Cache.Tables.{Db}
use pop_cli.Fork.Remote.{Env}
use pop_cli.Fork.Remote.Sound.{IsCacheOf}
use pop_cli.Fork.Remote.Sound.Keeping.{Replying}
use pop_cli.Fork.Local.{Shared}
use pop_cli.Fork.Local.Refine.{SameHistory_refl}
use pop_cli.Fork.Local.Timeline.{Timeline, Refines-same}
use pop_cli.Fork.Block.{fields, layer_of}
use pop_cli.Fork.Block.Laws.{IsHead}
use pop_cli.Fork.Builder.Laws.{Splits}
use pop_cli.Fork.Builder.Hosts.{Hosts}
use pop_cli.Fork.Header.{create_next_header_with_slot}
use pop_cli.Fork.Header.Keeping.{header-Keeps}
use pop_cli.Fork.Blockchain.Build.{
  Engine, BuildBlockResult, Fork, Built, new_builder, run_builder, duration_of, build_on,
  commit_head, announce, invalidated, event_of, build_block,
}
use pop_cli.Fork.Blockchain.Build.Preparing.{
  Untouched, Follows, Follows-kept, on_env-Untouched, with_building-Untouched,
  prepare_executor-Untouched, Made, run-Made,
}

first_below : (first n m : ℕ) → n + 1 ≡ m → first < m → first < n + 1
first_below first n m e l = omega arith

module _ {rpc : Rpc} {chain : Bytes → Bytes → Option Bytes} {Fails : Type 0}
    (honest : IsHonest rpc chain Fails) (replying : Replying rpc) (engine : Engine rpc)
    (hosts : (executor : engine.Executor) → Hosts chain (engine.runtime executor)) where
  abbrev Same : Fork engine → Fork engine → Type 0
  Same = Untouched honest replying engine hosts

  abbrev pub Succeeds : List Bytes → Fork engine → ℕ → BuildBlockResult → Shared rpc → Db → Type 0
  Succeeds = Made honest replying engine hosts

  build_on-Made :
      (xs : List Bytes) (fork : Fork engine) (t : Timeline)
      → IsHead fork.shared fork.head fork.env.db t
      → IsCacheOf chain fork.env.db
      → Ensures
          (λ built s. Same fork s × Succeeds xs fork t.now built.result s.shared s.env.db)
          (λ s. Same fork s)
          (build_on engine fork.head xs fork)
  unfolding build_on
  build_on-Made xs fork t h c =
      after-Ensures _
        (on_env-Untouched honest replying engine hosts
          (create_next_header_with_slot engine.libraries (engine.runtime fork.executor) fork.shared
            fork.head [] (duration_of engine fork.cached_slot_duration))
          (record {
            same_head = refl;
            same_executor = refl;
            same_duration = refl;
            same_events = refl;
          })
          (weaken-Ensures
            (header-Keeps honest replying fork.env.db engine.libraries (hosts fork.executor)
              fork.shared fork.head [] (duration_of engine fork.cached_slot_duration)
              (first_below _ _ _ h.next h.refines.after_fork) fork.env
              (c, SameHistory_refl fork.env.db))
            (λ _ _ q. q) (λ _ _. tt)))
        λ header s₁ q₁.
          after-Ensures _
            (with_building-Untouched honest replying engine hosts
              (λ r shared db. Succeeds xs fork t.now r.0 shared db)
              (run_builder (engine.runtime fork.executor) xs
                (new_builder engine s₁ fork.head header))
              q₁.0
              (run-Made honest replying engine hosts xs fork t.now
                (new_builder engine s₁ fork.head header) refl
                (record {
                  timeline = t;
                  same_now = refl;
                  head = record {
                    chain = h.chain;
                    refines = rw q₁.2 (
                        Refines-same (layer_of fork.shared fork.head) fork.env.db s₁.env.db t q₁.1.1
                          h.refines);
                    next = h.next;
                  };
                  cache = q₁.1.0;
                  same_parent = refl;
                  body = tt;
                  same_phase = refl;
                })))
            λ built s₂ q₂.
              after-Ensures _
                (prepare_executor-Untouched honest replying engine hosts
                  (engine.runtime fork.executor) built.1 built.0.block fork s₂ q₂.0 q₂.1.1.cache)
                λ executor s₃ q₃. returned (
                  q₃.0,
                  (
                    q₂.1.0,
                    rw q₃.2
                        (Follows-kept honest replying engine hosts s₂.env.db s₃.env.db q₂.1.1 q₃.1),
                  ),
                )

  invalidated-db : (upgraded : Bool) (env : Env rpc) → (invalidated engine upgraded env).db ≡ env.db
  invalidated-db true env = refl
  invalidated-db false env = refl

  -- The head is the parent still, so the new block becomes the head.
  finish-Made :
      (xs : List Bytes) (fork s : Fork engine) (now : ℕ) (built : Built engine)
      → Same fork s
      → Succeeds xs fork now built.result s.shared s.env.db
      → Ensures
          (λ r s'.
            Succeeds xs fork now r s'.shared s'.env.db
            × (s'.head ≡ r.block)
            × (s'.events ≡ fork.events ++ event_of engine s'.shared s'.head ∷ []))
          (λ s'. Same fork s')
          ((commit_head engine (fields fork.head).hash built >>= λ _. announce engine built) s)
  unfolding commit_head announce
  finish-Made xs fork s now built u q =
      rw
        (ap (λ b. bytes_beq (fields b).hash (fields fork.head).hash) u.same_head
          ∙ ==_refl (fields fork.head).hash)
        (returned (
          subst (Succeeds xs fork now built.result s.shared)
              (sym (invalidated-db built.runtime_upgraded s.env)) q,
          refl,
          ap (λ events. events ++ event_of engine s.shared built.result.block ∷ []) u.same_events,
        ))

  -- From a head of the fork, `build_block` either fails and leaves the head, the executor, the cached
  -- slot duration and the events as they were, or makes a block that is the new head: it follows the
  -- head before, is named by the hash of its header, and has the inherents that the providers, asked one
  -- after the other about the head before, returned, and then the extrinsics that were included, which
  -- with those that failed are the extrinsics given, in order; and it is announced by one event. The
  -- runtime and the providers may fail, but must leave the history of local values and cache only what
  -- is of the chain.
  pub build_block-Succeeds :
      (xs : List Bytes) (fork : Fork engine) (t : Timeline)
      → IsHead fork.shared fork.head fork.env.db t
      → IsCacheOf chain fork.env.db
      → Ensures
          (λ r s.
            (Splits xs r.included r.failed
              × Follows honest replying engine hosts fork.executor fork.head t.now r.included
                  r.block s.shared s.env.db)
            × (s.head ≡ r.block)
            × (s.events ≡ fork.events ++ event_of engine s.shared s.head ∷ []))
          (λ s. Untouched honest replying engine hosts fork s)
          (build_block engine xs fork)
  unfolding build_block
  build_block-Succeeds xs fork t h c =
      after-Ensures _ (build_on-Made xs fork t h c)
        λ built s q. finish-Made xs fork s t.now built q.0 q.1
