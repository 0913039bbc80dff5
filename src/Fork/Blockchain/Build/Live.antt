-- ===== src/Fork/Blockchain/Build/Live.antt =====
-- While a block is built its parent stays the head of the fork, over a timeline that grows.
use pop_cli.Prelude.{ℕ, ◌≡◌, ◌∙◌, sym, List, Option}
use pop_cli.Bytes.{Bytes}
use pop_cli.Fork.Monad.{Outcome, M, Ensures, returned, raised, Moves}
use pop_cli.Fork.Rpc.{Rpc, IsHonest}
use pop_cli.Fork.Remote.{Env, reset_stats}
use pop_cli.Fork.Remote.Sound.{IsCacheOf, Kept}
use pop_cli.Fork.Remote.Sound.Keeping.{Replying}
use pop_cli.Fork.Local.{set_batch}
use pop_cli.Fork.Local.Timeline.{Timeline, Refines-same}
use pop_cli.Fork.Local.Refine.{SameHistory_refl}
use pop_cli.Fork.Block.{Block, layer_of}
use pop_cli.Fork.Block.Laws.{IsHead}
use pop_cli.Fork.Builder.{
  BuilderPhase, RuntimeApi, Runtime, Building, on_env, execute_on, reset_storage_stats,
  apply_storage_diff,
}
use pop_cli.Fork.Builder.Hosts.{Hosts, Harmless, Unharmed, Unharmed-Kept}
use pop_cli.Fork.Builder.Writes.{write_all, write_all-now, set_batch-Refines}

module _ {rpc : Rpc} {chain : Bytes → Bytes → Option Bytes} {Fails : Type 0}
    (honest : IsHonest rpc chain Fails) (replying : Replying rpc) {runtime : Runtime rpc}
    (hosts : Hosts chain runtime) (parent : Block) (now : ℕ) where
  -- The building of block `now` on `parent`, in the phase; `Body` holds of the extrinsics so far.
  pub record Live (Body : List Bytes → Type 0) (phase : BuilderPhase) (b : Building rpc)
      : Type 0 where
    pub timeline : Timeline
    pub same_now : timeline.now ≡ now
    pub head : IsHead b.shared b.parent b.env.db timeline
    pub cache : IsCacheOf chain b.env.db
    pub same_parent : b.parent ≡ parent
    pub body : Body b.extrinsics
    pub same_phase : b.phase ≡ phase

  module _ (Body : List Bytes → Type 0) where
    -- Keeps all of it.
    abbrev pub Stays : {A : Type 0} → BuilderPhase → M (Building rpc) A → Type 0
    Stays phase m = Moves (Live Body phase) (Live Body phase) m

    kept-Live :
        (phase : BuilderPhase) (b : Building rpc) (env : Env rpc)
        → Live Body phase b
        → Kept chain b.env.db env.db
        → Live Body phase (record b { env = env })
    kept-Live phase b env l k = record {
      timeline = l.timeline;
      same_now = l.same_now;
      head = record {
        chain = l.head.chain;
        refines =
            Refines-same (layer_of b.shared b.parent) b.env.db env.db l.timeline k.1 l.head.refines;
        next = l.head.next;
      };
      cache = k.0;
      same_parent = l.same_parent;
      body = l.body;
      same_phase = l.same_phase;
    }

    pub on_env-Stays :
        {A : Type 0} (phase : BuilderPhase) (m : M (Env rpc) A) (b : Building rpc)
        → Live Body phase b
        → Ensures (λ _ s. Kept chain b.env.db s.db) (λ _. Unit {0}) (m b.env)
        → Ensures (λ _ s. Live Body phase s) (λ _. Unit {0}) (on_env runtime m b)
    on_env-Stays {A} phase m b l h = go (m b.env) h
      where
        go :
            (o : Outcome (Env rpc) A)
            → Ensures (λ _ s. Kept chain b.env.db s.db) (λ _. Unit {0}) o
            → Ensures (λ _ s. Live Body phase s) (λ _. Unit {0}) (on_env runtime (λ _. o) b)
        go _ (returned {s = env} k) = returned (kept-Live phase b env l k)
        go _ (raised u) = raised tt

    pub Harmless-Stays :
        {A : Type 0} (phase : BuilderPhase) (m : M (Env rpc) A) (b : Building rpc)
        → Live Body phase b
        → Harmless chain m
        → Ensures (λ _ s. Live Body phase s) (λ _. Unit {0}) (on_env runtime m b)
    Harmless-Stays {A} phase m b l h = on_env-Stays phase m b l (go (m b.env) (h b.env))
      where
        go :
            (o : Outcome (Env rpc) A)
            → Ensures (λ _ s. Unharmed chain b.env.db s.db) (λ s. Unharmed chain b.env.db s.db) o
            → Ensures (λ _ s. Kept chain b.env.db s.db) (λ _. Unit {0}) o
        go _ (returned u) = returned (Unharmed-Kept b.env.db (l.cache, SameHistory_refl b.env.db) u)
        go _ (raised u) = raised tt

    pub execute-Stays :
        (phase : BuilderPhase) (api : RuntimeApi) (arguments : Bytes)
        → Stays phase (execute_on runtime api arguments)
    execute-Stays phase api arguments b l =
        Harmless-Stays phase (runtime.execute api arguments (layer_of b.shared b.parent)) b l
          (hosts.executes api arguments (layer_of b.shared b.parent))

    pub reset-Stays : (phase : BuilderPhase) → Stays phase (reset_storage_stats runtime)
    reset-Stays phase b l = returned (
        kept-Live phase b (record (b.env) { stats = reset_stats }) l
          (l.cache, SameHistory_refl b.env.db))

    abbrev pub written_to : Building rpc → List (Bytes × Option Bytes) → Building rpc
    written_to b diff = record b { shared = (set_batch (layer_of b.shared b.parent) diff).shared }

    written-Live :
        (phase : BuilderPhase) (b : Building rpc) (diff : List (Bytes × Option Bytes))
        → Live Body phase b
        → Live Body phase (written_to b diff)
    unfolding set_batch
    written-Live phase b diff l = record {
      timeline = write_all l.timeline diff;
      same_now = write_all-now l.timeline diff ∙ l.same_now;
      head = record {
        chain = l.head.chain;
        refines =
            set_batch-Refines (layer_of b.shared b.parent) b.env.db l.timeline diff l.head.refines;
        next = l.head.next ∙ sym (write_all-now l.timeline diff);
      };
      cache = l.cache;
      same_parent = l.same_parent;
      body = l.body;
      same_phase = l.same_phase;
    }

    pub apply-Stays :
        (phase : BuilderPhase) (diff : List (Bytes × Option Bytes))
        → Stays phase (apply_storage_diff runtime diff)
    unfolding apply_storage_diff
    apply-Stays phase diff b l = returned (written-Live phase b diff l)
