-- ===== src/Fork/Blockchain/Build/Closing.antt =====
-- The last stage of the building of a block, and all stages together.
use pop_cli.Prelude.{
  ℕ, ◌+◌, ◌≡◌, refl, ◌∙◌, sym, ap, Bool, true, false, List, [], Option, if◌then◌else◌, inl, inr,
}
use mathlib.Core.Path.{subst}
use pop_cli.Bytes.{Bytes}
use pop_cli.Fork.Result.{Result, ok, err}
use pop_cli.Fork.Monad.{
  ◌>>=◌, pure, modify, lift, Ensures, returned, raised, after-Ensures, Moves, Moves-bind,
  pure-Moves,
}
use pop_cli.Fork.Rpc.{Rpc, IsHonest}
use pop_cli.Fork.Remote.Sound.Keeping.{Replying}
use pop_cli.Fork.Local.{register_metadata_version}
use pop_cli.Fork.Local.Runs.{IsCacheOf-storage}
use pop_cli.Fork.Remote.Sound.{IsCacheOf}
use pop_cli.Fork.Local.Timeline.{Timeline, seal}
use pop_cli.Fork.Block.{Block, fields, layer_of, child}
use pop_cli.Fork.Block.Laws.{IsHead, child-IsHead}
use pop_cli.Fork.Builder.{
  inherents_applied, Runtime, Building, on_env, register_new_metadata, code_changed, finalize,
  finalize_ready, finalize_block, metadata_api,
}
use pop_cli.Fork.Builder.Hosts.{Hosts}
use pop_cli.Fork.Builder.Writes.{register-Refines}
use pop_cli.Fork.Blockchain.Build.Live.{Live, execute-Stays, reset-Stays, apply-Stays}

module _ {rpc : Rpc} {chain : Bytes → Bytes → Option Bytes} {Fails : Type 0}
    (honest : IsHonest rpc chain Fails) (replying : Replying rpc) {runtime : Runtime rpc}
    (hosts : Hosts chain runtime) (parent : Block) (now : ℕ) where
  abbrev In : (List Bytes → Type 0) → Building rpc → Type 0
  In Body = Live honest replying hosts parent now Body inherents_applied

  -- The block is the head of the fork after block `now`, on the parent.
  pub record Closed (extrinsics : List Bytes) (block : Block) (s : Building rpc) : Type 0 where
    pub timeline : Timeline
    pub same_now : timeline.now ≡ now + 1
    pub head : IsHead s.shared block s.env.db timeline
    pub cache : IsCacheOf chain s.env.db
    pub child_of : (fields block).parent_hash ≡ (fields parent).hash
    pub hashed : (fields block).hash ≡ runtime.blake2_256 (fields block).header
    pub same_extrinsics : (fields block).extrinsics ≡ extrinsics

  module _ (xs : List Bytes) where
    abbrev Is : List Bytes → Type 0
    Is ys = ys ≡ xs

    metadata-In :
        (o : Result rpc.Metadata)
        → Moves (In Is) (In Is) (
            lift o >>= λ metadata. modify (λ b. record b {
              shared =
                  (register_metadata_version
                    (layer_of b.shared b.parent)
                    (layer_of b.shared b.parent).current_block_number
                    metadata).shared;
            }))
    unfolding register_metadata_version
    metadata-In (err e) b l = raised tt
    metadata-In (ok m) b l = returned (record {
      timeline = l.timeline;
      same_now = l.same_now;
      head = record {
        chain = l.head.chain;
        refines =
            register-Refines (layer_of b.shared b.parent) b.env.db l.timeline _ m l.head.refines;
        next = l.head.next;
      };
      cache = l.cache;
      same_parent = l.same_parent;
      body = l.body;
      same_phase = l.same_phase;
    })

    register-In : Moves (In Is) (In Is) (register_new_metadata runtime)
    unfolding register_new_metadata
    register-In =
        Moves-bind
          (execute-Stays honest replying hosts parent now Is inherents_applied metadata_api [])
          λ result. metadata-In (runtime.decode_metadata result.output)

    register_if-In :
        (changed : Bool)
        → Moves (In Is) (In Is) (if changed then register_new_metadata runtime else pure tt)
    register_if-In true = register-In
    register_if-In false = pure-Moves tt

    child-Closed :
        (output : Bytes) (b : Building rpc)
        → In Is b
        → Ensures
            (λ block s. Closed xs block s)
            (λ _. Unit {0})
            (on_env runtime
              (child rpc b.shared b.parent (runtime.blake2_256 output) output b.extrinsics)
              b)
    child-Closed output b l =
        elim (child-IsHead b.shared b.parent b.env l.timeline (runtime.blake2_256 output) output
          b.extrinsics l.head) [
            | inl (over, e) ↦ rw e (raised tt)
            | inr (block', db', e, h, eh, ed, ep, ee, _, _, ss) ↦ rw e (
                returned (record {
                  timeline = seal l.timeline;
                  same_now = ap (λ n. n + 1) l.same_now;
                  head = h;
                  cache = IsCacheOf-storage chain b.env.db db' ss l.cache;
                  child_of = ep ∙ ap (λ p. (fields p).hash) l.same_parent;
                  hashed = eh ∙ ap runtime.blake2_256 (sym ed);
                  same_extrinsics = ee ∙ l.body;
                }))
          ]

    finalize_ready-Closed :
        (b : Building rpc)
        → In Is b
        → Ensures (λ block s. Closed xs block s) (λ _. Unit {0}) (finalize_ready runtime b)
    unfolding finalize_ready
    finalize_ready-Closed b l =
        after-Ensures _ (reset-Stays honest replying hosts parent now Is inherents_applied b l)
          λ _ s₀ l₀.
            after-Ensures _
              (execute-Stays honest replying hosts parent now Is inherents_applied finalize_block []
                s₀ l₀)
              λ result s₁ l₁.
                after-Ensures _
                  (apply-Stays honest replying hosts parent now Is inherents_applied
                    result.storage_diff s₁ l₁)
                  λ _ s₂ l₂.
                    after-Ensures _ (register_if-In (code_changed runtime s₂) s₂ l₂)
                      λ _ s₃ l₃. child-Closed result.output s₃ l₃

    open_to_finalize :
        (b : Building rpc)
        → b.phase ≡ inherents_applied
        → finalize runtime b ≡ finalize_ready runtime b
    unfolding finalize
    open_to_finalize b e = rw e refl

    pub finalize-Closed :
        (b : Building rpc)
        → In Is b
        → Ensures (λ block s. Closed xs block s) (λ _. Unit {0}) (finalize runtime b)
    finalize-Closed b l =
        subst (Ensures (λ block s. Closed xs block s) (λ _. Unit {0}))
          (sym (open_to_finalize b l.same_phase)) (finalize_ready-Closed b l)
