-- ===== src/Fork/Header/Keeping.antt =====
-- The making of a header keeps the cache and the history.
use pop_cli.Prelude.{
  ℕ, ◌+◌, ◌<◌, Bool, true, false, List, [], any, Option, none, some, if◌then◌else◌,
}
use pop_cli.Bytes.{Bytes}
use pop_cli.Fork.Monad.{Outcome, M, ◌>>=◌, pure, Ensures, returned, raised, Preserves-bind}
use pop_cli.Fork.Rpc.{Rpc, IsHonest}
use pop_cli.Fork.Cache.Tables.{Db}
use pop_cli.Fork.Remote.{Env}
use pop_cli.Fork.Remote.Sound.{Kept}
use pop_cli.Fork.Remote.Sound.Keeping.{Replying, Keeping, lift-Keeping}
use pop_cli.Fork.Local.{Shared}
use pop_cli.Fork.Local.Keeping.{get-Keeps, metadata_at-Keeps}
use pop_cli.Fork.Block.{Block, fields, layer_of, block_metadata}
use pop_cli.Fork.Builder.{RuntimeCallResult, aura_api_slot_duration, Runtime}
use pop_cli.Fork.Builder.Hosts.{Hosts, Unharmed, Unharmed-Kept}
use pop_cli.Fork.Header.{
  Libraries, ConsensusType, aura, babe, unknown, DigestItem, is_preruntime,
  get_slot_duration_from_runtime, duration_or_detect, lenient_timestamp, stored,
  calculate_next_slot, next_slot, slot_digest, slot_items, detect_consensus_type,
  create_next_header_with_slot, detected,
}

module _ {rpc : Rpc} {chain : Bytes → Bytes → Option Bytes} {Fails : Type 0}
    (honest : IsHonest rpc chain Fails) (replying : Replying rpc) (db₀ : Db)
    (libraries : Libraries rpc) {runtime : Runtime rpc} (hosts : Hosts chain runtime)
    (shared : Shared rpc) (parent : Block) where
  abbrev Keeps : {A : Type 0} → M (Env rpc) A → Type 0
  Keeps m = Keeping honest replying db₀ m

  detect-Keeps :
      (m : rpc.Metadata) (fallback : ℕ)
      → Keeps (get_slot_duration_from_runtime libraries runtime (layer_of shared parent) m fallback)
  unfolding get_slot_duration_from_runtime
  detect-Keeps m fallback s q =
      go (runtime.execute aura_api_slot_duration [] (layer_of shared parent) s)
        (hosts.executes aura_api_slot_duration [] (layer_of shared parent) s)
    where
      go :
          (o : Outcome (Env rpc) RuntimeCallResult)
          → Ensures (λ _ e. Unharmed chain s.db e.db) (λ e. Unharmed chain s.db e.db) o
          → Ensures
              (λ _ e. Kept chain db₀ e.db)
              (λ e. Kept chain db₀ e.db)
              (detected libraries m fallback o)
      go _ (returned u) = returned (Unharmed-Kept db₀ q u)
      go _ (raised u) = returned (Unharmed-Kept db₀ q u)

  duration-Keeps :
      (cached : Option ℕ) (m : rpc.Metadata) (fallback : ℕ)
      → Keeps (duration_or_detect libraries cached runtime (layer_of shared parent) m fallback)
  duration-Keeps (some d) m fallback s q = returned q
  duration-Keeps none m fallback s q = detect-Keeps m fallback s q

  lenient-Keeps : (o : Option Bytes) → Keeps (lenient_timestamp libraries o)
  lenient-Keeps none s q = returned q
  lenient-Keeps (some bytes) s q = returned q

  next_slot-Keeps :
      (m : rpc.Metadata) (c : ConsensusType) (cached : Option ℕ)
      → Keeps (next_slot libraries runtime shared parent m c cached)
  unfolding next_slot
  next_slot-Keeps m c cached = Preserves-bind (duration-Keeps cached m _) λ d.
      Preserves-bind (get-Keeps honest replying db₀ (layer_of shared parent) _ _) λ value.
        Preserves-bind (lenient-Keeps (stored libraries value))
          λ time. lift-Keeping honest replying db₀ (calculate_next_slot time d)

  slot_unless-Keeps :
      (given : Bool) (m : rpc.Metadata) (c : ConsensusType) (cached : Option ℕ)
      → Keeps (
          if given
          then pure []
          else (next_slot libraries runtime shared parent m c cached >>= λ slot.
              pure (slot_digest libraries c slot)))
  slot_unless-Keeps true m c cached s q = returned q
  slot_unless-Keeps false m c cached s q =
      Preserves-bind (next_slot-Keeps m c cached) (λ slot s' q'. returned q') s q

  slot_items-Keeps :
      (m : rpc.Metadata) (additional : List DigestItem) (cached : Option ℕ) (c : ConsensusType)
      → Keeps (slot_items libraries runtime shared parent m additional cached c)
  unfolding slot_items
  slot_items-Keeps m additional cached aura =
      slot_unless-Keeps (any (is_preruntime aura) additional) m aura cached
  slot_items-Keeps m additional cached babe =
      slot_unless-Keeps (any (is_preruntime babe) additional) m babe cached
  slot_items-Keeps m additional cached unknown = λ s q. returned q

  pub header-Keeps :
      (additional : List DigestItem) (cached : Option ℕ)
      → (fields parent).handle.first_forked_block_number < (fields parent).number + 1
      → Keeps (create_next_header_with_slot libraries runtime shared parent additional cached)
  unfolding create_next_header_with_slot block_metadata
  header-Keeps additional cached l =
      Preserves-bind (metadata_at-Keeps honest replying db₀ (layer_of shared parent) _ l) λ m.
        Preserves-bind (slot_items-Keeps m additional cached (detect_consensus_type libraries m))
          λ items. λ s q. returned q
