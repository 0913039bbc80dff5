-- ===== src/Fork/Header.antt =====
-- The header of the next block with its slot, and the inherent that sets its time: the end of
-- crates/pop-fork/src/builder.rs, with crates/pop-fork/src/inherent/slot.rs and timestamp.rs.
mod Slots
unfoldable pub use Slots.*
pub mod Laws
pub mod Keeping
use pop_cli.Prelude.{
  ℕ, ◌+◌, ◌-◌, ◌/◌, ◌%◌, ◌^◌, Bool, false, not, ◌&&◌, List, [], ◌∷◌, ◌++◌, Option, none, some, any,
  length, leb, nat_beq, if◌then◌else◌,
}
use pop_cli.Bytes.{Bytes, bytes_beq}
use pop_cli.Fork.Result.{Result, ok, err, inherent_provider, slot_duration_zero}
use pop_cli.Fork.Monad.{Outcome, returns, raises, stuck, M, ◌>>=◌, pure, raise, gets, lift}
use pop_cli.Fork.Rpc.{Rpc}
use pop_cli.Fork.Remote.{Env}
use pop_cli.Fork.Local.{Shared, Layer, LocalSharedValue, get}
use pop_cli.Fork.Block.{Block, fields, layer_of, block_metadata}
use pop_cli.Fork.Builder.{RuntimeCallResult, aura_api_slot_duration, Runtime}

module _ {rpc : Rpc} (libraries : Libraries rpc) where
  open libraries use {
    has_pallet, expected_block_time, set_call_index, timestamp_now_key, encode_u32, encode_u64,
    decode_u64, encode_compact, encode_header, system_time,
  }

  unfoldable pub detect_consensus_type : rpc.Metadata → ConsensusType
  detect_consensus_type metadata =
      if has_pallet metadata aura_pallet
      then aura
      else if has_pallet metadata babe_pallet
      then babe
      else unknown

  abbrev pub encode_babe_predigest : ℕ → ℕ → Bytes
  encode_babe_predigest slot authority_index = 2 ∷ encode_u32 authority_index ++ encode_u64 slot

  -- The digest of a slot, `unknown` has none.
  unfoldable pub slot_digest : ConsensusType → ℕ → List DigestItem
  slot_digest aura slot = pre_runtime aura_engine (encode_u64 slot) ∷ []
  slot_digest babe slot = pre_runtime babe_engine (encode_babe_predigest slot 0) ∷ []
  slot_digest unknown slot = []

  -- The constant of the metadata, or the default.
  abbrev pub duration_of : rpc.Metadata → ℕ → Option ℕ → ℕ
  duration_of metadata fallback (some duration) = duration
  duration_of metadata fallback none = elim (expected_block_time metadata) [
    | some duration ↦ duration
    | none ↦ fallback
  ]

  -- A call that fails is one that gives no duration.
  abbrev pub detected : rpc.Metadata → ℕ → Outcome (Env rpc) RuntimeCallResult → Outcome (Env rpc) ℕ
  detected metadata fallback (returns r env) =
      returns (duration_of metadata fallback (decode_u64 r.output)) env
  detected metadata fallback (raises e env) = returns (duration_of metadata fallback none) env
  detected metadata fallback stuck = stuck

  unfoldable pub get_slot_duration_from_runtime :
      Runtime rpc → Layer rpc → rpc.Metadata → ℕ → M (Env rpc) ℕ
  get_slot_duration_from_runtime runtime layer metadata fallback env =
      detected metadata fallback (runtime.execute aura_api_slot_duration [] layer env)

  -- The cached duration, or else that of the runtime.
  abbrev pub duration_or_detect :
      Option ℕ → Runtime rpc → Layer rpc → rpc.Metadata → ℕ → M (Env rpc) ℕ
  duration_or_detect (some duration) runtime layer metadata fallback = pure duration
  duration_or_detect none runtime layer metadata fallback =
      get_slot_duration_from_runtime runtime layer metadata fallback

  -- What is stored, if there is a value.
  abbrev pub stored : Option LocalSharedValue → Option Bytes
  stored none = none
  stored (some v) = v.value

  -- `u64::decode(…).unwrap_or(0)`, or the time of the system.
  abbrev pub lenient_timestamp : Option Bytes → M (Env rpc) ℕ
  lenient_timestamp none = gets (λ env. system_time env.world)
  lenient_timestamp (some bytes) =
      pure (elim (decode_u64 bytes) [ some timestamp ↦ timestamp | none ↦ 0 ])

  -- The slot of the next block of a chain that has slots.
  unfoldable pub next_slot :
      Runtime rpc → Shared rpc → Block → rpc.Metadata → ConsensusType → Option ℕ → M (Env rpc) ℕ
  unfolding get_slot_duration_from_runtime calculate_next_slot
  next_slot runtime shared parent metadata consensus_type cached = do
    duration ←
        duration_or_detect cached runtime (layer_of shared parent) metadata
          (default_duration consensus_type)
    value ← get rpc (layer_of shared parent) (fields parent).number timestamp_now_key
    timestamp ← lenient_timestamp (stored value)
    lift (calculate_next_slot timestamp duration)

  unfoldable pub create_next_header : Block → List DigestItem → Bytes
  create_next_header parent digest_items =
      encode_header (fields parent).hash (((fields parent).number + 1) % 2 ^ 32) digest_items

  unfoldable pub slot_items :
      Runtime rpc
      → Shared rpc
      → Block
      → rpc.Metadata
      → List DigestItem
      → Option ℕ
      → ConsensusType
      → M (Env rpc) (List DigestItem)
  unfolding next_slot slot_digest is_preruntime
  slot_items runtime shared parent metadata additional cached unknown = pure []
  slot_items runtime shared parent metadata additional cached aura =
      if any (is_preruntime aura) additional
      then pure []
      else next_slot runtime shared parent metadata aura cached >>= λ slot.
          pure (slot_digest aura slot)
  slot_items runtime shared parent metadata additional cached babe =
      if any (is_preruntime babe) additional
      then pure []
      else next_slot runtime shared parent metadata babe cached >>= λ slot.
          pure (slot_digest babe slot)

  unfoldable pub create_next_header_with_slot :
      Runtime rpc → Shared rpc → Block → List DigestItem → Option ℕ → M (Env rpc) Bytes
  unfolding slot_items create_next_header detect_consensus_type
  create_next_header_with_slot runtime shared parent additional cached = do
    metadata ← block_metadata rpc shared parent
    items ←
        slot_items runtime shared parent metadata additional cached (detect_consensus_type metadata)
    pure (create_next_header parent (items ++ additional))

  -- `timestamp.set(timestamp)`, wrapped as an inherent.
  unfoldable pub timestamp_inherent : ℕ → ℕ → ℕ → Bytes
  timestamp_inherent pallet_index call_index timestamp =
      let extrinsic =
        extrinsic_format_version ∷ pallet_index ∷ call_index ∷ encode_compact timestamp in
      encode_compact (length extrinsic % 2 ^ 32) ++ extrinsic

  abbrev pub decoded_or_raise : Option ℕ → M (Env rpc) ℕ
  decoded_or_raise (some timestamp) = pure timestamp
  decoded_or_raise none = raise inherent_provider

  -- The timestamp that is stored must decode.
  abbrev pub strict_timestamp : Option Bytes → M (Env rpc) ℕ
  strict_timestamp none = gets (λ env. system_time env.world)
  strict_timestamp (some bytes) = decoded_or_raise (decode_u64 bytes)

  abbrev pub cached_duration : ℕ → Option ℕ
  cached_duration cached = if nat_beq cached 0 then none else some cached

  provide_with :
      ℕ
      → ℕ
      → Runtime rpc
      → Shared rpc
      → Block
      → rpc.Metadata
      → Option (ℕ × ℕ)
      → M (Env rpc) (List Bytes × ℕ)
  unfolding get_slot_duration_from_runtime saturating_add timestamp_inherent
  provide_with fallback cached runtime shared parent metadata none = raise inherent_provider
  provide_with fallback cached runtime shared parent metadata (some (pallet, set_call)) = do
    duration ←
        duration_or_detect (cached_duration cached) runtime (layer_of shared parent) metadata
          fallback
    value ← get rpc (layer_of shared parent) (fields parent).number timestamp_now_key
    timestamp ← strict_timestamp (stored value)
    pure (timestamp_inherent pallet set_call (saturating_add timestamp duration) ∷ [], duration)

  -- `provide` of `TimestampInherent`, from what is cached of the duration (0 is nothing) to what is
  -- cached then; `fallback` is `slot_duration_ms`. The code caches a detected duration at once; where a
  -- read or a decoding fails after that, the model leaves out what was cached.
  unfoldable pub provide : ℕ → ℕ → Runtime rpc → Shared rpc → Block → M (Env rpc) (List Bytes × ℕ)
  unfolding provide_with
  provide fallback cached runtime shared parent = do
    metadata ← block_metadata rpc shared parent
    provide_with fallback cached runtime shared parent metadata (set_call_index metadata)
