-- ===== src/Fork/Header/Slots.antt =====
-- Slots and digests: crates/pop-fork/src/inherent/slot.rs, and the libraries of the header.
use pop_cli.Prelude.{
  ℕ, ◌+◌, ◌-◌, ◌/◌, ◌^◌, Bool, false, List, [], ◌∷◌, Option, leb, nat_beq, if◌then◌else◌,
}
use pop_cli.Bytes.{Bytes, bytes_beq}
use pop_cli.Fork.Result.{Result, ok, err, slot_duration_zero}
use pop_cli.Fork.Rpc.{Rpc}

pub data ConsensusType : Type 0 where
  aura : ConsensusType
  babe : ConsensusType
  unknown : ConsensusType

pub data DigestItem : Type 0 where
  pre_runtime : Bytes → Bytes → DigestItem
  consensus : Bytes → Bytes → DigestItem
  seal : Bytes → Bytes → DigestItem
  other : Bytes → DigestItem

-- What the code takes from the libraries `subxt` (the metadata), `sp_core` (the key) and `scale` (the
-- encodings, a failed decoding is `none`), and the time of the system.
pub record Libraries (rpc : Rpc) : Type 0 where
  pub has_pallet : rpc.Metadata → Bytes → Bool
  pub expected_block_time : rpc.Metadata → Option ℕ
  pub set_call_index : rpc.Metadata → Option (ℕ × ℕ)
  pub timestamp_now_key : Bytes
  pub encode_u32 : ℕ → Bytes
  pub encode_u64 : ℕ → Bytes
  pub decode_u64 : Bytes → Option ℕ
  pub encode_compact : ℕ → Bytes
  pub encode_header : Bytes → ℕ → List DigestItem → Bytes
  pub system_time : rpc.World → ℕ

abbrev pub aura_engine : Bytes
aura_engine = b'a' ∷ b'u' ∷ b'r' ∷ b'a' ∷ []

abbrev pub babe_engine : Bytes
babe_engine = b'B' ∷ b'A' ∷ b'B' ∷ b'E' ∷ []

abbrev pub aura_pallet : Bytes
aura_pallet = b'A' ∷ b'u' ∷ b'r' ∷ b'a' ∷ []

abbrev pub babe_pallet : Bytes
babe_pallet = b'B' ∷ b'a' ∷ b'b' ∷ b'e' ∷ []

abbrev pub relay_chain_fallback_ms : ℕ
relay_chain_fallback_ms = 6000

abbrev pub parachain_fallback_ms : ℕ
parachain_fallback_ms = 12000

abbrev pub extrinsic_format_version : ℕ
extrinsic_format_version = 5

-- `saturating_add` of `u64`
unfoldable pub saturating_add : ℕ → ℕ → ℕ
saturating_add a b = if leb (2 ^ 64) (a + b) then 2 ^ 64 - 1 else a + b

-- The assertion panics where the duration is zero.
unfoldable pub calculate_next_slot : ℕ → ℕ → Result ℕ
unfolding saturating_add
calculate_next_slot current_timestamp slot_duration =
    if nat_beq slot_duration 0
    then err slot_duration_zero
    else ok (saturating_add current_timestamp slot_duration / slot_duration)

-- A digest that the caller gave for the consensus of the chain.
unfoldable pub is_preruntime : ConsensusType → DigestItem → Bool
is_preruntime aura (pre_runtime engine _) = bytes_beq engine aura_engine
is_preruntime babe (pre_runtime engine _) = bytes_beq engine babe_engine
is_preruntime unknown (pre_runtime engine _) = false
is_preruntime c (consensus _ _) = false
is_preruntime c (seal _ _) = false
is_preruntime c (other _) = false

abbrev pub default_duration : ConsensusType → ℕ
default_duration aura = parachain_fallback_ms
default_duration babe = relay_chain_fallback_ms
default_duration unknown = relay_chain_fallback_ms
