-- ===== src/Fork/Local/State.antt =====
-- The data of `LocalStorageLayer` of crates/pop-fork/src/local.rs. What its clones share through
-- `Arc<RwLock<_>>` is `Shared`; what each clone has for itself is `Handle`. A lock is never
-- poisoned, since no code panics while it holds one.
use pop_cli.Prelude.{
  ℕ, ◌+◌, Bool, false, ◌||◌, List, [], ◌∷◌, Option, none, some, any, ltb, nat_beq, if◌then◌else◌,
}
use pop_cli.Bytes.{Bytes, starts_with, bytes_beq, bytes_eq}
use pop_cli.Assoc.{lookup}
use pop_cli.Fork.Rpc.{Rpc}

pub record LocalSharedValue : Type 0 where
  pub last_modification_block : ℕ
  pub value : Option Bytes

abbrev pub Modifications : Type 0
Modifications = List (Bytes × Option LocalSharedValue)

pub record Handle : Type 0 where
  pub first_forked_block_hash : Bytes
  pub first_forked_block_number : ℕ
  pub current_block_number : ℕ

pub record Shared (rpc : Rpc) : Type 0 where
  pub modifications : Modifications
  pub deleted_prefixes : List Bytes
  pub metadata_versions : List (ℕ × rpc.Metadata)

pub record Layer (rpc : Rpc) : Type 0 where
  pub handle : Handle
  pub open handle use *
  pub shared : Shared rpc
  pub open shared use *

-- `LocalStorageLayer::new`, for a fork point below the last number of `u32`, where the code adds 1.
unfoldable pub new : (rpc : Rpc) → ℕ → Bytes → rpc.Metadata → Layer rpc
new rpc first_forked_block_number first_forked_block_hash metadata = record {
  handle = record {
    first_forked_block_hash = first_forked_block_hash;
    first_forked_block_number = first_forked_block_number;
    current_block_number = first_forked_block_number + 1;
  };
  shared = record {
    modifications = [];
    deleted_prefixes = [];
    metadata_versions = (first_forked_block_number, metadata) ∷ [];
  };
}

-- `iter().any(|prefix| key.starts_with(prefix))`
abbrev pub has_deleted_prefix : List Bytes → Bytes → Bool
has_deleted_prefix deleted_prefixes key = any (λ prefix. starts_with key prefix) deleted_prefixes

-- The `match` of `get_local_modification`, on the entry of the key.
abbrev pub modification_at :
    ℕ → ℕ → Bool → Option (Option LocalSharedValue) → Option (Option LocalSharedValue)
modification_at latest n is_deleted (some (some v)) =
    if nat_beq latest n || ltb v.last_modification_block n then some (some v) else none
modification_at latest n is_deleted (some none) = none
modification_at latest n is_deleted none = if is_deleted then some none else none

module _ {rpc : Rpc} where
  unfoldable pub get_local_modification : Layer rpc → Bytes → ℕ → Option (Option LocalSharedValue)
  get_local_modification layer key block_number =
      modification_at layer.current_block_number block_number
        (has_deleted_prefix layer.deleted_prefixes key) (lookup key layer.modifications)

  -- The value of `:code`, a key of the library `sp_core`, is an argument.
  unfoldable pub has_code_changed_at : Bytes → Layer rpc → ℕ → Bool
  has_code_changed_at code_key layer block_number = elim (lookup code_key layer.modifications) [
    | some entry ↦ elim entry [
      | some v ↦ nat_beq v.last_modification_block block_number
      | none ↦ false
    ]
    | none ↦ false
  ]

  unfoldable pub is_deleted : Layer rpc → Bytes → Bool
  is_deleted layer prefix = any (λ deleted. bytes_beq deleted prefix) layer.deleted_prefixes

  -- In the order of the map, which for a `HashMap` is any.
  unfoldable pub diff : Layer rpc → List (Bytes × Option LocalSharedValue)
  diff layer = layer.modifications
