-- ===== src/Fork/Result.antt =====
-- The errors of crates/pop-fork/src/error (`CacheError`, `RemoteStorageError`,
-- `LocalStorageError`), as one type, and Rust's `Result` and `?` over it.
use pop_cli.Prelude.{◌≡◌, refl}
use pop_cli.Bytes.{Bytes}

pub data Error : Type 0 where
  -- `CacheError::DuplicatedKeys`
  duplicated_keys : Error
  -- `CacheError::DataCorruption`
  data_corruption : Error
  -- `CacheError::Database(NotFound)`
  not_found : Error
  -- `RpcClientError`, by its text
  rpc_error : Bytes → Error
  -- `RpcClientError::InvalidResponse`
  invalid_response : Error
  -- `LocalStorageError::Arithmetic`
  arithmetic : Error
  -- `LocalStorageError::MetadataNotFound`
  metadata_not_found : Error
  -- `BlockError`
  block_hash_not_found : Error
  block_number_not_found : Error
  runtime_code_not_found : Error
  concurrent_block_build : Error
  -- `BlockBuilderError`, and `ExecutorError` by its text
  not_initialized : Error
  already_initialized : Error
  inherents_not_applied : Error
  inherents_already_applied : Error
  inherent_provider : Error
  executor_error : Bytes → Error
  -- the panic of `assert!(slot_duration_ms > 0)`
  slot_duration_zero : Error
  -- a panic of `list[i]`
  index_out_of_bounds : Error

pub data Result {ℓ} (T : Type ℓ) : Type ℓ where
  ok : T → Result T
  err : Error → Result T

infixl 5 ◌>>=◌
abbrev pub ◌>>=◌ {ℓ κ} : {T : Type ℓ} {U : Type κ} → Result T → (T → Result U) → Result U
ok value >>= next = next value
err e >>= next = err e

-- A chain of two that succeeds had a first step that succeeded.
pub >>=-ok {ℓ κ} :
    {T : Type ℓ} {U : Type κ} (first : Result T) (next : T → Result U) {u : U}
    → (first >>= next) ≡ ok u
    → (t : T) × (first ≡ ok t) × (next t ≡ ok u)
>>=-ok (ok t) next h = (t, refl, h)
>>=-ok (err e) next h = cc
