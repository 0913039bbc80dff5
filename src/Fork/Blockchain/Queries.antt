-- ===== src/Fork/Blockchain/Queries.antt =====
-- Queries of a block in crates/pop-fork/src/blockchain.rs: `storage_keys_paged`, `call_at_block` and
-- `storage_batch`. The compiled prototype is left out.
use pop_cli.Prelude.{ℕ, Bool, true, List, [], Option, none, some, ltb, if◌then◌else◌, take, filter}
use pop_cli.Bytes.{Bytes, bytes_beq, lt_bytes}
use pop_cli.Fork.Result.{executor_error}
use pop_cli.Fork.Monad.{M, ◌>>=◌, pure, raise}
use pop_cli.Fork.Rpc.{Rpc}
use pop_cli.Fork.Remote.{Env, call, block_number_by_hash}
use pop_cli.Fork.Remote
use pop_cli.Fork.Local.{Shared, Handle, keys_by_prefix}
use pop_cli.Fork.Block.{Block, fork_block, child_block, fields, layer_of, runtime_code}
use pop_cli.Fork.Builder.{RuntimeApi, RuntimeCallResult}
use pop_cli.Fork.Blockchain.{number_by_hash, with_upstream}
use pop_cli.Fork.Blockchain.Build.{Engine, Fork}

-- `start_key.is_none_or(|sk| k.as_slice() > sk)`
abbrev pub is_after : Option Bytes → Bytes → Bool
is_after none key = true
is_after (some start) key = lt_bytes start key

-- The filter by the start key, and at most `count` keys.
unfoldable pub page : ℕ → Option Bytes → List Bytes → List Bytes
page count start keys = take count (filter (is_after start) keys)

-- The `while let` loop: the first block, from the head down, with the hash.
unfoldable pub find_clone : Bytes → Block → Option Block
find_clone hash (fork_block f) = if bytes_beq f.hash hash then some (fork_block f) else none
find_clone hash (child_block f parent) =
    let rest = find_clone hash parent in
    if bytes_beq f.hash hash then some (child_block f parent) else rest

-- `Block::mocked_for_call`, with the hash of zeros as an argument.
abbrev pub mocked_for_call : Bytes → Bytes → ℕ → Handle → Block
mocked_for_call zero_hash hash number handle = fork_block (record {
  number = number;
  hash = hash;
  parent_hash = zero_hash;
  header = [];
  extrinsics = [];
  handle = handle;
})

module _ (rpc : Rpc) where
  -- Fuel is for the pages of the remote layer.
  unfoldable pub storage_keys_paged :
      ℕ → Shared rpc → Block → Bytes → ℕ → Option Bytes → Option Bytes → M (Env rpc) (List Bytes)
  unfolding number_by_hash with_upstream page
  storage_keys_paged fuel shared head prefix count start at_hash =
      let hash : Bytes = elim at_hash [ none ↦ (fields head).hash | some h ↦ h ] in
      let upstream =
        with_upstream rpc (call rpc (rpc.storage_keys_paged prefix count start hash)) in
      number_by_hash rpc head hash >>= λ number. elim number [
        | none ↦ upstream
        | some n ↦
            if ltb (fields head).handle.first_forked_block_number n
            then (keys_by_prefix rpc fuel (layer_of shared head) prefix n >>= λ keys.
                pure (page count start keys))
            else upstream
      ]

  unfoldable pub storage_batch : Bytes → List Bytes → M (Env rpc) (List (Option Bytes))
  unfolding with_upstream
  storage_batch at_hash keys = with_upstream rpc (Remote.get_batch rpc at_hash keys)

  unfoldable pub or_mocked : Bytes → Bytes → Block → Option Block → M (Env rpc) (Option Block)
  or_mocked zero_hash hash head (some block) = pure (some block)
  or_mocked zero_hash hash head none = do
    number ← block_number_by_hash rpc hash
    pure (elim number [
      | none ↦ none
      | some n ↦ some (mocked_for_call zero_hash hash n (fields head).handle)
    ])

  unfoldable pub find_or_create_block_for_call : Bytes → Block → Bytes → M (Env rpc) (Option Block)
  unfolding find_clone or_mocked
  find_or_create_block_for_call zero_hash head hash =
      or_mocked zero_hash hash head (find_clone hash head)

module _ {rpc : Rpc} (engine : Engine rpc) (zero_hash code_key : Bytes) where
  -- An executor is made for the code of the block; the text of its error is left out.
  call_found :
      Shared rpc → RuntimeApi → Bytes → Option Block → M (Env rpc) (Option RuntimeCallResult)
  unfolding runtime_code
  call_found shared api arguments none = pure none
  call_found shared api arguments (some block) = do
    code ← runtime_code rpc code_key shared block
    (elim (engine.with_config code) [
      | none ↦ raise (executor_error [])
      | some executor ↦ do
        result ← (engine.runtime executor).execute api arguments (layer_of shared block)
        pure (some result)
    ])

  -- `none`: there is no such block. At the head the executor of the fork is used.
  unfoldable pub call_at_block :
      Fork engine → Bytes → RuntimeApi → Bytes → M (Env rpc) (Option Bytes)
  unfolding find_or_create_block_for_call call_found
  call_at_block fork hash api arguments =
      let slow =
        find_or_create_block_for_call rpc zero_hash fork.head hash
        >>= call_found fork.shared api arguments in
      let fast =
        (engine.runtime fork.executor).execute api arguments (layer_of fork.shared fork.head)
        >>= λ r. pure (some r) in
      (if bytes_beq hash (fields fork.head).hash then fast else slow) >>= λ result.
      pure (elim result [ none ↦ none | some r ↦ some r.output ])
