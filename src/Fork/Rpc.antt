-- ===== src/Fork/Rpc.antt =====
-- The node that is forked, behind crates/pop-fork/src/rpc.rs: a service, so a parameter.
use pop_cli.Prelude.{ℕ, ◌≡◌, List, map, Option}
use pop_cli.Bytes.{Bytes}
use pop_cli.Fork.Monad.{Outcome, M, returns, raises, stuck}

-- A block as the node returns it; `header` is its encoding.
pub record RpcBlock : Type 0 where
  pub number : ℕ
  pub parent_hash : Bytes
  pub header : Bytes
  pub extrinsics : List Bytes

-- A header, with its encoding.
pub record RpcHeader : Type 0 where
  pub number : ℕ
  pub parent_hash : Bytes
  pub encoded : Bytes

-- The calls of `ForkRpcClient`. `World` is all that decides a reply: the node, the connection, time.
pub record Rpc : Type 1 where
  pub World : Type 0
  -- `subxt::Metadata`, the decoded metadata of a runtime
  pub Metadata : Type 0
  pub storage : Bytes → Bytes → M World (Option Bytes)
  pub storage_batch : List Bytes → Bytes → M World (List (Option Bytes))
  pub storage_keys_paged : Bytes → ℕ → Option Bytes → Bytes → M World (List Bytes)
  pub reconnect : M World (Unit {0})
  pub block_by_number : ℕ → M World (Option (Bytes × RpcBlock))
  pub block_by_hash : Bytes → M World (Option RpcBlock)
  pub header : Bytes → M World RpcHeader
  pub block_hash_at : ℕ → M World (Option Bytes)
  pub metadata : Bytes → M World Metadata

-- A reply that is a value meets `Q`; one that is an error is a case of `Fails`.
abbrev pub Reply : {W A : Type 0} → (A → Type 0) → Type 0 → Outcome W A → Type 0
Reply Q Fails (returns a w) = Q a
Reply Q Fails (raises e w) = Fails
Reply Q Fails stuck = ⊥

-- The node answers with the state `chain` of each block, or with an error. `Fails` is what an error
-- lets one conclude: with `⊥` the node never fails, with `Unit` it may fail at any time.
pub record IsHonest (rpc : Rpc) (chain : Bytes → Bytes → Option Bytes) (Fails : Type 0)
    : Type 0 where
  pub storage_reply :
      (key hash : Bytes) (w : rpc.World)
      → Reply (λ v. v ≡ chain hash key) Fails (rpc.storage key hash w)
  pub storage_batch_reply :
      (keys : List Bytes) (hash : Bytes) (w : rpc.World)
      → Reply (λ vs. vs ≡ map (chain hash) keys) Fails (rpc.storage_batch keys hash w)
  pub storage_keys_paged_reply :
      (prefix : Bytes) (n : ℕ) (start : Option Bytes) (hash : Bytes) (w : rpc.World)
      → Reply (λ _. Unit {0}) Fails (rpc.storage_keys_paged prefix n start hash w)
  pub reconnect_reply : (w : rpc.World) → Reply (λ _. Unit {0}) Fails (rpc.reconnect w)
