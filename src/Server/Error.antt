-- ===== src/Server/Error.antt =====
-- The errors of crates/pop-fork/src/rpc_server/error.rs. The texts that only describe an error are
-- left out; an error of the fork stands for its text.
use pop_cli.Prelude.{ℕ}
use pop_cli.Bytes.{Bytes}
use pop_cli.Fork.Result.{Error}

pub data RpcServerError : Type 0 where
  block_not_found : Bytes → RpcServerError
  invalid_param : RpcServerError
  -- `Internal("Invalid block hash length.")`
  invalid_hash_length : RpcServerError
  internal : Error → RpcServerError
  storage_error : Error → RpcServerError
  invalid_subscription : Bytes → RpcServerError
  too_many_subscriptions : ℕ → RpcServerError
  invalid_transaction : Bytes → RpcServerError
  unknown_transaction : Bytes → RpcServerError

-- `RpcResult`
pub data RpcResult (A : Type 0) : Type 0 where
  answer : A → RpcResult A
  refuse : RpcServerError → RpcResult A

abbrev pub and_then : {A B : Type 0} → RpcResult A → (A → RpcResult B) → RpcResult B
and_then (answer a) f = f a
and_then (refuse e) f = refuse e
