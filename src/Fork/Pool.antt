-- ===== src/Fork/Pool.antt =====
-- The transaction pool of crates/pop-fork/src/txpool.rs. Its state is the list of the pending
-- extrinsics; `blake2_256` is a function of the library `sp_core`, so an argument.
pub mod Laws
use pop_cli.Prelude.{ℕ, Bool, List, [], ◌∷◌, ◌++◌, length, nat_beq}
use pop_cli.Bytes.{Bytes}

pub record TxPool : Type 0 where
  pub pending : List Bytes

-- `TxPool::new`
abbrev pub new_pool : TxPool
new_pool = record { pending = [] }

module _ (blake2_256 : Bytes → Bytes) where
  unfoldable pub submit : TxPool → Bytes → Bytes × TxPool
  submit pool extrinsic =
      (blake2_256 extrinsic, record { pending = pool.pending ++ extrinsic ∷ [] })

  unfoldable pub submit_and_drain : TxPool → Bytes → Bytes × List Bytes × TxPool
  submit_and_drain pool extrinsic =
      (blake2_256 extrinsic, pool.pending ++ extrinsic ∷ [], record { pending = [] })

unfoldable pub drain : TxPool → List Bytes × TxPool
drain pool = (pool.pending, record { pending = [] })

abbrev pub len : TxPool → ℕ
len pool = length pool.pending

unfoldable pub is_empty : TxPool → Bool
is_empty pool = nat_beq (len pool) 0
