-- ===== src/Fork/Pool/Laws.antt =====
-- The pool is a queue: what is submitted is drained once, in order.
use pop_cli.Prelude.{
  ◌+◌, ◌≡◌, refl, ◌∙◌, sym, ap, List, [], ◌∷◌, ◌++◌, map, length, arith, append_assoc, append_nil,
}
use pop_cli.Bytes.{Bytes}
use pop_cli.Fork.Pool.{TxPool, new_pool, submit, submit_and_drain, drain, len}

module _ (blake2_256 : Bytes → Bytes) where
  -- Submissions one after the other, with the hashes they return.
  unfoldable pub submit_all : TxPool → List Bytes → List Bytes × TxPool
  submit_all pool [] = ([], pool)
  submit_all pool (extrinsic ∷ extrinsics) =
      let (hash, next) = submit blake2_256 pool extrinsic in
      let (hashes, last) = submit_all next extrinsics in (hash ∷ hashes, last)

  length-append : (xs ys : List Bytes) → length (xs ++ ys) ≡ length xs + length ys
  length-append [] ys = omega arith
  length-append (x ∷ xs) ys = ground (arith, length-append xs ys)

  submit_all-pending :
      (pool : TxPool) (extrinsics : List Bytes)
      → (submit_all pool extrinsics).1.pending ≡ pool.pending ++ extrinsics
  unfolding submit_all submit
  submit_all-pending pool [] = sym (append_nil pool.pending)
  submit_all-pending pool (x ∷ xs) =
      submit_all-pending (record { pending = pool.pending ++ x ∷ [] }) xs
      ∙ append_assoc pool.pending (x ∷ []) xs

  submit_all-hashes :
      (pool : TxPool) (extrinsics : List Bytes)
      → (submit_all pool extrinsics).0 ≡ map blake2_256 extrinsics
  unfolding submit_all submit
  submit_all-hashes pool [] = refl
  submit_all-hashes pool (x ∷ xs) =
      ap (◌∷◌ (blake2_256 x)) (submit_all-hashes (record { pending = pool.pending ++ x ∷ [] }) xs)

  -- Submissions return the hashes of the extrinsics and add to the length; a drain after them
  -- returns what was pending and then the submitted, in order, and leaves the pool empty; and
  -- `submit_and_drain` returns what a submission and a drain return.
  pub drain-submit_all :
      (pool : TxPool) (extrinsics : List Bytes) (extrinsic : Bytes)
      → ((submit_all pool extrinsics).0 ≡ map blake2_256 extrinsics)
        × (len (submit_all pool extrinsics).1 ≡ len pool + length extrinsics)
        × (drain (submit_all pool extrinsics).1 ≡ (pool.pending ++ extrinsics, new_pool))
        × (submit_and_drain blake2_256 pool extrinsic ≡ (
            let (hash, next) = submit blake2_256 pool extrinsic in
            let (drained, last) = drain next in (hash, drained, last)))
  unfolding drain submit_and_drain submit
  drain-submit_all pool xs x = (
    submit_all-hashes pool xs,
    ap length (submit_all-pending pool xs) ∙ length-append pool.pending xs,
    ap (λ p. (p, new_pool)) (submit_all-pending pool xs),
    refl,
  )
