-- ===== src/Fork/Local/Deletion.antt =====
-- Deletions by prefix, and the initial values, against the blocks at which they are seen.
use pop_cli.Prelude.{
  ℕ, ◌-◌, ◌≤◌, ◌<◌, ◌≡◌, refl, ◌∙◌, ap, Bool, true, false, not, ◌||◌, List, [], ◌∷◌, ◌++◌, map,
  Option, none, some, arith, if◌then◌else◌, nat_beq, ltb, any, any-append,
}
use pop_cli.Bytes.{Bytes, starts_with, bytes_beq, bytes_beq_iff, bytes_eq}
use pop_cli.Assoc.{lookup, lookup-insert, lookup-filter_key}
use pop_cli.Fork.Monad.{returns, Ensures, weaken-Ensures}
use pop_cli.Fork.Rpc.{Rpc, IsHonest}
use pop_cli.Fork.Cache.Tables.{Db}
use pop_cli.Fork.Cache.History.Invariant.{IsHistory}
use pop_cli.Fork.Remote.{Env}
use pop_cli.Fork.Remote.Sound.{IsCacheOf}
use pop_cli.Fork.Local.{
  LocalSharedValue, Layer, modification_at, has_deleted_prefix, get_local_modification, is_deleted,
  delete_prefix, set_initial, get, get_with, get_batch,
}
use pop_cli.Fork.Local.Refine.{value_of}
use pop_cli.Fork.Local.BatchHistory.{get_batch-historical, historical_batch_view}

any-beq_self : (p : Bytes) (ps : List Bytes) → any (λ d. bytes_beq d p) (ps ++ p ∷ []) ≡ true
any-beq_self p ps = any-append (λ d. bytes_beq d p) ps (p ∷ []) ∙ ground (arith, bytes_beq_iff p p)

-- What `delete_prefix` does to the modification of a key.
lookup-delete_prefix :
    {rpc : Rpc} (layer : Layer rpc) (p k : Bytes)
    → lookup k (delete_prefix layer p).modifications
      ≡ (if starts_with k p then none else lookup k layer.modifications)
unfolding delete_prefix
lookup-delete_prefix layer p k =
    lookup-filter_key (λ j. not (starts_with j p)) k layer.modifications ∙ ground arith

deleted-delete_prefix :
    {rpc : Rpc} (layer : Layer rpc) (p k : Bytes)
    → has_deleted_prefix (delete_prefix layer p).deleted_prefixes k
      ≡ (has_deleted_prefix layer.deleted_prefixes k || starts_with k p)
unfolding delete_prefix
deleted-delete_prefix layer p k =
    any-append (λ prefix. starts_with k prefix) layer.deleted_prefixes (p ∷ []) ∙ ground arith

is_deleted_self :
    {rpc : Rpc} (layer : Layer rpc) (p : Bytes) → is_deleted (delete_prefix layer p) p ≡ true
unfolding is_deleted delete_prefix
is_deleted_self layer p = any-beq_self p layer.deleted_prefixes

same_block :
    {rpc : Rpc} (layer : Layer rpc) (p : Bytes)
    → (delete_prefix layer p).current_block_number ≡ layer.current_block_number
unfolding delete_prefix
same_block layer p = refl

-- After a prefix is deleted it counts as deleted; a key under it is locally deleted at every block
-- whatever, and every other key keeps its local modification at every block.
pub get_local_modification-delete_prefix :
    {rpc : Rpc} (layer : Layer rpc) (p k : Bytes) (b : ℕ)
    → (is_deleted (delete_prefix layer p) p ≡ true)
      × (get_local_modification (delete_prefix layer p) k b
          ≡ (if starts_with k p then some none else get_local_modification layer k b))
unfolding get_local_modification
get_local_modification-delete_prefix layer p k b = (
  is_deleted_self layer p,
  rw (lookup-delete_prefix layer p k, deleted-delete_prefix layer p k, same_block layer p)
      (go (has_deleted_prefix layer.deleted_prefixes k) (starts_with k p)
        (lookup k layer.modifications)),
)
  where
    go :
        (d s : Bool) (o : Option (Option LocalSharedValue))
        → modification_at layer.current_block_number b (d || s) (if s then none else o)
          ≡ (if s then some none else modification_at layer.current_block_number b d o)
    go true true o = refl
    go false true o = refl
    go true false o = refl
    go false false o = refl

deleted_read :
    {rpc : Rpc} (layer : Layer rpc) (p k : Bytes) (b : ℕ)
    → starts_with k p ≡ true
    → get_local_modification (delete_prefix layer p) k b ≡ some none
deleted_read layer p k b h = (get_local_modification-delete_prefix layer p k b).1 ∙ rw h

-- After a prefix is deleted, a read of a key under it returns that there is no value at any block,
-- also at blocks before the deletion whose history has a value, and before the fork point.
pub get-delete_prefix :
    {rpc : Rpc} (layer : Layer rpc) (p k : Bytes) (b : ℕ) (env : Env rpc)
    → starts_with k p ≡ true
    → get rpc (delete_prefix layer p) b k env ≡ returns none env
unfolding get
get-delete_prefix layer p k b env h = rw (deleted_read layer p k b h)

deleted_view :
    {rpc : Rpc} (base : Bytes → Option Bytes) (layer : Layer rpc) (db : Db) (b : ℕ) (k : Bytes)
    → get_local_modification layer k b ≡ some none
    → historical_batch_view base layer db b k ≡ base k
deleted_view base layer db b k e = rw (e, historical_batch_view)

-- For a key under a deleted prefix, at a block between the fork point and the one being built, the
-- single read returns no value, and the batch read the value that the key had at the fork point.
pub get_batch-delete_prefix :
    {rpc : Rpc} {chain : Bytes → Bytes → Option Bytes} {Fails : Type 0}
    (honest : IsHonest rpc chain Fails) (layer : Layer rpc) (p k : Bytes) (b m : ℕ) (env : Env rpc)
    → layer.first_forked_block_number < b
    → b < layer.current_block_number
    → starts_with k p ≡ true
    → IsHistory m env.db
    → IsCacheOf chain env.db
    → (get rpc (delete_prefix layer p) b k env ≡ returns none env)
      × Ensures
          (λ os _. map value_of os ≡ chain layer.first_forked_block_hash k ∷ [])
          (λ _. Fails)
          (get_batch rpc (delete_prefix layer p) b (k ∷ []) env)
unfolding delete_prefix
get_batch-delete_prefix {chain = chain} honest layer p k b m env l g h v c = (
  get-delete_prefix layer p k b env h,
  weaken-Ensures
      (get_batch-historical honest (delete_prefix layer p) b l g m k (k ∷ []) env v c refl).1
      (λ os s q.
        q.0
        ∙ ap (λ x. x ∷ [])
            (deleted_view (chain layer.first_forked_block_hash) _ env.db b k
              (deleted_read layer p k b h)))
      (λ _ q. q.0),
)

lookup-set_initial :
    {rpc : Rpc} (layer : Layer rpc) (k : Bytes) (v : Option Bytes)
    → lookup k (set_initial layer k v).modifications
      ≡ some (
          some
            (record { last_modification_block = layer.first_forked_block_number - 1; value = v }))
unfolding set_initial
lookup-set_initial layer k v =
    lookup-insert k k _ layer.modifications ∙ ground (arith, bytes_beq_iff k k)

-- An initial value is read, with no look at the node or the cache, at the fork point and at every
-- block after it, where the fork point is not the genesis block.
pub get-set_initial :
    {rpc : Rpc} (layer : Layer rpc) (k : Bytes) (v : Option Bytes) (b : ℕ) (env : Env rpc)
    → 0 < layer.first_forked_block_number
    → layer.first_forked_block_number ≤ b
    → get rpc (set_initial layer k v) b k env
      ≡ returns
          (some
            (record { last_modification_block = layer.first_forked_block_number - 1; value = v }))
          env
unfolding get get_local_modification
get-set_initial {rpc} layer k v b env h l =
    rw (lookup-set_initial layer k v, visible)
      (or_true (nat_beq (set_initial layer k v).current_block_number b))
  where
    visible : ltb (layer.first_forked_block_number - 1) b ≡ true
    visible = ground arith

    new : LocalSharedValue
    new = record { last_modification_block = layer.first_forked_block_number - 1; value = v }

    or_true :
        (x : Bool)
        → get_with rpc (if x || true then some (some new) else none) (set_initial layer k v) b k env
          ≡ returns (some new) env
    or_true true = refl
    or_true false = refl
