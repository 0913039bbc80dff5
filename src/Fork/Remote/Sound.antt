-- ===== src/Fork/Remote/Sound.antt =====
-- The remote layer over a node that is honest: what every operation on it keeps.
pub mod Pages
pub mod Reads
pub mod Batch
pub mod Keeping
use pop_cli.Prelude.{
  ℕ, ◌≡◌, refl, ◌∙◌, sym, ap, Bool, true, false, ◌&&◌, List, [], ◌∷◌, map, Option, none, some,
  arith, if◌then◌else◌, has_duplicates, Bool-cases, inl, inr, or_else,
}
use pop_cli.Bytes.{Bytes, bytes_beq, bytes_beq_iff, bytes_eq}
use pop_cli.Assoc.{lookup}
use pop_cli.Fork.Result.{Result, ok, err}
use pop_cli.Fork.Monad.{
  Outcome, returns, raises, stuck, M, ◌>>=◌, ◌>>◌, Ensures, returned, raised, after-Ensures,
  recover-Ensures,
}
use pop_cli.Fork.Rpc.{Rpc, Reply, IsHonest}
use pop_cli.Fork.Cache.Tables.{Db, LocalKeyRow, LocalValueRow}
use pop_cli.Fork.Cache.Storage.{get_storage, set_storage, set_storage_batch, entry_keys, new_row}
use pop_cli.Fork.Cache.Storage.Laws.{IsKeyed, get_storage-set_storage, upsert-IsKeyed}
use pop_cli.Fork.Cache.Storage.Batch.{get_storage-set_storage_batch}
use pop_cli.Fork.Remote.{Env, call, call_with_reconnect, zip_entries, store_batch}

-- What is cached of a block is the state of the chain at it.
pub record IsCacheOf (chain : Bytes → Bytes → Option Bytes) (db : Db) : Type 0 where
  pub keyed : IsKeyed db.storage
  pub agrees : (h k : Bytes) (v : Option Bytes) → get_storage db h k ≡ some v → v ≡ chain h k

-- The history of local values is left alone.
pub record SameHistory (db db' : Db) : Type 0 where
  pub same_keys : db'.local_keys ≡ db.local_keys
  pub same_values : db'.local_values ≡ db.local_values
  pub same_next : db'.next_key_id ≡ db.next_key_id

-- Both, from the database `db₀` on.
abbrev pub Kept : (Bytes → Bytes → Option Bytes) → Db → Db → Type 0
Kept chain db₀ db = IsCacheOf chain db × SameHistory db₀ db

pub set_storage-IsCacheOf :
    (chain : Bytes → Bytes → Option Bytes) (db : Db) (h k : Bytes) (v : Option Bytes)
    → IsCacheOf chain db
    → v ≡ chain h k
    → IsCacheOf chain (set_storage db h k v)
unfolding set_storage
set_storage-IsCacheOf chain db h k v c e = record {
  keyed = upsert-IsKeyed (new_row h k v) db.storage c.keyed;
  agrees = λ h' k' v' g. ground (
    arith,
    get_storage-set_storage db h k h' k' v,
    c.agrees h' k' v',
    bytes_beq_iff h h',
    bytes_beq_iff k k',
    e,
  );
}

pub lookup-zip_entries :
    (f : Bytes → Option Bytes) (k : Bytes) (v : Option Bytes) (ks : List Bytes)
    → lookup k (zip_entries ks (map f ks)) ≡ some v
    → v ≡ f k
unfolding lookup
lookup-zip_entries f k v [] h = ground arith
lookup-zip_entries f k v (j ∷ ks) h = ground (arith, lookup-zip_entries f k v ks, bytes_beq_iff j k)

module _ {rpc : Rpc} {chain : Bytes → Bytes → Option Bytes} {Fails : Type 0}
    (honest : IsHonest rpc chain Fails) (db₀ : Db) where
  pub call_lem :
      {A : Type 0} {Q : A → Type 0} (reply : M rpc.World A) (env : Env rpc)
      → ((w : rpc.World) → Reply Q Fails (reply w))
      → Kept chain db₀ env.db
      → Ensures
          (λ v s. Q v × Kept chain db₀ s.db)
          (λ s. Fails × Kept chain db₀ s.db)
          (call rpc reply env)
  call_lem {A} {Q} reply env h kept = go (reply env.world) (h env.world)
    where
      go :
          (o : Outcome rpc.World A)
          → Reply Q Fails o
          → Ensures
              (λ v s. Q v × Kept chain db₀ s.db)
              (λ s. Fails × Kept chain db₀ s.db)
              (call rpc (λ _. o) env)
      go (returns a w) q = returned (q, kept)
      go (raises e w) f = raised (f, kept)
      go stuck f = absurd f

  -- An honest reply stays honest through a reconnection.
  pub call_with_reconnect_lem :
      {A : Type 0} {Q : A → Type 0} (reply : M rpc.World A) (env : Env rpc)
      → ((w : rpc.World) → Reply Q Fails (reply w))
      → Kept chain db₀ env.db
      → Ensures
          (λ v s. Q v × Kept chain db₀ s.db)
          (λ s. Fails × Kept chain db₀ s.db)
          (call_with_reconnect rpc reply env)
  call_with_reconnect_lem reply env h kept = recover-Ensures _ (call_lem reply env h kept) λ s f.
      after-Ensures _ (call_lem rpc.reconnect s honest.reconnect_reply f.1)
        (λ _ s' k. call_lem reply s' h k.1)
