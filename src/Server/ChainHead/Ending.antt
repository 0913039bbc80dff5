-- ===== src/Server/ChainHead/Ending.antt =====
-- The tasks of `chainHead` get through, when the calls of the fork end.
use pop_cli.Prelude.{
  ℕ, ◌≡◌, refl, List, [], ◌∷◌, ◌++◌, Bool, Option, none, some, true, false, Bool-cases, inl, inr,
  Option-cases, if◌then◌else◌,
}
use pop_cli.Bytes.{Bytes, starts_with}
use pop_cli.Fork.Monad.{Outcome, returns, raises, stuck, M, Ensures, returned, raised, ◌>>=◌, pure}
use pop_cli.Server.Hex.{trim_prefix, from_bytes}
use pop_cli.Server.Items.{
  StorageQueryType, StorageQueryItem, StorageResultItem, value, hash,
  closest_descendant_merkle_value, descendants_values, descendants_hashes, ok_value, map_all,
  descendants, inline_type, concat, inline_items, fetch_item, storage_items, value_item, hash_item,
  value_hash_items,
}
use pop_cli.Server.ChainHead.State.{Operation, body_of, call_of, storage_of}
use pop_cli.Server.ChainHead.Tasks.{
  TaskBackend, proxied, run_call, perform, metadata_prefix, at_or_before_fork, body_event,
  call_event, storage_events,
}

-- A call ends, with a value or an error.
abbrev pub Ends : {W A : Type 0} → M W A → Type 0
Ends {W} m = (w : W) → Ensures (λ _ _. Unit {0}) (λ _. Unit {0}) (m w)

-- Code ends, with a value.
abbrev pub Returning : {W A : Type 0} → M W A → Type 0
Returning {W} {A} m = (w : W) → (a : A) × (w' : W) × (m w ≡ returns a w')

-- The calls that the tasks make end.
pub record EndsCalls (b : TaskBackend) : Type 0 where
  pub body_ends : (block_hash : Bytes) → Ends (b.blockchain.block_body block_hash)
  pub call_ends :
      (block_hash function parameters : Bytes)
      → Ends (b.blockchain.call_at_block block_hash function parameters)
  pub number_ends : (block_hash : Bytes) → Ends (b.blockchain.block_number_by_hash block_hash)
  pub storage_ends : (n : ℕ) (key : Bytes) → Ends (b.blockchain.storage_at n key)
  pub keys_ends :
      (prefix block_hash : Bytes) → Ends (b.blockchain.storage_keys_by_prefix prefix block_hash)
  pub proxy_ends :
      (function parameters block_hash : Bytes)
      → Ends (b.proxy_state_call function parameters block_hash)

pub >>=-Returning :
    {W A B : Type 0} (m : M W A) (f : A → M W B)
    → Returning m
    → ((a : A) → Returning (f a))
    → Returning (m >>= f)
>>=-Returning m f r k w = let (a, w', e) = r w in rw e (k a w')

ok_value-Returning : {W A : Type 0} (m : M W (Option A)) → Ends m → Returning (ok_value m)
ok_value-Returning {W} {A} m ends w = go (m w) (ends w)
  where
    go :
        (o : Outcome W (Option A))
        → Ensures (λ _ _. Unit {0}) (λ _. Unit {0}) o
        → (a : Option A) × (w' : W) × (ok_value (λ _. o) w ≡ returns a w')
    go _ (returned {a} {s} q) = (a, s, refl)
    go _ (raised {s} q) = (none, s, refl)

map_all-Returning :
    {W A B : Type 0} (f : A → M W B)
    → ((a : A) → Returning (f a))
    → (xs : List A) → Returning (map_all f xs)
unfolding map_all
map_all-Returning f r [] w = ([], w, refl)
map_all-Returning f r (x ∷ xs) w =
    let (y, w₁, e) = r x w in
    let (ys, w₂, e') = map_all-Returning f r xs w₁ in (y ∷ ys, w₂, rw e (rw e'))

module _ (b : TaskBackend) (ends : EndsCalls b) where
  open b use {blockchain, hex, blake2_256, proxy_state_call}

  read_ends :
      {A : Type 0} (n : ℕ) (key : Bytes) (f : Option Bytes → A)
      → Returning (ok_value (blockchain.storage_at n key) >>= λ v. pure (f v))
  read_ends n key f =
      >>=-Returning _ _ (ok_value-Returning _ (ends.storage_ends n key)) (λ v w. (f v, w, refl))

  descendants-Returning :
      (make : Bytes → Option Bytes → StorageResultItem) (block_hash : Bytes) (n : ℕ)
      (prefix : Bytes)
      → Returning (descendants hex blake2_256 blockchain make block_hash n prefix)
  unfolding descendants
  descendants-Returning make block_hash n prefix w =
      go (blockchain.storage_keys_by_prefix prefix block_hash w)
        (ends.keys_ends prefix block_hash w)
    where
      go :
          (o : Outcome blockchain.World (List Bytes))
          → Ensures (λ _ _. Unit {0}) (λ _. Unit {0}) o
          → (a : List StorageResultItem) × (w' : blockchain.World) × ((elim o [
            | returns keys w₁ ↦
                map_all
                  (λ k.
                    ok_value (blockchain.storage_at n k) >>= λ v. pure (make (from_bytes hex k) v))
                  keys
                  w₁
            | raises e w₁ ↦ returns [] w₁
            | stuck ↦ stuck
          ])
              ≡ returns a w')
      go _ (returned {a} {s} q) =
          map_all-Returning _ (λ k. read_ends n k (make (from_bytes hex k))) a s
      go _ (raised {s} q) = ([], s, refl)

  inline_type-Returning :
      (block_hash : Bytes) (n : ℕ) (key bytes : Bytes) (t : StorageQueryType)
      → Returning (inline_type hex blake2_256 blockchain block_hash n key bytes t)
  unfolding inline_type
  inline_type-Returning block_hash n key bytes value w = ([], w, refl)
  inline_type-Returning block_hash n key bytes hash w = ([], w, refl)
  inline_type-Returning block_hash n key bytes closest_descendant_merkle_value w = (_, w, refl)
  inline_type-Returning block_hash n key bytes descendants_values w =
      descendants-Returning (value_item hex blake2_256 blockchain) block_hash n bytes w
  inline_type-Returning block_hash n key bytes descendants_hashes w =
      descendants-Returning (hash_item hex blake2_256 blockchain) block_hash n bytes w

  inline_items-Returning :
      (block_hash : Bytes) (n : ℕ) (item : StorageQueryItem)
      → Returning (inline_items hex blake2_256 blockchain block_hash n item)
  unfolding inline_items
  inline_items-Returning block_hash n item w =
      elim (Option-cases (hex.decode (trim_prefix item.key))) [
        | inl bad ↦ rw (bad, inline_items) ([], w, refl)
        | inr (bytes, good) ↦
            rw (good, inline_items)
              (inline_type-Returning block_hash n item.key bytes item.query_type w)
      ]

  fetch_item-Returning :
      (n : ℕ) (item : Bytes × Bytes × StorageQueryType)
      → Returning (fetch_item hex blake2_256 blockchain n item)
  unfolding fetch_item
  fetch_item-Returning n (key, bytes, value) w = read_ends n bytes _ w
  fetch_item-Returning n (key, bytes, hash) w = read_ends n bytes _ w
  fetch_item-Returning n (key, bytes, _) w = ([], w, refl)

  storage_items-Returning :
      (block_hash : Bytes) (n : ℕ) (items : List StorageQueryItem)
      → Returning (storage_items hex blake2_256 blockchain block_hash n items)
  unfolding storage_items
  storage_items-Returning block_hash n items =
      >>=-Returning _ _ (map_all-Returning _ (inline_items-Returning block_hash n) items) (λ inline.
        >>=-Returning _ _
          (map_all-Returning _ (fetch_item-Returning n) (value_hash_items hex items))
          (λ fetched w. (concat inline ++ concat fetched, w, refl)))

  proxied-Ends :
      (block_hash function parameters : Bytes) → Ends (proxied b block_hash function parameters)
  unfolding proxied
  proxied-Ends block_hash function parameters w =
      go (proxy_state_call function parameters block_hash w)
        (ends.proxy_ends function parameters block_hash w)
    where
      go :
          (o : Outcome blockchain.World Bytes)
          → Ensures (λ _ _. Unit {0}) (λ _. Unit {0}) o
          → Ensures
              (λ _ _. Unit {0})
              (λ _. Unit {0})
              (elim o [
                | returns r w' ↦ returns (some r) w'
                | raises e w' ↦ blockchain.call_at_block block_hash function parameters w'
                | stuck ↦ stuck
              ])
      go _ (returned q) = returned tt
      go _ (raised {s} q) = ends.call_ends block_hash function parameters s

  run_call-Ends :
      (block_hash function parameters : Bytes) → Ends (run_call b block_hash function parameters)
  unfolding run_call
  run_call-Ends block_hash function parameters w =
      elim (Bool-cases (starts_with function metadata_prefix)) [
        | inr other ↦ rw other (ends.call_ends block_hash function parameters w)
        | inl metadata ↦ rw metadata (
            let (number, w₁, e) =
              ok_value-Returning (blockchain.block_number_by_hash block_hash)
                (ends.number_ends block_hash) w in
            rw e (go (at_or_before_fork b number) w₁))
      ]
    where
      go :
          (early : Bool) (w₁ : blockchain.World)
          → Ensures
              (λ _ _. Unit {0})
              (λ _. Unit {0})
              ((if early
                  then proxied b block_hash function parameters
                  else blockchain.call_at_block block_hash function parameters)
                w₁)
      go true w₁ = proxied-Ends block_hash function parameters w₁
      go false w₁ = ends.call_ends block_hash function parameters w₁

  pub perform-Returning : (id : ℕ) (operation : Operation) → Returning (perform b id operation)
  unfolding perform
  perform-Returning id (body_of block_hash) =
      >>=-Returning _ _ (ok_value-Returning _ (ends.body_ends block_hash))
        (λ body w. (body_event b id body, w, refl))
  perform-Returning id (call_of block_hash function parameters) =
      >>=-Returning _ _ (ok_value-Returning _ (run_call-Ends block_hash function parameters))
        (λ output w. (call_event b id output, w, refl))
  perform-Returning id (storage_of block_hash n items) =
      >>=-Returning _ _ (storage_items-Returning block_hash n items)
        (λ results w. (storage_events b id results, w, refl))
