-- ===== src/Server/Items.antt =====
-- The items of storage queries, crates/pop-fork/src/rpc_server/types/storage.rs, and how
-- crates/pop-fork/src/rpc_server/methods/chain_head.rs answers them.
use pop_cli.Prelude.{ℕ, List, [], ◌∷◌, ◌++◌, Option, none, some}
use mathlib.Core.Option
use pop_cli.Bytes.{Bytes}
use pop_cli.Fork.Monad.{returns, raises, stuck, M, ◌>>=◌, pure}
use pop_cli.Server.Hex.{Codec, from_bytes, trim_prefix}
use pop_cli.Server.Backend.{ArchiveBlockchain}

pub data StorageQueryType : Type 0 where
  value : StorageQueryType
  hash : StorageQueryType
  closest_descendant_merkle_value : StorageQueryType
  descendants_values : StorageQueryType
  descendants_hashes : StorageQueryType

pub record StorageQueryItem : Type 0 where
  pub key : Bytes
  pub query_type : StorageQueryType

pub record StorageResultItem : Type 0 where
  pub key : Bytes
  pub value : Option Bytes
  pub hash : Option Bytes

-- A result of the fork that is kept only if it is a value: `Ok(Some(v)) => …, _ => None`.
abbrev pub ok_value : {W A : Type 0} → M W (Option A) → M W (Option A)
ok_value m w = elim (m w) [
  | returns v w' ↦ returns v w'
  | raises e w' ↦ returns none w'
  | stuck ↦ stuck
]

-- `join_all` of a read for each element, in order.
unfoldable pub map_all : {W A B : Type 0} → (A → M W B) → List A → M W (List B)
map_all f [] = pure []
map_all f (x ∷ xs) = do y ← f x; rest ← map_all f xs; pure (y ∷ rest)

abbrev pub concat {ℓ} : {A : Type ℓ} → List (List A) → List A
concat [] = []
concat (xs ∷ xss) = xs ++ concat xss

module _ (hex : Codec) where
  -- The items whose values are fetched after the loop, with their keys decoded. A key that is no
  -- hexadecimal string is passed over.
  unfoldable pub value_hash_items : List StorageQueryItem → List (Bytes × Bytes × StorageQueryType)
  value_hash_items [] = []
  value_hash_items (item ∷ items) =
      let rest = value_hash_items items in
      elim (hex.decode (trim_prefix item.key)) [
        | none ↦ rest
        | some bytes ↦ elim item.query_type [
          | value ↦ (item.key, bytes, value) ∷ rest
          | hash ↦ (item.key, bytes, hash) ∷ rest
          | _ ↦ rest
        ]
      ]

module _ (hex : Codec) (blake2_256 : Bytes → Bytes) (b : ArchiveBlockchain) where
  unfoldable pub value_item : Bytes → Option Bytes → StorageResultItem
  value_item key v = record { key = key; value = Option.map (from_bytes hex) v; hash = none }

  unfoldable pub hash_item : Bytes → Option Bytes → StorageResultItem
  hash_item key v = record {
    key = key;
    value = none;
    hash = Option.map (λ x. from_bytes hex (blake2_256 x)) v;
  }

  -- One item for each key below a prefix; none if the keys cannot be listed.
  unfoldable pub descendants :
      (Bytes → Option Bytes → StorageResultItem)
      → Bytes
      → ℕ
      → Bytes
      → M b.World (List StorageResultItem)
  unfolding map_all
  descendants make block_hash block_number prefix w =
      elim (b.storage_keys_by_prefix prefix block_hash w) [
        | returns keys w' ↦
            map_all
              (λ k.
                ok_value (b.storage_at block_number k) >>= λ v. pure (make (from_bytes hex k) v))
              keys w'
        | raises e w' ↦ returns [] w'
        | stuck ↦ stuck
      ]

  unfoldable pub inline_type :
      Bytes → ℕ → Bytes → Bytes → StorageQueryType → M b.World (List StorageResultItem)
  unfolding descendants value_item hash_item
  inline_type block_hash block_number key bytes value = pure []
  inline_type block_hash block_number key bytes hash = pure []
  inline_type block_hash block_number key bytes closest_descendant_merkle_value =
      pure (record { key = key; value = none; hash = none } ∷ [])
  inline_type block_hash block_number key bytes descendants_values =
      descendants value_item block_hash block_number bytes
  inline_type block_hash block_number key bytes descendants_hashes =
      descendants hash_item block_hash block_number bytes

  -- What the loop over the items adds for an item at once.
  unfoldable pub inline_items : Bytes → ℕ → StorageQueryItem → M b.World (List StorageResultItem)
  unfolding inline_type
  inline_items block_hash block_number item = elim (hex.decode (trim_prefix item.key)) [
    | none ↦ pure []
    | some bytes ↦ inline_type block_hash block_number item.key bytes item.query_type
  ]

  -- `Value` and `Hash`; the others do not come here.
  unfoldable pub fetch_item :
      ℕ → Bytes × Bytes × StorageQueryType → M b.World (List StorageResultItem)
  unfolding value_item hash_item
  fetch_item n (key, bytes, value) =
      ok_value (b.storage_at n bytes) >>= λ v. pure (value_item key v ∷ [])
  fetch_item n (key, bytes, hash) =
      ok_value (b.storage_at n bytes) >>= λ v. pure (hash_item key v ∷ [])
  fetch_item n (key, bytes, _) = pure []

  unfoldable pub storage_items :
      Bytes → ℕ → List StorageQueryItem → M b.World (List StorageResultItem)
  unfolding inline_items value_hash_items fetch_item map_all
  storage_items block_hash block_number items = do
    inline ← map_all (inline_items block_hash block_number) items
    fetched ← map_all (fetch_item block_number) (value_hash_items hex items)
    pure (concat inline ++ concat fetched)
