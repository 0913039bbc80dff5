-- ===== src/Server/Archive/StorageDiff.antt =====
-- The replies of `archive_v1_storageDiff`.
use pop_cli.Prelude.{ℕ, ◌≡◌, refl, inl, List, [], ◌∷◌, Option, none, some, if◌then◌else◌, All}
use pop_cli.Bytes.{Bytes}
use pop_cli.Fork.Monad.{Ensures}
use pop_cli.Server.Error.{answer, internal, storage_error}
use pop_cli.Server.Hex.{Codec, parse_block_hash, parse_hex_bytes}
use pop_cli.Server.Backend.{ArchiveBlockchain}
use pop_cli.Server.Handler.{
  Replies, answered, Replies-bind, Replies-caught, Replies-result, Replies-weaken,
}
use pop_cli.Server.Archive.{
  StorageDiffQueryItem, StorageDiffItem, ArchiveStorageDiffResult, diff_items, diff_all,
  storage_diff, diff_against, previous_of, diff_of,
}
use pop_cli.Server.Archive.Diff.{
  view, patch, queried, WantsValue, Changed, IsDiff, nil-IsDiff, cons-IsDiff,
}

-- At block `n` the fork answers reads with `state n`, or fails; either way `Inv` is kept.
pub record Serves (b : ArchiveBlockchain) (Inv : b.World → Type 0)
    (state : ℕ → Bytes → Option Bytes) (n : ℕ) : Type 0 where
  pub storage_at_reply :
      (k : Bytes) (w : b.World)
      → Inv w
      → Ensures (λ v s. Inv s × (v ≡ state n k)) Inv (b.storage_at n k w)

-- The fork knows the number of a block, and the parent of a block.
abbrev pub Resolves : (b : ArchiveBlockchain) → (b.World → Type 0) → Bytes → ℕ → Type 0
Resolves b Inv block_hash n =
    (w : b.World)
    → Inv w
    → Ensures (λ r s. Inv s × (r ≡ some n)) Inv (b.block_number_by_hash block_hash w)

abbrev pub HasParent : (b : ArchiveBlockchain) → (b.World → Type 0) → Bytes → Bytes → Type 0
HasParent b Inv block_hash parent =
    (w : b.World)
    → Inv w
    → Ensures (λ r s. Inv s × (r ≡ some parent)) Inv (b.block_parent_hash block_hash w)

-- The previous block of a request: the one that it names, or else the parent.
pub data Previous (hex : Codec) (b : ArchiveBlockchain) (Inv : b.World → Type 0)
    (block_hash : Bytes) (previous : Bytes) : Option Bytes → Type 0 where
  named :
      (text : Bytes)
      → parse_block_hash hex text ≡ answer previous
      → Previous hex b Inv block_hash previous (some text)
  by_parent : HasParent b Inv block_hash previous → Previous hex b Inv block_hash previous none

module _ (hex : Codec) (blake2_256 : Bytes → Bytes) (state : ℕ → Bytes → Option Bytes) (n p : ℕ)
    (b : ArchiveBlockchain) {Inv : b.World → Type 0} (now : Serves b Inv state n)
    (earlier : Serves b Inv state p) where
  diff_all-IsDiff :
      (items : List StorageDiffQueryItem) (w : b.World)
      → All WantsValue items
      → Inv w
      → Replies Inv (IsDiff hex blake2_256 state n p items) (diff_all hex blake2_256 b n p items w)
  unfolding diff_all
  diff_all-IsDiff [] w wants i = answered i (nil-IsDiff hex blake2_256 state n p)
  diff_all-IsDiff (item ∷ items) w wants i =
      Replies-bind _ (Replies-result (parse_hex_bytes hex item.key) w i) (λ k w₁ i₁ parsed.
        Replies-bind _ (Replies-caught storage_error (now.storage_at_reply k w₁ i₁)) (λ cur w₂ i₂ c.
          Replies-bind _ (Replies-caught storage_error (earlier.storage_at_reply k w₂ i₂))
            (λ prev w₃ i₃ q. Replies-bind _ (diff_all-IsDiff items w₃ wants.1 i₃) (λ rest w₄ i₄ d.
              answered i₄ (
                cons-IsDiff hex blake2_256 state n p item k cur prev items rest parsed c q wants.0
                  d)))))

  -- A reply with a diff that is right for the items.
  abbrev Right : List StorageDiffQueryItem → ArchiveStorageDiffResult → Type 0
  Right items r =
      (diff : List StorageDiffItem) × (r ≡ diff_items diff)
      × IsDiff hex blake2_256 state n p items diff

  diff_against-Right :
      (items : List StorageDiffQueryItem) (previous : Bytes) (w : b.World)
      → All WantsValue items
      → Resolves b Inv previous p
      → Inv w
      → Replies Inv (Right items) (diff_against hex blake2_256 b n items (some previous) w)
  unfolding diff_against
  diff_against-Right items previous w wants there i =
      Replies-bind _ (Replies-caught internal (there w i)) (λ r w₁ i₁ e. rw e (
        Replies-bind _ (diff_all-IsDiff items w₁ wants i₁)
          (λ diff w₂ i₂ d. answered i₂ (diff, refl, d))))

  previous_of-Right :
      (block_hash previous : Bytes) {asked : Option Bytes} (w : b.World)
      → Previous hex b Inv block_hash previous asked
      → Inv w
      → Replies Inv (λ r. r ≡ some previous) (previous_of hex blake2_256 b block_hash asked w)
  unfolding previous_of
  previous_of-Right block_hash previous w (named text parsed) i = rw parsed (answered i refl)
  previous_of-Right block_hash previous w (by_parent is_parent) i =
      Replies-caught internal (is_parent w i)

  diff_of-Right :
      (block_hash previous : Bytes) (items : List StorageDiffQueryItem) (asked : Option Bytes)
      (w : b.World)
      → All WantsValue items
      → Previous hex b Inv block_hash previous asked
      → Resolves b Inv previous p
      → Inv w
      → Replies Inv (Right items) (diff_of hex blake2_256 b block_hash items asked (some n) w)
  unfolding diff_of
  diff_of-Right block_hash previous items asked w wants is_previous there i =
      Replies-bind _ (previous_of-Right block_hash previous w is_previous i)
        (λ r w₁ i₁ e. rw e (diff_against-Right items previous w₁ wants there i₁))

  -- A storage diff between two blocks, of items that ask for values, is a refusal or a list of changes:
  -- applied to what a client sees of the previous block (the one named, or else the parent), it gives
  -- what the client sees of the block at every key that was asked for, and changes no other; and it
  -- has no item whose value is the same in both.
  pub storage_diff-patches :
      (text block_hash previous : Bytes) (items : List StorageDiffQueryItem) (asked : Option Bytes)
      (w : b.World)
      → All WantsValue items
      → parse_block_hash hex text ≡ answer block_hash
      → Resolves b Inv block_hash n
      → Previous hex b Inv block_hash previous asked
      → Resolves b Inv previous p
      → Inv w
      → Replies Inv
          (λ r.
            (diff : List StorageDiffItem) × (r ≡ diff_items diff)
            × ((key : Bytes)
                → patch diff (view hex state p) key
                  ≡ (if queried items key then view hex state n key else view hex state p key))
            × All (Changed hex state n p) diff)
          (storage_diff hex blake2_256 b text items asked w)
  unfolding storage_diff
  storage_diff-patches text block_hash previous items asked w wants parsed here is_previous there
        i =
      rw parsed (
        Replies-bind _ (Replies-caught internal (here w i)) (λ r w₁ i₁ e. rw e (
          Replies-weaken
            (diff_of-Right block_hash previous items asked w₁ wants is_previous there i₁)
            (λ r q. (q.0, q.1, λ key. q.2.patches _ (λ key. inl refl) key, q.2.changed)))))
