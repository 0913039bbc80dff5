-- ===== src/Server/Archive/Diff.antt =====
-- What a diff of `archive_v1_storageDiff` is for: it turns what a client knew of the previous block
-- into the state of the block.
use mathlib.Core.Option
use pop_cli.Prelude.{
  ℕ, ◌≡◌, ◌≢◌, refl, sym, ap, ◌∙◌, ◌⊎◌, inl, inr, Bool, true, false, List, [], ◌∷◌, ◌++◌, Option,
  none, some, arith, any, if◌then◌else◌, All, All-append, Bool-cases,
}
use pop_cli.Bytes.{Bytes, bytes_beq, bytes_beq_iff}
use pop_cli.Server.Error.{RpcResult, answer, refuse}
use pop_cli.Server.Hex.{Codec, from_bytes, parse_hex_bytes}
use pop_cli.Server.Items.{hash}
use pop_cli.Server.Archive.{
  StorageDiffType, StorageDiffQueryItem, StorageDiffItem, present_item, diff_item, added, modified,
}

-- The change that a diff describes, of values by the keys as they were asked for.
abbrev pub patch : List StorageDiffItem → (Bytes → Option Bytes) → Bytes → Option Bytes
patch [] before = before
patch (item ∷ items) before =
    patch items (λ key. if bytes_beq item.key key then item.value else before key)

abbrev pub queried : List StorageDiffQueryItem → Bytes → Bool
queried items key = any (λ item. bytes_beq item.key key) items

abbrev pub WantsValue : StorageDiffQueryItem → Type 0
WantsValue item = item.return_type ≢ hash

module _ (hex : Codec) (state : ℕ → Bytes → Option Bytes) where
  abbrev of_parsed : ℕ → RpcResult Bytes → Option Bytes
  of_parsed n (answer k) = Option.map (from_bytes hex) (state n k)
  of_parsed n (refuse e) = none

  -- What a client sees at a key, as it asks for it, in a block.
  abbrev pub view : ℕ → Bytes → Option Bytes
  view n key = of_parsed n (parse_hex_bytes hex key)

  -- The value at the key of an item has changed.
  abbrev pub Changed : ℕ → ℕ → StorageDiffItem → Type 0
  Changed n p item =
      (k : Bytes) × (parse_hex_bytes hex item.key ≡ answer k) × (state n k ≢ state p k)

module _ (hex : Codec) (blake2_256 : Bytes → Bytes) (state : ℕ → Bytes → Option Bytes)
    (n p : ℕ) where
  -- `before` is the view of the previous block, except that some keys are up to date.
  abbrev pub Between : (Bytes → Option Bytes) → Type 0
  Between before =
      (key : Bytes) → (before key ≡ view hex state p key) ⊎ (before key ≡ view hex state n key)

  patch-append :
      (xs ys : List StorageDiffItem) (before : Bytes → Option Bytes)
      → patch (xs ++ ys) before ≡ patch ys (patch xs before)
  patch-append [] ys before = refl
  patch-append (x ∷ xs) ys before = patch-append xs ys _

  present_item-value :
      (item : StorageDiffQueryItem) (t : StorageDiffType) (v : Bytes)
      → WantsValue item
      → (present_item hex blake2_256 item t v).value ≡ some (from_bytes hex v)
  unfolding present_item
  present_item-value item t v wants = ground arith

  present_item-key :
      (item : StorageDiffQueryItem) (t : StorageDiffType) (v : Bytes)
      → (present_item hex blake2_256 item t v).key ≡ item.key
  unfolding present_item
  present_item-key item t v = ground arith

  -- What is seen at the key of an item, in a block where the value is known.
  seen :
      (m : ℕ) (asked key k : Bytes) (v : Option Bytes)
      → parse_hex_bytes hex asked ≡ answer k
      → v ≡ state m k
      → bytes_beq asked key ≡ true
      → view hex state m key ≡ Option.map (from_bytes hex) v
  seen m asked key k v parsed known same =
      rw (← (bytes_beq_iff asked key).0 same, parsed) (ap (Option.map (from_bytes hex)) (sym known))

  -- One item, at its own key and elsewhere.
  diff_item-patches :
      (item : StorageDiffQueryItem) (k : Bytes) (cur prev : Option Bytes)
      → parse_hex_bytes hex item.key ≡ answer k
      → cur ≡ state n k
      → prev ≡ state p k
      → WantsValue item
      → (before : Bytes → Option Bytes) → Between before
      → (key : Bytes)
      → patch (diff_item hex blake2_256 item cur prev) before key
        ≡ (if bytes_beq item.key key then view hex state n key else before key)
  unfolding diff_item
  diff_item-patches item k cur prev parsed c q wants before between key =
      elim (Bool-cases (bytes_beq item.key key)) [
        | inr ne ↦ rw ne (elsewhere cur prev ne)
        | inl same ↦ rw same (
            here cur prev same (seen n item.key key k cur parsed c same)
              (seen p item.key key k prev parsed q same))
      ]
    where
      elsewhere :
          (cur prev : Option Bytes)
          → bytes_beq item.key key ≡ false
          → patch (diff_item hex blake2_256 item cur prev) before key ≡ before key
      elsewhere none none ne = refl
      elsewhere none (some y) ne = rw ne
      elsewhere (some x) none ne = rw (present_item-key item added x, ne)
      elsewhere (some x) (some y) ne = elim (Bool-cases (bytes_beq x y)) [
        | inl eq ↦ rw eq
        | inr df ↦ rw (df, present_item-key item modified x, ne)
      ]

      here :
          (cur prev : Option Bytes)
          → bytes_beq item.key key ≡ true
          → view hex state n key ≡ Option.map (from_bytes hex) cur
          → view hex state p key ≡ Option.map (from_bytes hex) prev
          → patch (diff_item hex blake2_256 item cur prev) before key ≡ view hex state n key
      here none none same vn vp = ground (arith, between key)
      here none (some y) same vn vp = rw same (sym vn)
      here (some x) none same vn vp =
          rw (present_item-key item added x, same, present_item-value item added x wants) (sym vn)
      here (some x) (some y) same vn vp = elim (Bool-cases (bytes_beq x y)) [
        | inl eq ↦ rw eq (ground (arith, between key, bytes_beq_iff x y))
        | inr df ↦
            rw
              (df, present_item-key item modified x, same, present_item-value item modified x wants)
              (sym vn)
      ]

  -- No item without a change.
  diff_item-Changed :
      (item : StorageDiffQueryItem) (k : Bytes) (cur prev : Option Bytes)
      → parse_hex_bytes hex item.key ≡ answer k
      → cur ≡ state n k
      → prev ≡ state p k
      → All (Changed hex state n p) (diff_item hex blake2_256 item cur prev)
  unfolding diff_item
  diff_item-Changed item k none none parsed c q = tt
  diff_item-Changed item k none (some y) parsed c q = ((k, parsed, λ e. cc), tt)
  diff_item-Changed item k (some x) none parsed c q =
      ((k, rw (present_item-key item added x) parsed, λ e. cc), tt)
  diff_item-Changed item k (some x) (some y) parsed c q = elim (Bool-cases (bytes_beq x y)) [
    | inl eq ↦ rw eq tt
    | inr df ↦ rw df (
      (k, rw (present_item-key item modified x) parsed, λ e. ground (arith, bytes_beq_iff x y)),
      tt,
    )
  ]

  -- A diff is right for the items that were asked for.
  pub record IsDiff (items : List StorageDiffQueryItem) (diff : List StorageDiffItem) : Type 0 where
    pub patches :
        (before : Bytes → Option Bytes)
        → Between before
        → (key : Bytes)
        → patch diff before key ≡ (if queried items key then view hex state n key else before key)
    pub changed : All (Changed hex state n p) diff

  pub nil-IsDiff : IsDiff [] []
  nil-IsDiff = record { patches = λ before between key. refl; changed = tt }

  pub cons-IsDiff :
      (item : StorageDiffQueryItem) (k : Bytes) (cur prev : Option Bytes)
      (items : List StorageDiffQueryItem) (rest : List StorageDiffItem)
      → parse_hex_bytes hex item.key ≡ answer k
      → cur ≡ state n k
      → prev ≡ state p k
      → WantsValue item
      → IsDiff items rest
      → IsDiff (item ∷ items) (diff_item hex blake2_256 item cur prev ++ rest)
  cons-IsDiff item k cur prev items rest parsed c q wants d = record {
    patches = λ before between key.
        let one = diff_item-patches item k cur prev parsed c q wants before between in
        rw (patch-append (diff_item hex blake2_256 item cur prev) rest before)
          (d.patches _ (λ j. still before between j (one j)) key ∙ ground (arith, one key));
    changed =
        All-append (Changed hex state n p) (diff_item hex blake2_256 item cur prev) rest
          (diff_item-Changed item k cur prev parsed c q) d.changed;
  }
    where
      still :
          (before : Bytes → Option Bytes)
          → Between before
          → (j : Bytes) {v : Option Bytes}
          → v ≡ (if bytes_beq item.key j then view hex state n j else before j)
          → (v ≡ view hex state p j) ⊎ (v ≡ view hex state n j)
      still before between j e = ground (arith, e, between j)
