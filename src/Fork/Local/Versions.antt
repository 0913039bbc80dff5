-- ===== src/Fork/Local/Versions.antt =====
-- The versions of the metadata of crates/pop-fork/src/local.rs: `register_metadata_version` against
-- `metadata_at`.
use pop_cli.Prelude.{
  ℕ, ◌||◌, ◌≤◌, ◌<◌, ◌≡◌, refl, ◌∙◌, ap, Bool, true, false, not, ◌&&◌, List, [], ◌∷◌, Option, none,
  some, arith, leb, ltb, nat_beq, any, if◌then◌else◌, Bool-cases, inl, inr, ◌⊎◌,
}
use pop_cli.Fork.Monad.{returns, lift}
use pop_cli.Fork.Rpc.{Rpc}
use pop_cli.Fork.Remote.{Env}
use pop_cli.Fork.Local.{
  Layer, insert_version, version_at, or_not_found, register_metadata_version, metadata_at,
}

module _ {V : Type 0} where
  abbrev pub AllAbove : ℕ → List (ℕ × V) → Type 0
  AllAbove n [] = Unit {0}
  AllAbove n ((m, _) ∷ versions) = (n < m) × AllAbove n versions

  -- The block numbers of a `BTreeMap` ascend.
  abbrev pub IsAscending : List (ℕ × V) → Type 0
  IsAscending [] = Unit {0}
  IsAscending ((m, _) ∷ versions) = AllAbove m versions × IsAscending versions

  -- A version after `n` is in force at `b`.
  abbrev pub overtaken : ℕ → ℕ → List (ℕ × V) → Bool
  overtaken n b versions = any (λ entry. ltb n entry.0 && leb entry.0 b) versions

  AllAbove-weaken : (n m : ℕ) (l : List (ℕ × V)) → n < m → AllAbove m l → AllAbove n l
  AllAbove-weaken n m [] h a = tt
  AllAbove-weaken n m ((j, v) ∷ l) h a = (omega (arith, a.0), AllAbove-weaken n m l h a.1)

  AllAbove-insert_version :
      (n m : ℕ) (v : V) (l : List (ℕ × V))
      → n < m
      → AllAbove n l
      → AllAbove n (insert_version m v l)
  unfolding insert_version
  AllAbove-insert_version n m v [] h a = (h, tt)
  AllAbove-insert_version n m v ((j, w) ∷ l) h a = ground (arith, AllAbove-insert_version n m v l)

  insert_version-IsAscending :
      (n : ℕ) (v : V) (l : List (ℕ × V)) → IsAscending l → IsAscending (insert_version n v l)
  unfolding insert_version
  insert_version-IsAscending n v [] a = (tt, tt)
  insert_version-IsAscending n v ((m, w) ∷ l) a = ground (
    arith,
    AllAbove-weaken n m l,
    AllAbove-insert_version m n v l,
    insert_version-IsAscending n v l,
  )

  abbrev pick : V → Option V → Option V
  pick w none = some w
  pick w (some u) = some u

  overtaken_none : (n j b : ℕ) (l : List (ℕ × V)) → AllAbove j l → b < j → overtaken n b l ≡ false
  overtaken_none n j b [] a h = refl
  overtaken_none n j b ((m, v) ∷ l) a h = ground (arith, overtaken_none n j b l a.1 h)

  version_at-none : (j b : ℕ) (l : List (ℕ × V)) → AllAbove j l → b < j → version_at b l ≡ none
  unfolding version_at
  version_at-none j b [] a h = refl
  version_at-none j b ((m, v) ∷ l) a h = ground arith

  pick-overtaken :
      (n b : ℕ) (w : V) (l : List (ℕ × V))
      → IsAscending l
      → overtaken n b l ≡ true
      → pick w (version_at b l) ≡ version_at b l
  unfolding version_at
  pick-overtaken n b w [] a h = ground arith
  pick-overtaken n b w ((m, v) ∷ l) a h =
      go (version_at b l) (overtaken n b l) h (overtaken_none n m b l a.0)
    where
      go :
          (o : Option V) (x : Bool)
          → ((ltb n m && leb m b) || x) ≡ true
          → (b < m → x ≡ false)
          → pick w (if leb m b then pick v o else none) ≡ (if leb m b then pick v o else none)
      go none x h f = ground arith
      go (some u) x h f = ground arith

  -- Where all versions stand after `n`, one is in force exactly where one has overtaken `n`.
  put_before :
      (n b : ℕ) (v : V) (l : List (ℕ × V))
      → AllAbove n l
      → IsAscending l
      → version_at b ((n, v) ∷ l)
        ≡ (if leb n b && not (overtaken n b l) then some v else version_at b l)
  unfolding version_at
  put_before n b v [] h a = ground arith
  put_before n b v ((m, w) ∷ l) h a =
      go (version_at b l) (overtaken n b l) h.0 (overtaken_none n m b l a.0)
    where
      go :
          (o : Option V) (x : Bool)
          → n < m
          → (b < m → x ≡ false)
          → (if leb n b then pick v (if leb m b then pick w o else none) else none) ≡ (
              if leb n b && not ((ltb n m && leb m b) || x)
              then some v
              else (if leb m b then pick w o else none))
      go none x k f = ground arith
      go (some u) x k f = ground arith

  version_at-insert_version :
      (n b : ℕ) (v : V) (l : List (ℕ × V))
      → IsAscending l
      → version_at b (insert_version n v l)
        ≡ (if leb n b && not (overtaken n b l) then some v else version_at b l)
  unfolding insert_version version_at
  version_at-insert_version n b v [] a = ground arith
  version_at-insert_version n b v ((m, w) ∷ l) a =
      go (version_at-insert_version n b v l a.1) (Bool-cases (ltb n m)) (Bool-cases (nat_beq n m))
    where
      same :
          (o : Option V) (x : Bool)
          → n ≡ m
          → (b < m → (o ≡ none))
          → (x ≡ true → pick w o ≡ o)
          → (if leb n b && not x then some v else o) ≡ (
              if leb n b && not ((ltb n m && leb m b) || x)
              then some v
              else (if leb m b then pick w o else none))
      same none x e f g = ground arith
      same (some u) x e f g = ground arith

      after :
          (o : Option V) (x : Bool)
          → m < n
          → (if leb m b then pick w (if leb n b && not x then some v else o) else none) ≡ (
              if leb n b && not ((ltb n m && leb m b) || x)
              then some v
              else (if leb m b then pick w o else none))
      after none x h = ground arith
      after (some u) x h = ground arith

      same_number : nat_beq n m ≡ true → n ≡ m
      same_number e = ground arith

      above_same : n ≡ m → AllAbove n l
      above_same e = rw e a.0

      lower : ltb n m ≡ true → n < m
      lower x = ground arith

      strictly : ltb n m ≡ false → nat_beq n m ≡ false → m < n
      strictly x e = ground arith

      inserted :
          ltb n m ≡ true
          → nat_beq n m ≡ false
          → insert_version n v ((m, w) ∷ l) ≡ (n, v) ∷ (m, w) ∷ l
      inserted x e = rw (e, x)

      inserted_after :
          ltb n m ≡ false
          → nat_beq n m ≡ false
          → insert_version n v ((m, w) ∷ l) ≡ (m, w) ∷ insert_version n v l
      inserted_after x e = rw (e, x)

      go :
          version_at b (insert_version n v l)
            ≡ (if leb n b && not (overtaken n b l) then some v else version_at b l)
          → (ltb n m ≡ true) ⊎ (ltb n m ≡ false)
          → (nat_beq n m ≡ true) ⊎ (nat_beq n m ≡ false)
          → version_at b (insert_version n v ((m, w) ∷ l)) ≡ (
              if leb n b && not (overtaken n b ((m, w) ∷ l))
              then some v
              else version_at b ((m, w) ∷ l))
      go ih x (inl e) =
          let is_m = same_number e in
          let above = above_same is_m in
          rw e (
            put_before n b v l above a.1
            ∙ same (version_at b l) (overtaken n b l) is_m (version_at-none m b l a.0)
                (pick-overtaken n b w l a.1))
      go ih (inl x) (inr e) =
          let h = lower x in
          ap (version_at b) (inserted x e)
          ∙ put_before n b v ((m, w) ∷ l) (h, AllAbove-weaken n m l h a.0) a
      go ih (inr x) (inr e) =
          ap (version_at b) (inserted_after x e)
          ∙ ap (λ o. if leb m b then pick w o else none) ih
          ∙ after (version_at b l) (overtaken n b l) (strictly x e)

-- After a version of the metadata is registered, the versions still ascend, and at a block that is
-- not before the fork point the metadata is the registered one, where its block is at or before the
-- asked one and no version lies in between, and what it was before otherwise.
pub metadata_at-register_metadata_version :
    {rpc : Rpc} (layer : Layer rpc) (n b : ℕ) (m : rpc.Metadata) (env : Env rpc)
    → IsAscending layer.metadata_versions
    → layer.first_forked_block_number ≤ b
    → IsAscending (register_metadata_version layer n m).metadata_versions
      × (metadata_at (register_metadata_version layer n m) b env ≡ (
          if leb n b && not (overtaken n b layer.metadata_versions)
          then returns m env
          else metadata_at layer b env))
unfolding register_metadata_version metadata_at or_not_found
metadata_at-register_metadata_version layer n b m env a l = (
  insert_version-IsAscending n m layer.metadata_versions a,
  rw (version_at-insert_version n b m layer.metadata_versions a, is_local)
      (go (leb n b && not (overtaken n b layer.metadata_versions))),
)
  where
    is_local : ltb b layer.first_forked_block_number ≡ false
    is_local = ground arith

    go :
        (x : Bool)
        → lift (or_not_found (if x then some m else version_at b layer.metadata_versions)) env ≡ (
            if x
            then returns m env
            else lift (or_not_found (version_at b layer.metadata_versions)) env)
    go true = refl
    go false = refl
