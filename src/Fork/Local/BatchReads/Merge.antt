-- ===== src/Fork/Local/BatchReads/Merge.antt =====
-- Writing the answers for the keys with no modification back to their places.
use pop_cli.Prelude.{
  ℕ, suc, ◌+◌, ◌≡◌, refl, false, List, [], ◌∷◌, map, Option, none, some, arith, contains,
  has_duplicates, Option-cases, inl, inr,
}
use pop_cli.Prelude.{set as set_elem}
use pop_cli.Bytes.{Bytes, bytes_eq}
use pop_cli.Fork.Result.{ok}
use pop_cli.Fork.Local.{LocalSharedValue, pushed, non_local, scatter, indices_of, keys_of}

abbrev pub Found : Type 0
Found = Option (Option LocalSharedValue)

-- The modification, or the answer `g` from below.
abbrev pub merged :
    (Bytes → Found) → (Bytes → Option LocalSharedValue) → Bytes → Option LocalSharedValue
merged m g k = elim (m k) [ some found ↦ found | none ↦ g k ]

indices-suc :
    (i : ℕ) (keys : List Bytes) (found : List Found)
    → (indices_of (non_local (i + 1) keys found) ≡ map suc (indices_of (non_local i keys found)))
      × (keys_of (non_local (i + 1) keys found) ≡ keys_of (non_local i keys found))
unfolding non_local
indices-suc i [] found = (refl, refl)
indices-suc i (k ∷ keys) [] = (refl, refl)
indices-suc i (k ∷ keys) (some x ∷ found) = indices-suc (i + 1) keys found
indices-suc i (k ∷ keys) (none ∷ found) = ground (arith, indices-suc (i + 1) keys found)

scatter-suc :
    (x : Option LocalSharedValue) (is : List ℕ) (xs vs ys : List (Option LocalSharedValue))
    → scatter xs is vs ≡ ok ys
    → scatter (x ∷ xs) (map suc is) vs ≡ ok (x ∷ ys)
unfolding scatter
scatter-suc x is xs [] ys h = ground arith
scatter-suc x [] xs (v ∷ vs) ys h = cc
scatter-suc x (i ∷ is) xs (v ∷ vs) ys h = scatter-suc x is (set_elem xs i v) vs ys h

module _ (m : Bytes → Found) (g : Bytes → Option LocalSharedValue) where
  abbrev entries : ℕ → List Bytes → List (ℕ × Bytes)
  entries i keys = non_local i keys (map m keys)

  shifted :
      (x : Option LocalSharedValue) (keys : List Bytes)
      → scatter
          (map pushed (map m keys))
          (indices_of (entries 0 keys))
          (map g (keys_of (entries 0 keys)))
        ≡ ok (map (merged m g) keys)
      → scatter
          (x ∷ map pushed (map m keys))
          (indices_of (entries (0 + 1) keys))
          (map g (keys_of (entries (0 + 1) keys)))
        ≡ ok (x ∷ map (merged m g) keys)
  shifted x keys h =
      let (is, ks) = indices-suc 0 keys (map m keys) in
      rw (is, ks)
        (scatter-suc x (indices_of (entries 0 keys)) (map pushed (map m keys))
          (map g (keys_of (entries 0 keys))) (map (merged m g) keys) h)

  -- Every key gets its modification, or the answer from below.
  pub scatter-merged :
      (keys : List Bytes)
      → scatter
          (map pushed (map m keys))
          (indices_of (entries 0 keys))
          (map g (keys_of (entries 0 keys)))
        ≡ ok (map (merged m g) keys)
  unfolding non_local scatter
  scatter-merged [] = refl
  scatter-merged (k ∷ ks) = go (m k) (λ x. shifted x ks (scatter-merged ks))
    where
      go :
          (o : Found)
          → ((x : Option LocalSharedValue)
              → scatter
                  (x ∷ map pushed (map m ks))
                  (indices_of (entries (0 + 1) ks))
                  (map g (keys_of (entries (0 + 1) ks)))
                ≡ ok (x ∷ map (merged m g) ks))
          → scatter
              (pushed o ∷ map pushed (map m ks))
              (indices_of (non_local 0 (k ∷ ks) (o ∷ map m ks)))
              (map g (keys_of (non_local 0 (k ∷ ks) (o ∷ map m ks))))
            ≡ ok (elim o [ some found ↦ found | none ↦ g k ] ∷ map (merged m g) ks)
      go none rest = rest (g k)
      go (some found) rest = rest found

  -- Where every key has a modification nothing is asked.
  pub all_local :
      (i : ℕ) (keys : List Bytes)
      → entries i keys ≡ []
      → map pushed (map m keys) ≡ map (merged m g) keys
  unfolding non_local
  all_local i [] h = refl
  all_local i (k ∷ ks) h = elim (Option-cases (m k)) [
    | inl e ↦ absurd (ground arith)
    | inr (found, e) ↦ ground (arith, e, all_local (i + 1) ks)
  ]

contains-non_local :
    (i : ℕ) (k : Bytes) (keys : List Bytes) (found : List Found)
    → contains keys k ≡ false
    → contains (keys_of (non_local i keys found)) k ≡ false
unfolding non_local
contains-non_local i k [] found h = refl
contains-non_local i k (j ∷ keys) [] h = refl
contains-non_local i k (j ∷ keys) (some x ∷ found) h =
    contains-non_local (i + 1) k keys found (ground arith)
contains-non_local i k (j ∷ keys) (none ∷ found) h =
    ground (arith, contains-non_local (i + 1) k keys found)

-- Distinct keys stay distinct.
pub non_local-distinct :
    (i : ℕ) (keys : List Bytes) (found : List Found)
    → has_duplicates keys ≡ false
    → has_duplicates (keys_of (non_local i keys found)) ≡ false
unfolding non_local
non_local-distinct i [] found h = refl
non_local-distinct i (k ∷ keys) [] h = refl
non_local-distinct i (k ∷ keys) (some x ∷ found) h =
    non_local-distinct (i + 1) keys found (ground arith)
non_local-distinct i (k ∷ keys) (none ∷ found) h =
    ground (arith, non_local-distinct (i + 1) keys found, contains-non_local (i + 1) k keys found)
