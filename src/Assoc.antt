-- ===== src/Assoc.antt =====
-- `HashMap` of the Rust standard library as an association list, and `BTreeSet<Vec<u8>>` as a
-- sorted list without repetitions.
use pop_cli.Prelude.{
  ◌≡◌, refl, Bool, not, ◌||◌, List, [], ◌∷◌, Option, none, some, arith, if◌then◌else◌, true, false,
  Eq, ◌==◌, filter, contains, ◌∙◌,
}
use pop_cli.Bytes.{Bytes, bytes_beq, bytes_beq_iff, lt_bytes, bytes_eq}

module _ {ℓ} {K V : Type ℓ} ⦃e : Eq K⦄ where
  unfoldable pub lookup : K → List (K × V) → Option V
  lookup k [] = none
  lookup k ((j, v) ∷ m) = if j == k then some v else lookup k m

  unfoldable pub insert : K → V → List (K × V) → List (K × V)
  insert k v [] = (k, v) ∷ []
  insert k v ((j, w) ∷ m) = if j == k then (k, v) ∷ m else (j, w) ∷ insert k v m

  unfoldable pub remove : K → List (K × V) → List (K × V)
  remove k = filter (λ entry. not (entry.0 == k))

  pub lookup-insert :
      (new j : K) (v : V) (entries : List (K × V))
      → lookup j (insert new v entries) ≡ (if new == j then some v else lookup j entries)
  unfolding insert lookup
  lookup-insert new j v [] = refl
  lookup-insert new j v ((k, w) ∷ entries) =
      ground (arith, lookup-insert new j v entries, e.beq_iff new j, e.beq_iff k new, e.beq_iff k j)

  pub lookup-remove :
      (k j : K) (m : List (K × V)) → lookup j (remove k m) ≡ (if k == j then none else lookup j m)
  unfolding lookup remove
  lookup-remove k j [] = ground arith
  lookup-remove k j ((i, w) ∷ m) =
      ground (arith, e.beq_iff k j, e.beq_iff i k, e.beq_iff i j, lookup-remove k j m)

  -- `retain` with a test of the key.
  pub lookup-filter_key :
      (p : K → Bool) (j : K) (m : List (K × V))
      → lookup j (filter (λ entry. p entry.0) m) ≡ (if p j then lookup j m else none)
  unfolding lookup
  lookup-filter_key p j [] = ground arith
  lookup-filter_key p j ((i, w) ∷ m) = ground (arith, e.beq_iff i j, lookup-filter_key p j m)

-- `BTreeSet::insert`.
unfoldable pub set_insert : Bytes → List Bytes → List Bytes
set_insert k [] = k ∷ []
set_insert k (x ∷ xs) =
    if bytes_beq k x then x ∷ xs else if lt_bytes k x then k ∷ x ∷ xs else x ∷ set_insert k xs

-- `collect::<BTreeSet<_>>` and `extend`.
unfoldable pub set_extend : List Bytes → List Bytes → List Bytes
set_extend s [] = s
set_extend s (k ∷ ks) = set_extend (set_insert k s) ks

pub contains-set_insert :
    (k j : Bytes) (s : List Bytes) → contains (set_insert k s) j ≡ (bytes_beq k j || contains s j)
unfolding set_insert
contains-set_insert k j [] = refl
contains-set_insert k j (x ∷ s) =
    ground (arith, bytes_beq_iff k x, bytes_beq_iff k j, contains-set_insert k j s)

pub contains-set_extend :
    (j : Bytes) (s ks : List Bytes) → contains (set_extend s ks) j ≡ (contains s j || contains ks j)
unfolding set_extend
contains-set_extend j s [] = ground arith
contains-set_extend j s (k ∷ ks) =
    contains-set_extend j (set_insert k s) ks ∙ ground (arith, contains-set_insert k j s)

-- A key of a list is no key outside it.
pub contains-ne :
    (keys : List Bytes) (k j : Bytes)
    → contains keys k ≡ true
    → contains keys j ≡ false
    → bytes_beq j k ≡ false
contains-ne [] k j h g = ground arith
contains-ne (x ∷ xs) k j h g =
    ground (arith, contains-ne xs k j, bytes_beq_iff x k, bytes_beq_iff x j, bytes_beq_iff j k)
