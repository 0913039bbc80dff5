-- ===== src/Fork/Cache/Prefix/Laws.antt =====
-- The two bounds agree, and the range that they close is the set of keys with the prefix.
use mathlib.Core.List.{reverse-cons, reverse-reverse}
use pop_cli.Prelude.{
  ℕ, zero, suc, ◌+◌, ◌≤◌, ◌<◌, ◌≡◌, refl, sym, ◌∙◌, ap, [], ◌∷◌, ◌++◌, reverse, Option, none, some,
  arith, ltb, length, get_elem?, set, take, All, if◌then◌else◌,
}
use pop_cli.Bytes.{Bytes, starts_with}
use pop_cli.Fork.Cache.Prefix.{
  bound_loop, prefix_upper_bound, increment_from, increment_prefix, in_range,
}

-- Every element is a byte.
abbrev pub IsBytes : Bytes → Type 0
IsBytes = All (λ b. b < 0x100)

-- The least byte string above all that begin with the prefix, by recursion from the front.
successor : Bytes → Option Bytes
successor [] = none
successor (x ∷ xs) = elim (successor xs) [
  | some u ↦ some (x ∷ u)
  | none ↦ if ltb x 0xff then some ((x + 1) ∷ []) else none
]

successor-append :
    (xs : Bytes) (x : ℕ)
    → successor (xs ++ x ∷ []) ≡ (if ltb x 0xff then some (xs ++ (x + 1) ∷ []) else successor xs)
unfolding successor
successor-append [] x = refl
successor-append (y ∷ xs) x = ground (arith, successor-append xs x)

bound_loop-successor : (r : Bytes) → bound_loop r ≡ successor (reverse r)
unfolding bound_loop successor
bound_loop-successor [] = refl
bound_loop-successor (x ∷ r) =
    rw (reverse-cons x r, successor-append (reverse r) x)
      (ground (arith, bound_loop-successor r, reverse-cons (x + 1) r))

prefix_upper_bound-successor : (p : Bytes) → prefix_upper_bound p ≡ successor p
unfolding prefix_upper_bound
prefix_upper_bound-successor p = bound_loop-successor (reverse p) ∙ ap successor (reverse-reverse p)

take-suc :
    (i : ℕ) (xs : Bytes) (b : ℕ) → get_elem? xs i ≡ some b → take (suc i) xs ≡ take i xs ++ b ∷ []
take-suc i [] b h = ground arith
take-suc zero (x ∷ xs) b h = ground arith
take-suc (suc i) (x ∷ xs) b h = ground (arith, take-suc i xs b)

take-suc-set :
    (i : ℕ) (xs : Bytes) (b v : ℕ)
    → get_elem? xs i ≡ some b
    → take (suc i) (set xs i v) ≡ take i xs ++ v ∷ []
take-suc-set i [] b v h = ground arith
take-suc-set zero (x ∷ xs) b v h = refl
take-suc-set (suc i) (x ∷ xs) b v h = ground (arith, take-suc-set i xs b v)

get_elem?_below : (i : ℕ) (xs : Bytes) → i < length xs → (b : ℕ) × (get_elem? xs i ≡ some b)
get_elem?_below i [] h = absurd (omega arith)
get_elem?_below zero (x ∷ xs) h = (x, refl)
get_elem?_below (suc i) (x ∷ xs) h = get_elem?_below i xs (omega arith)

take_all : (xs : Bytes) → take (length xs) xs ≡ xs
take_all [] = refl
take_all (x ∷ xs) = ap (◌∷◌ x) (take_all xs)

increment_from-successor :
    (i : ℕ) (xs : Bytes) → i ≤ length xs → increment_from i xs ≡ successor (take i xs)
unfolding increment_from successor
increment_from-successor zero xs h = refl
increment_from-successor (suc i) xs h =
    let (b, e) = get_elem?_below i xs (omega arith) in
    rw (take-suc i xs b e, successor-append (take i xs) b)
      (ground
        (arith, take-suc-set i xs b (b + 1) e, increment_from-successor i xs (omega arith), e))

increment_prefix-successor : (p : Bytes) → increment_prefix p ≡ successor p
unfolding increment_prefix
increment_prefix-successor p =
    increment_from-successor (length p) p (omega arith) ∙ ap successor (take_all p)

-- The two functions that compute the bound, one by popping bytes off the end and one by an index
-- that goes down, return the same on every prefix.
pub increment_prefix-prefix_upper_bound : (p : Bytes) → increment_prefix p ≡ prefix_upper_bound p
increment_prefix-prefix_upper_bound p =
    increment_prefix-successor p ∙ sym (prefix_upper_bound-successor p)

successor-in_range : (p k : Bytes) → IsBytes k → in_range (successor p) p k ≡ starts_with k p
unfolding successor
successor-in_range [] k h = refl
successor-in_range (x ∷ p) [] h = ground arith
successor-in_range (x ∷ p) (y ∷ k) h = ground (arith, successor-in_range p k h.1)

-- For a key of bytes the range query of the code, `key >= prefix` and `key < bound` (or the first
-- alone, where every byte of the prefix is 0xff), holds exactly when the key starts with the prefix.
pub in_range-prefix_upper_bound :
    (p k : Bytes) → IsBytes k → in_range (prefix_upper_bound p) p k ≡ starts_with k p
in_range-prefix_upper_bound p k h = rw (prefix_upper_bound-successor p) (successor-in_range p k h)
