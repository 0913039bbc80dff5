-- ===== src/Fork/Blockchain/Paging.antt =====
-- The pages of a sorted list of keys.
use pop_cli.Prelude.{
  ℕ, zero, suc, ◌<◌, ◌≡◌, refl, ◌∙◌, sym, ap, true, false, List, [], ◌∷◌, ◌++◌, Option, none, some,
  arith, All, take, filter, length, append_assoc,
}
use mathlib.Core.Path.{subst}
use pop_cli.Bytes.{Bytes, bytes_beq, lt_bytes, lt_bytes_irrefl, lt_bytes_asymm}
use pop_cli.Assoc.{set_insert, set_extend}
use pop_cli.Fork.Rpc.{Rpc}
use pop_cli.Fork.Cache.Tables.{Db}
use pop_cli.Fork.Local.{Layer, merge_keys_with_in_memory, merge_keys_with_cache}
use pop_cli.Fork.Blockchain.Queries.{is_after, page}

lt_bytes_trans : (a b c : Bytes) → lt_bytes a b ≡ true → lt_bytes b c ≡ true → lt_bytes a c ≡ true
lt_bytes_trans a b [] h g = ground arith
lt_bytes_trans a [] (z ∷ c) h g = ground arith
lt_bytes_trans [] (y ∷ b) (z ∷ c) h g = refl
lt_bytes_trans (x ∷ a) (y ∷ b) (z ∷ c) h g = ground (arith, lt_bytes_trans a b c)

lt_bytes_total : (a b : Bytes) → bytes_beq a b ≡ false → lt_bytes a b ≡ false → lt_bytes b a ≡ true
lt_bytes_total [] [] h g = ground arith
lt_bytes_total [] (y ∷ b) h g = ground arith
lt_bytes_total (x ∷ a) [] h g = refl
lt_bytes_total (x ∷ a) (y ∷ b) h g = ground (arith, lt_bytes_total a b)

abbrev IsSorted : List Bytes → Type 0
IsSorted [] = Unit {0}
IsSorted (x ∷ xs) = All (λ y. lt_bytes x y ≡ true) xs × IsSorted xs

All-set_insert :
    (P : Bytes → Type 0) (k : Bytes) (s : List Bytes) → P k → All P s → All P (set_insert k s)
unfolding set_insert
All-set_insert P k [] p h = (p, tt)
All-set_insert P k (x ∷ s) p h = ground (arith, All-set_insert P k s p h.1)

All-below :
    (k x : Bytes) (s : List Bytes)
    → lt_bytes k x ≡ true
    → All (λ y. lt_bytes x y ≡ true) s
    → All (λ y. lt_bytes k y ≡ true) s
All-below k x [] l h = tt
All-below k x (y ∷ s) l h = (lt_bytes_trans k x y l h.0, All-below k x s l h.1)

set_insert-IsSorted : (k : Bytes) (s : List Bytes) → IsSorted s → IsSorted (set_insert k s)
unfolding set_insert
set_insert-IsSorted k [] h = (tt, tt)
set_insert-IsSorted k (x ∷ s) h = ground (
  arith,
  h,
  set_insert-IsSorted k s h.1,
  All-below k x s,
  lt_bytes_total k x,
  All-set_insert (λ y. lt_bytes x y ≡ true) k s,
)

set_extend-IsSorted : (s ks : List Bytes) → IsSorted s → IsSorted (set_extend s ks)
unfolding set_extend
set_extend-IsSorted s [] h = h
set_extend-IsSorted s (k ∷ ks) h =
    set_extend-IsSorted (set_insert k s) ks (set_insert-IsSorted k s h)

filter_above :
    (l : Bytes) (ys : List Bytes)
    → All (λ y. lt_bytes l y ≡ true) ys
    → filter (is_after (some l)) ys ≡ ys
filter_above l [] h = refl
filter_above l (y ∷ ys) h = rw h.0 (ap (◌∷◌ y) (filter_above l ys h.1))

-- After a key come the keys that follow it.
filter-split :
    (xs : List Bytes) (l : Bytes) (ys : List Bytes)
    → IsSorted (xs ++ l ∷ ys)
    → filter (is_after (some l)) (xs ++ l ∷ ys) ≡ ys
filter-split [] l ys h = rw (lt_bytes_irrefl l) (filter_above l ys h.0)
filter-split (x ∷ xs) l ys h = rw (lt_bytes_asymm x l (above xs h.0)) (filter-split xs l ys h.1)
  where
    above : (zs : List Bytes) → All (λ y. lt_bytes x y ≡ true) (zs ++ l ∷ ys) → lt_bytes x l ≡ true
    above [] a = a.0
    above (z ∷ zs) a = above zs a.1

abbrev last? : List Bytes → Option Bytes
last? [] = none
last? (x ∷ []) = some x
last? (x ∷ y ∷ xs) = last? (y ∷ xs)

-- A client that asks for page after page, each from the last key of the one before, until a page is
-- empty.
unfoldable pub all_pages : ℕ → (Option Bytes → List Bytes) → Option Bytes → List Bytes
all_pages zero ask start = []
all_pages (suc fuel) ask start = elim (last? (ask start)) [
  | none ↦ []
  | some l ↦ ask start ++ all_pages fuel ask (some l)
]

-- A page that is not empty, its last key, and what is left.
record Taken (p keys : List Bytes) : Type 0 where
  init : List Bytes
  final : Bytes
  rest : List Bytes
  is_page : p ≡ init ++ final ∷ []
  is_all : keys ≡ init ++ final ∷ rest
  is_last : last? p ≡ some final
  shorter : length rest < length keys

taken : (c : ℕ) (x : Bytes) (xs : List Bytes) → Taken (x ∷ take c xs) (x ∷ xs)
taken zero x xs = record {
  init = [];
  final = x;
  rest = xs;
  is_page = refl;
  is_all = refl;
  is_last = refl;
  shorter = omega arith;
}
taken (suc c) x [] = record {
  init = [];
  final = x;
  rest = [];
  is_page = refl;
  is_all = refl;
  is_last = refl;
  shorter = omega arith;
}
taken (suc c) x (y ∷ xs) =
    let t = taken c y xs in
    record {
      init = x ∷ t.init;
      final = t.final;
      rest = t.rest;
      is_page = ap (◌∷◌ x) t.is_page;
      is_all = ap (◌∷◌ x) t.is_all;
      is_last = t.is_last;
      shorter = omega (arith, t.shorter);
    }

module _ (c : ℕ) (keys : List Bytes) (sorted : IsSorted keys) where
  abbrev ask : Option Bytes → List Bytes
  ask s = page (suc c) s keys

  abbrev and_next : ℕ → List Bytes → List Bytes
  and_next fuel p = elim (last? p) [ none ↦ [] | some l ↦ p ++ all_pages fuel ask (some l) ]

  pages_from :
      (fuel : ℕ) (start : Option Bytes) (before rest : List Bytes)
      → keys ≡ before ++ rest
      → filter (is_after start) keys ≡ rest
      → length rest < fuel
      → all_pages fuel (λ s. page (suc c) s keys) start ≡ rest
  unfolding all_pages page
  pages_from zero start before rest e f h = absurd (omega (arith, h))
  pages_from (suc fuel) start before [] e f h = ap (λ r. and_next fuel (take (suc c) r)) f
  pages_from (suc fuel) start before (x ∷ xs) e f h =
      let t = taken c x xs in
      let split : keys ≡ (before ++ t.init) ++ t.final ∷ t.rest =
        e ∙ ap (◌++◌ before) t.is_all ∙ sym (append_assoc before t.init (t.final ∷ t.rest)) in
      let after : filter (is_after (some t.final)) keys ≡ t.rest =
        ap (filter (is_after (some t.final))) split
        ∙ filter-split (before ++ t.init) t.final t.rest (subst IsSorted split sorted) in
      let again =
        pages_from fuel (some t.final) ((before ++ t.init) ++ t.final ∷ []) t.rest
          (split ∙ sym (append_assoc (before ++ t.init) (t.final ∷ []) t.rest)) after
          (omega (arith, t.shorter, h)) in
      ap (λ r. and_next fuel (take (suc c) r)) f
      ∙ rw (t.is_last, again)
          (ap (λ p. p ++ t.rest) t.is_page
            ∙ append_assoc t.init (t.final ∷ []) t.rest
            ∙ sym t.is_all)

  filter_unbounded : (xs : List Bytes) → filter (is_after none) xs ≡ xs
  filter_unbounded [] = refl
  filter_unbounded (x ∷ xs) = ap (◌∷◌ x) (filter_unbounded xs)

  pages_lem : all_pages (suc (length keys)) (λ s. page (suc c) s keys) none ≡ keys
  pages_lem = pages_from (suc (length keys)) none [] keys refl (filter_unbounded keys) (omega arith)

-- The keys of a block of the fork, in memory or in the history, come page by page: with pages of at
-- least one key, a client that asks for the keys after the last one it has, until a page is empty, gets
-- all of them, each once and in order, in no more requests than there are keys and one.
pub all_pages-page :
    {rpc : Rpc} (layer : Layer rpc) (db : Db) (remote : List Bytes) (prefix : Bytes) (b count : ℕ)
    → 0 < count
    → (all_pages
          (suc (length (merge_keys_with_in_memory layer remote prefix)))
          (λ s. page count s (merge_keys_with_in_memory layer remote prefix))
          none
        ≡ merge_keys_with_in_memory layer remote prefix)
      × (all_pages
            (suc (length (merge_keys_with_cache db remote prefix b)))
            (λ s. page count s (merge_keys_with_cache db remote prefix b))
            none
          ≡ merge_keys_with_cache db remote prefix b)
unfolding merge_keys_with_in_memory merge_keys_with_cache
all_pages-page layer db remote prefix b zero h = absurd (omega (arith, h))
all_pages-page layer db remote prefix b (suc c) h = (
  pages_lem c _ (set_extend-IsSorted _ _ (set_extend-IsSorted [] _ tt)),
  pages_lem c _ (set_extend-IsSorted _ _ (set_extend-IsSorted [] _ tt)),
)
