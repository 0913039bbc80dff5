-- ===== src/Bytes.antt =====
-- Byte strings: `Vec<u8>`, `&[u8]` and `H256` of the Rust code, as lists of numbers, with Rust's
-- lexicographic order of slices and `starts_with`.
use pop_cli.Prelude.{
  ℕ, ◌≡◌, refl, ◌↔◌, Bool, true, false, ◌&&◌, ◌||◌, List, [], ◌∷◌, arith, ltb, nat_beq, Eq,
}

abbrev pub Bytes : Type 0
Bytes = List ℕ

abbrev pub bytes_beq : Bytes → Bytes → Bool
bytes_beq [] [] = true
bytes_beq [] (y ∷ ys) = false
bytes_beq (x ∷ xs) [] = false
bytes_beq (x ∷ xs) (y ∷ ys) = nat_beq x y && bytes_beq xs ys

pub bytes_beq_iff : (a b : Bytes) → (bytes_beq a b ≡ true) ↔ (a ≡ b)
bytes_beq_iff [] [] = ground arith
bytes_beq_iff [] (y ∷ ys) = ground arith
bytes_beq_iff (x ∷ xs) [] = ground arith
bytes_beq_iff (x ∷ xs) (y ∷ ys) = ground (arith, bytes_beq_iff xs ys)

instance abbrev pub bytes_eq : Eq Bytes
bytes_eq = record { beq = bytes_beq; beq_iff = bytes_beq_iff }

-- `a < b` on slices.
abbrev pub lt_bytes : Bytes → Bytes → Bool
lt_bytes xs [] = false
lt_bytes [] (y ∷ ys) = true
lt_bytes (x ∷ xs) (y ∷ ys) = ltb x y || (nat_beq x y && lt_bytes xs ys)

-- `a <= b` on slices.
abbrev pub le_bytes : Bytes → Bytes → Bool
le_bytes [] ys = true
le_bytes (x ∷ xs) [] = false
le_bytes (x ∷ xs) (y ∷ ys) = ltb x y || (nat_beq x y && le_bytes xs ys)

-- `key.starts_with(prefix)`: the key first, as in the code.
abbrev pub starts_with : Bytes → Bytes → Bool
starts_with k [] = true
starts_with [] (x ∷ xs) = false
starts_with (y ∷ ys) (x ∷ xs) = nat_beq x y && starts_with ys xs

pub lt_bytes_irrefl : (a : Bytes) → lt_bytes a a ≡ false
lt_bytes_irrefl [] = refl
lt_bytes_irrefl (x ∷ a) = ground (arith, lt_bytes_irrefl a)

pub lt_bytes_asymm : (a b : Bytes) → lt_bytes a b ≡ true → lt_bytes b a ≡ false
lt_bytes_asymm [] b h = ground arith
lt_bytes_asymm (x ∷ a) [] h = ground arith
lt_bytes_asymm (x ∷ a) (y ∷ b) h = ground (arith, lt_bytes_asymm a b)

-- Not below is transitive.
pub lt_bytes-false_trans :
    (a b c : Bytes) → lt_bytes a b ≡ false → lt_bytes b c ≡ false → lt_bytes a c ≡ false
lt_bytes-false_trans a b [] h g = ground arith
lt_bytes-false_trans a [] (z ∷ c) h g = ground arith
lt_bytes-false_trans [] (y ∷ b) (z ∷ c) h g = ground arith
lt_bytes-false_trans (x ∷ a) (y ∷ b) (z ∷ c) h g = ground (arith, lt_bytes-false_trans a b c)
