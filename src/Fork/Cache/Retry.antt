-- ===== src/Fork/Cache/Retry.antt =====
-- The retry loop round every write of crates/pop-fork/src/cache.rs, on lock errors of SQLite.
pub mod Laws
use pop_cli.Prelude.{
  ℕ, zero, suc, ◌+◌, ◌-◌, ◌*◌, ◌≤◌, Bool, true, false, ◌&&◌, ◌||◌, List, [], ◌∷◌, map, Option, none,
  some, ltb, leb, if◌then◌else◌,
}
use pop_cli.Bytes.{Bytes, starts_with}

-- `diesel::result::Error`: a database error with its message, or another error, by a tag.
pub data DieselError : Type 0 where
  database_error : Bytes → DieselError
  other_error : ℕ → DieselError

abbrev to_lower : ℕ → ℕ
to_lower c = if leb 65 c && leb c 90 then c + 32 else c

-- `msg.contains(pattern)`
unfoldable pub contains_text : Bytes → Bytes → Bool
contains_text [] pattern = starts_with [] pattern
contains_text (c ∷ text) pattern = starts_with (c ∷ text) pattern || contains_text text pattern

-- "database is locked"
abbrev pub database_is_locked : Bytes
database_is_locked =
    100 ∷ 97 ∷ 116 ∷ 97 ∷ 98 ∷ 97 ∷ 115 ∷ 101 ∷ 32 ∷ 105 ∷ 115 ∷ 32 ∷ 108 ∷ 111 ∷ 99 ∷ 107 ∷ 101
    ∷ 100 ∷ []

-- "busy"
abbrev pub busy : Bytes
busy = 98 ∷ 117 ∷ 115 ∷ 121 ∷ []

unfoldable pub is_locked_error : DieselError → Bool
unfolding contains_text
is_locked_error (database_error message) =
    let msg = map to_lower message in contains_text msg database_is_locked || contains_text msg busy
is_locked_error (other_error _) = false

abbrev pub max_lock_retries : ℕ
max_lock_retries = 30

abbrev u64_max : ℕ
u64_max = 18446744073709551615

-- `10u64.saturating_mul(attempts)`
abbrev pub delay_ms : ℕ → ℕ
delay_ms attempts = if ltb u64_max (10 * attempts) then u64_max else 10 * attempts

-- What one execution of the statement or transaction gives.
pub data Attempt {ℓ} (A : Type ℓ) : Type ℓ where
  done : A → Attempt A
  failed : DieselError → Attempt A

-- The loop: `execute n` is the outcome of the execution after `n` retries. The result is the last
-- outcome with the time slept, or nothing if the fuel runs out.
unfoldable pub retry {ℓ} : {A : Type ℓ} → (ℕ → Attempt A) → ℕ → ℕ → ℕ → Option (Attempt A × ℕ)
retry execute zero attempts slept = none
retry execute (suc fuel) attempts slept =
    let again = retry execute fuel (attempts + 1) (slept + delay_ms (attempts + 1)) in
    elim (execute attempts) [
      | done a ↦ some (done a, slept)
      | failed e ↦
          if is_locked_error e && ltb attempts max_lock_retries
          then again
          else some (failed e, slept)
    ]

-- A write as the operations of the cache run it: from no retries, with fuel for all of them.
unfoldable pub with_retry {ℓ} : {A : Type ℓ} → (ℕ → Attempt A) → Option (Attempt A × ℕ)
unfolding retry
with_retry execute = retry execute (suc max_lock_retries) 0 0
