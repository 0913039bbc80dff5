-- ===== src/Fork/Cache/Prefix.antt =====
-- The exclusive upper bound of a range query by prefix: `prefix_upper_bound` and
-- `increment_prefix` of crates/pop-fork/src/cache.rs.
pub mod Laws
use pop_cli.Prelude.{
  ℕ, zero, suc, ◌+◌, Bool, true, ◌&&◌, List, [], ◌∷◌, reverse, Option, none, some, arith, ltb,
  length, get_elem?, set, take, if◌then◌else◌,
}
use pop_cli.Bytes.{Bytes, le_bytes, lt_bytes}

-- The `while` loop of `prefix_upper_bound`. The vector `upper` is held with its last byte first, so
-- that `last_mut` is the head and `pop` drops it.
bound_loop : Bytes → Option Bytes
bound_loop [] = none
bound_loop (last ∷ upper) =
    if ltb last 0xff then some (reverse ((last + 1) ∷ upper)) else bound_loop upper

pub prefix_upper_bound : Bytes → Option Bytes
unfolding bound_loop
prefix_upper_bound prefix = bound_loop (reverse prefix)

-- The `for` loop of `increment_prefix`: `i` goes down from the length.
increment_from : ℕ → Bytes → Option Bytes
increment_from zero result = none
increment_from (suc i) result =
    let rest = increment_from i result in
    elim (get_elem? result i) [
      | none ↦ none
      | some b ↦ if ltb b 0xff then some (take (suc i) (set result i (b + 1))) else rest
    ]

pub increment_prefix : Bytes → Option Bytes
unfolding increment_from
increment_prefix prefix = increment_from (length prefix) prefix

-- The filters `key >= prefix AND key < end` of a query, the second only if there is an end.
abbrev pub in_range : Option Bytes → Bytes → Bytes → Bool
in_range none prefix key = le_bytes prefix key
in_range (some end) prefix key = le_bytes prefix key && lt_bytes key end
