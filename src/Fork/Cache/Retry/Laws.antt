-- ===== src/Fork/Cache/Retry/Laws.antt =====
-- How the retry loop ends.
use pop_cli.Prelude.{
  ℕ, zero, suc, ◌+◌, ◌*◌, ◌≤◌, ◌<◌, ◌≡◌, refl, ◌⊎◌, inl, inr, Bool, true, false, ◌&&◌, Option, some,
  arith, ltb, Bool-cases, ◌∙◌,
}
use pop_cli.Fork.Cache.Retry.{
  DieselError, is_locked_error, max_lock_retries, delay_ms, Attempt, done, failed, retry,
  with_retry,
}

abbrev pub is_locked {ℓ} : {A : Type ℓ} → Attempt A → Bool
is_locked (done a) = false
is_locked (failed e) = is_locked_error e

Attempt-cases {ℓ} :
    {A : Type ℓ} (t : Attempt A) → ((a : A) × (t ≡ done a)) ⊎ ((e : DieselError) × (t ≡ failed e))
Attempt-cases (done a) = inl (a, refl)
Attempt-cases (failed e) = inr (e, refl)

-- The loop ended at execution `i` after sleeping `s` ms: those from `from` on before it met a lock,
-- and it did not or was the last one allowed; before the retry number `k` it slept `10 k` ms.
pub record EndsAt {ℓ} {A : Type ℓ} (execute : ℕ → Attempt A) (from slept i s : ℕ)
    (r : Option (Attempt A × ℕ)) : Type ℓ where
  pub result : r ≡ some (execute i, s)
  pub waited : s + 5 * (from * (from + 1)) ≡ slept + 5 * (i * (i + 1))
  pub first : from ≤ i
  pub allowed : i ≤ max_lock_retries
  pub locked : (j : ℕ) → from ≤ j → j < i → is_locked (execute j) ≡ true
  pub last : (is_locked (execute i) ≡ false) ⊎ (i ≡ max_lock_retries)

retry-stop {ℓ} :
    {A : Type ℓ} (execute : ℕ → Attempt A) (fuel from slept : ℕ)
    → (is_locked (execute from) && ltb from max_lock_retries) ≡ false
    → retry execute (suc fuel) from slept ≡ some (execute from, slept)
unfolding retry
retry-stop execute fuel from slept h = elim (Attempt-cases (execute from)) [
  | inl (a, e) ↦ rw (e, retry)
  | inr (x, e) ↦ rw (e, retry) (rw (rw e at h))
]

retry-again {ℓ} :
    {A : Type ℓ} (execute : ℕ → Attempt A) (fuel from slept : ℕ)
    → (is_locked (execute from) && ltb from max_lock_retries) ≡ true
    → retry execute (suc fuel) from slept
      ≡ retry execute fuel (from + 1) (slept + delay_ms (from + 1))
unfolding retry
retry-again execute fuel from slept h = elim (Attempt-cases (execute from)) [
  | inl (a, e) ↦ absurd (ground arith)
  | inr (x, e) ↦ rw (e, retry) (rw (rw e at h))
]

retry-EndsAt {ℓ} :
    {A : Type ℓ} (execute : ℕ → Attempt A) (fuel from slept : ℕ)
    → from ≤ max_lock_retries
    → max_lock_retries < fuel + from
    → (i : ℕ) × (s : ℕ) × EndsAt execute from slept i s (retry execute fuel from slept)
retry-EndsAt execute zero from slept b h = absurd (omega arith)
retry-EndsAt execute (suc fuel) from slept b h =
    elim (Bool-cases (is_locked (execute from) && ltb from max_lock_retries)) [
      | inl go ↦
          let (i, s, ends) =
            retry-EndsAt execute fuel (from + 1) (slept + delay_ms (from + 1)) (ground arith)
              (omega arith) in
          (
            i,
            s,
            record {
              result = retry-again execute fuel from slept go ∙ ends.result;
              waited = ground (arith, ends.waited);
              first = omega (arith, ends.first);
              allowed = ends.allowed;
              locked = λ j l g. ground (arith, ends.locked j);
              last = ends.last;
            },
          )
      | inr stop ↦ (
        from,
        slept,
        record {
          result = retry-stop execute fuel from slept stop;
          waited = refl;
          first = omega arith;
          allowed = b;
          locked = λ j l g. absurd (omega arith);
          last = ground arith;
        },
      )
    ]

-- A write always ends: with the outcome of the first execution that meets no lock, or of the
-- execution after 30 retries, and never more than 31 executions; after `i` retries it has slept
-- 5 i (i + 1) ms.
pub with_retry-EndsAt {ℓ} :
    {A : Type ℓ} (execute : ℕ → Attempt A)
    → (i : ℕ) × (s : ℕ) × EndsAt execute 0 0 i s (with_retry execute)
unfolding with_retry
with_retry-EndsAt execute =
    retry-EndsAt execute (suc max_lock_retries) 0 0 (omega arith) (omega arith)
