-- ===== src/Fork/Blockchain/Storage.antt =====
-- Reads of storage through the chain of blocks.
use pop_cli.Prelude.{ℕ, ◌≤◌, ◌<◌, ◌≡◌, refl, ◌∙◌, ◌⊎◌, inl, inr, Option, none, some, arith}
use pop_cli.Bytes.{Bytes}
use pop_cli.Fork.Result.{Error}
use pop_cli.Fork.Monad.{
  Outcome, returns, raises, stuck, M, Ensures, returned, raised, after-Ensures, weaken-Ensures,
}
use pop_cli.Fork.Rpc.{Rpc, Reply, IsHonest}
use pop_cli.Fork.Remote.{Env, call}
use pop_cli.Fork.Remote.Sound.{IsCacheOf}
use pop_cli.Fork.Local.{Shared, LocalSharedValue, get}
use pop_cli.Fork.Local.Timeline.{Timeline, observe, Refines}
use pop_cli.Fork.Local.Refine.{value_of, get-observe}
use pop_cli.Fork.Block.{Block, fields, layer_of}
use pop_cli.Fork.Block.Laws.{IsHead}
use pop_cli.Fork.Blockchain.{with_upstream, retry_upstream, get_storage_value}

with_upstream-Ensures :
    {rpc : Rpc} {A : Type 0} {Q : A → Env rpc → Type 0} {E : Env rpc → Type 0} (m : M (Env rpc) A)
    (env : Env rpc)
    → Ensures Q E (m env)
    → ((s : Env rpc) → E s → Ensures (λ _ s'. E s') E (call rpc rpc.reconnect s))
    → ((s : Env rpc) → E s → Ensures Q E (m s))
    → Ensures Q E (with_upstream rpc m env)
unfolding with_upstream retry_upstream
with_upstream-Ensures {rpc} {A} {Q} {E} m env first reconnect again = go (m env) first
  where
    second :
        (e : Error) (o : Outcome (Env rpc) (Unit {0}))
        → Ensures (λ _ s'. E s') E o
        → Ensures Q E (elim o [ returns _ s' ↦ m s' | raises _ s' ↦ raises e s' | stuck ↦ stuck ])
    second e _ (returned q) = again _ q
    second e _ (raised f) = raised f

    go : (o : Outcome (Env rpc) A) → Ensures Q E o → Ensures Q E (retry_upstream rpc m o)
    go _ (returned q) = returned q
    go _ (raised {e} {s} f) = second e (call rpc rpc.reconnect s) (reconnect s f)

-- It failed, and then the reconnection failed, or it failed again.
abbrev pub Retried : (rpc : Rpc) {A : Type 0} → M (Env rpc) A → Env rpc → Env rpc → Type 0
Retried rpc {A} m env s =
    (e : Error) × (s₁ : Env rpc) × ((m env ≡ raises e s₁)
      × (((e' : Error) × (call rpc rpc.reconnect s₁ ≡ raises e' s))
          ⊎ ((s₂ : Env rpc) × ((call rpc rpc.reconnect s₁ ≡ returns tt s₂)
                × ((e' : Error) × (m s₂ ≡ raises e' s))))))

-- An error ends a read only after a second try.
with_upstream-Retried :
    {rpc : Rpc} {A : Type 0} {Q : A → Env rpc → Type 0} {E : Env rpc → Type 0} (m : M (Env rpc) A)
    (env : Env rpc)
    → Ensures Q E (with_upstream rpc m env)
    → Ensures Q (λ s. E s × Retried rpc m env s) (with_upstream rpc m env)
unfolding with_upstream retry_upstream
with_upstream-Retried {rpc} {A} {Q} {E} m env h = go (m env) refl h
  where
    again :
        (e : Error) (s₁ s₂ : Env rpc)
        → m env ≡ raises e s₁
        → call rpc rpc.reconnect s₁ ≡ returns tt s₂
        → (o : Outcome (Env rpc) A) → m s₂ ≡ o
        → Ensures Q E o
        → Ensures Q (λ s. E s × Retried rpc m env s) o
    again e s₁ s₂ p r _ q (returned a) = returned a
    again e s₁ s₂ p r _ q (raised {e = e'} f) = raised (f, (e, s₁, (p, inr (s₂, (r, (e', q))))))

    second :
        (e : Error) (s₁ : Env rpc)
        → m env ≡ raises e s₁
        → (o : Outcome (Env rpc) (Unit {0})) → call rpc rpc.reconnect s₁ ≡ o
        → Ensures Q E (elim o [ returns _ s' ↦ m s' | raises _ s' ↦ raises e s' | stuck ↦ stuck ])
        → Ensures Q
            (λ s. E s × Retried rpc m env s)
            (elim o [ returns _ s' ↦ m s' | raises _ s' ↦ raises e s' | stuck ↦ stuck ])
    second e s₁ p (returns _ s₂) r h = again e s₁ s₂ p r (m s₂) refl h
    second e s₁ p (raises e' s₂) r (raised f) = raised (f, (e, s₁, (p, inl (e', r))))
    second e s₁ p stuck r h = elim h [ ]

    go :
        (o : Outcome (Env rpc) A)
        → m env ≡ o
        → Ensures Q E (retry_upstream rpc m o)
        → Ensures Q (λ s. E s × Retried rpc m env s) (retry_upstream rpc m o)
    go (returns a s) p (returned q) = returned q
    go (raises e s₁) p h = second e s₁ p (call rpc rpc.reconnect s₁) refl h
    go stuck p h = elim h [ ]

module _ {rpc : Rpc} {chain : Bytes → Bytes → Option Bytes} {Fails : Type 0}
    (honest : IsHonest rpc chain Fails) (shared : Shared rpc) (head : Block) (t : Timeline) (n : ℕ)
    (k : Bytes) (lo : (fields head).handle.first_forked_block_number < n) (hi : n ≤ t.now) where
  -- The cache agrees with the chain, and the layer shows the timeline.
  abbrev Kept : Env rpc → Type 0
  Kept s = IsCacheOf chain s.db × Refines (layer_of shared head) s.db t

  abbrev Failed : Env rpc → Type 0
  Failed s = Fails × Kept s

  abbrev here : Option Bytes
  here = observe (chain (fields head).handle.first_forked_block_hash) t n k

  read :
      (s : Env rpc)
      → Kept s
      → Ensures
          (λ o s'. (value_of o ≡ here) × Kept s')
          Failed
          (get rpc (layer_of shared head) n k s)
  read s q =
      weaken-Ensures (get-observe honest (layer_of shared head) s q.0 t q.1 n k lo hi)
        (λ _ _ r. (r.0, (r.1, r.2))) (λ _ r. (r.0, (r.1, r.2)))

  value_lem :
      (o : Option LocalSharedValue) → (elim o [ none ↦ none | some v ↦ v.value ]) ≡ value_of o
  value_lem none = refl
  value_lem (some v) = refl

  reconnects :
      (s : Env rpc) → Failed s → Ensures (λ _ s'. Failed s') Failed (call rpc rpc.reconnect s)
  reconnects s q = go (rpc.reconnect s.world) (honest.reconnect_reply s.world)
    where
      go :
          (o : Outcome rpc.World (Unit {0}))
          → Reply (λ _. Unit {0}) Fails o
          → Ensures (λ _ s'. Failed s') Failed (call rpc (λ _. o) s)
      go (returns a w) r = returned q
      go (raises e w) r = raised q
      go stuck r = absurd r

  pub get_storage_value-keeps :
      (env : Env rpc)
      → Kept env
      → Ensures
          (λ v s. (v ≡ here) × Kept s)
          (λ s. Failed s × Retried rpc (get rpc (layer_of shared head) n k) env s)
          (get_storage_value rpc shared head n k env)
  unfolding get_storage_value
  get_storage_value-keeps env q =
      after-Ensures _
        (with_upstream-Retried (get rpc (layer_of shared head) n k) env (
          with_upstream-Ensures (get rpc (layer_of shared head) n k) env (read env q) reconnects
            (λ s f. read s f.1)))
        (λ o s r. returned (value_lem o ∙ r.0, r.1))

-- A read through the chain of blocks, at a block of the fork after the fork point, ends with what the
-- timeline shows there over the state of the fork point, or fails. It fails only if the node lets it,
-- and only if the read of the layer failed and after that the reconnection failed, or it succeeded and a
-- second read failed.
pub get_storage_value-observe :
    {rpc : Rpc} {chain : Bytes → Bytes → Option Bytes} {Fails : Type 0}
    (honest : IsHonest rpc chain Fails) (shared : Shared rpc) (head : Block) (env : Env rpc)
    (t : Timeline) (n : ℕ) (k : Bytes)
    → IsHead shared head env.db t
    → IsCacheOf chain env.db
    → (fields head).handle.first_forked_block_number < n
    → n ≤ (fields head).number
    → Ensures
        (λ v _. v ≡ observe (chain (fields head).handle.first_forked_block_hash) t n k)
        (λ s. Fails × Retried rpc (get rpc (layer_of shared head) n k) env s)
        (get_storage_value rpc shared head n k env)
get_storage_value-observe honest shared head env t n k h c lo hi =
    weaken-Ensures
      (get_storage_value-keeps honest shared head t n k lo (omega (arith, hi, h.next)) env
        (c, h.refines))
      (λ _ _ r. r.0) (λ _ r. (r.0.0, r.1))
