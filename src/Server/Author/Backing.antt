-- ===== src/Server/Author/Backing.antt =====
-- The fork behind the `author` methods: validation, and a block with one extrinsic.
use pop_cli.Prelude.{◌≡◌, refl, ◌∙◌, sym, ap, List, [], ◌∷◌, ◌++◌, Option, none, some}
use pop_cli.Bytes.{Bytes}
use pop_cli.Fork.Result.{Error}
use pop_cli.Fork.Monad.{
  Outcome, ◌>>=◌, pure, Ensures, returned, raised, after-Ensures, weaken-Ensures,
}
use pop_cli.Fork.Rpc.{Rpc, IsHonest}
use pop_cli.Fork.Remote.{Env}
use pop_cli.Fork.Remote.Sound.{IsCacheOf}
use pop_cli.Fork.Remote.Sound.Keeping.{Replying}
use pop_cli.Fork.Local.Timeline.{Timeline, Refines-same}
use pop_cli.Fork.Block.{fields, layer_of}
use pop_cli.Fork.Block.Laws.{IsHead}
use pop_cli.Fork.Builder.{RuntimeCallResult, validate_transaction}
use pop_cli.Fork.Builder.Laws.{Splits, split_none, split_included, split_failed}
use pop_cli.Fork.Builder.Inherents.{Filled}
use pop_cli.Fork.Builder.Hosts.{Hosts, Unharmed}
use pop_cli.Fork.Blockchain.Build.{Engine, Fork, build_block}
use pop_cli.Fork.Blockchain.Build.Laws.{build_block-Succeeds}
use pop_cli.Fork.Blockchain.Validate.{
  TransactionValidityError, validated, validate_extrinsic, external,
}
use pop_cli.Server.Hex.{Codec, from_bytes}
use pop_cli.Server.Author.{
  AuthorBuildResult, AuthorBlockchain, TransactionStatus, ready, broadcast, in_block, finalized,
  invalid_hex, invalid_transaction_status, invalid_dispatch, dropped,
}

-- `impl AuthorBlockchain for Blockchain`
abbrev pub fork_author :
    {rpc : Rpc} → Engine rpc → (Bytes → Option (Option TransactionValidityError)) → AuthorBlockchain
fork_author engine decode = record {
  World = Fork engine;
  validate_extrinsic = validate_extrinsic engine decode;
  build_block = λ xs. build_block engine xs >>= λ r. pure (record {
    block_number = (fields r.block).number;
    block_hash = (fields r.block).hash;
    failed = r.failed;
  });
}

pub Splits-single :
    (x : Bytes) (included : List Bytes) → Splits (x ∷ []) included [] → included ≡ x ∷ []
Splits-single _ _ (split_included x split_none) = refl

pub Splits-none :
    (x : Bytes) (included : List Bytes) (f : Bytes × Bytes) (rest : List (Bytes × Bytes))
    → Splits (x ∷ []) included (f ∷ rest)
    → included ≡ []
Splits-none _ _ _ _ (split_failed x reason split_none) = refl
Splits-none _ _ _ _ (split_included _ h) = elim h [ ]

module _ {rpc : Rpc} (engine : Engine rpc) where
  -- The head follows the one before, and has the inherents of the providers and then these.
  abbrev pub Built : List Bytes → Fork engine → Fork engine → Type 0
  Built included before after =
      ((fields after.head).parent_hash ≡ (fields before.head).hash)
      × (inherents : List Bytes) × (Filled (engine.runtime before.executor) before.head [] inherents
          × ((fields after.head).extrinsics ≡ inherents ++ included))

module _ {rpc : Rpc} (engine : Engine rpc) (hex : Codec) where
  -- All that can be sent, with what it says of the fork before and after the request.
  pub data Tells (before after : Fork engine) : Option Bytes → List TransactionStatus → Type 0 where
    not_hex : after.head ≡ before.head → Tells before after none (invalid_hex ∷ [])
    not_valid :
        (bytes : Bytes) (e : TransactionValidityError)
        → after.head ≡ before.head
        → Tells before after (some bytes) (invalid_transaction_status e ∷ [])
    was_included :
        (bytes hash : Bytes)
        → hash ≡ from_bytes hex (fields after.head).hash
        → Built engine (bytes ∷ []) before after
        → Tells before after (some bytes) (ready ∷ broadcast ∷ in_block hash ∷ finalized hash ∷ [])
    was_not_dispatched :
        (bytes reason : Bytes)
        → Built engine [] before after
        → Tells before after (some bytes) (ready ∷ broadcast ∷ invalid_dispatch reason ∷ [])
    was_not_built :
        (bytes : Bytes) (e : Error)
        → after.head ≡ before.head
        → Tells before after (some bytes) (ready ∷ broadcast ∷ dropped e ∷ [])

module _ {rpc : Rpc} {chain : Bytes → Bytes → Option Bytes} {Fails : Type 0}
    (honest : IsHonest rpc chain Fails) (replying : Replying rpc) (engine : Engine rpc)
    (hosts : (executor : engine.Executor) → Hosts chain (engine.runtime executor))
    (decode : Bytes → Option (Option TransactionValidityError)) where
  -- Validation leaves the head, and it stays the head of the fork.
  pub validate_extrinsic-IsHead :
      (bytes : Bytes) (fork : Fork engine) (t : Timeline)
      → IsHead fork.shared fork.head fork.env.db t
      → IsCacheOf chain fork.env.db
      → Ensures
          (λ _ s.
            ((s.head ≡ fork.head) × (s.executor ≡ fork.executor))
            × IsHead s.shared s.head s.env.db t
            × IsCacheOf chain s.env.db)
          (λ _. ⊥)
          (validate_extrinsic engine decode bytes fork)
  unfolding validate_extrinsic
  validate_extrinsic-IsHead bytes fork t h c =
      go
        ((engine.runtime fork.executor).execute validate_transaction
          (external ∷ bytes ++ (fields fork.head).hash) (layer_of fork.shared fork.head) fork.env)
        ((hosts fork.executor).executes validate_transaction
          (external ∷ bytes ++ (fields fork.head).hash) (layer_of fork.shared fork.head) fork.env)
    where
      head_at :
          (env : Env rpc)
          → Unharmed chain fork.env.db env.db
          → IsHead fork.shared fork.head env.db t
      head_at env u = record {
        chain = h.chain;
        refines = Refines-same (layer_of fork.shared fork.head) fork.env.db env.db t u.0 h.refines;
        next = h.next;
      }

      go :
          (o : Outcome (Env rpc) RuntimeCallResult)
          → Ensures
              (λ _ env. Unharmed chain fork.env.db env.db)
              (λ env. Unharmed chain fork.env.db env.db)
              o
          → Ensures
              (λ _ s.
                ((s.head ≡ fork.head) × (s.executor ≡ fork.executor))
                × IsHead s.shared s.head s.env.db t
                × IsCacheOf chain s.env.db)
              (λ _. ⊥)
              (validated engine decode fork o)
      go _ (returned {s = env} u) = returned ((refl, refl), head_at env u, u.1 c)
      go _ (raised {s = env} u) = returned ((refl, refl), head_at env u, u.1 c)

  -- What a block with the one extrinsic is.
  abbrev pub Made : Bytes → Fork engine → AuthorBuildResult → Fork engine → Type 0
  Made bytes fork r s =
      (r.block_hash ≡ (fields s.head).hash)
      × (included : List Bytes) × (Built engine included fork s
          × Splits (bytes ∷ []) included r.failed)

  pub build_block-Made :
      (bytes : Bytes) (fork : Fork engine) (t : Timeline)
      → IsHead fork.shared fork.head fork.env.db t
      → IsCacheOf chain fork.env.db
      → Ensures
          (λ r s. Made bytes fork r s)
          (λ s. s.head ≡ fork.head)
          ((fork_author engine decode).build_block (bytes ∷ []) fork)
  build_block-Made bytes fork t h c =
      after-Ensures _
        (weaken-Ensures (build_block-Succeeds honest replying engine hosts (bytes ∷ []) fork t h c)
          (λ _ _ q. q) (λ _ u. u.same_head))
        (λ r s q. returned (
          ap (λ block. (fields block).hash) (sym q.1),
          r.included,
          (
            (
              ap (λ block. (fields block).parent_hash) q.1 ∙ q.0.1.child_of,
              q.0.1.inherents,
              (q.0.1.filled, ap (λ block. (fields block).extrinsics) q.1 ∙ q.0.1.same_extrinsics),
            ),
            q.0.0,
          ),
        ))
