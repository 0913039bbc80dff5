-- ===== src/Fork/Tests/OfBuild.antt =====
-- Concrete inputs for the header of the next block and for `build_block`.
use pop_cli.Prelude.{◌/◌, ◌≡◌, refl, sym, ap, [], ◌∷◌, none, some, arith, inl, inr, false, List}
use pop_cli.Fork.Monad.{Outcome, returns, raises, stuck, Ensures, returned}
use pop_cli.Fork.Remote.Sound.Keeping.{Replying}
use pop_cli.Fork.Local.{Layer, version_at, set, new}
use pop_cli.Fork.Local.Refine.{SameHistory_refl}
use pop_cli.Fork.Local.Runs.{IsCacheOf-storage}
use pop_cli.Fork.Local.Timeline.{Refines, seal}
use pop_cli.Fork.Local.Commit.{commit-Refines}
use pop_cli.Fork.Cache.Tables.{Db}
use pop_cli.Fork.Block.{Block, child_block, fork_block, fields}
use pop_cli.Fork.Block.Laws.{IsHead}
use pop_cli.Fork.Builder.Laws.{Splits}
use pop_cli.Fork.Builder.Hosts.{Hosts}
use pop_cli.Fork.Header.{
  Libraries, saturating_add, slot_digest, detect_consensus_type, timestamp_inherent, provide,
  create_next_header, create_next_header_with_slot,
}
use pop_cli.Fork.Header.Laws.{create_next_header_with_slot-provide}
use pop_cli.Fork.Blockchain.Build.{
  Engine, Fork, Built, BuildBlockResult, event_of, build_on, commit_head, announce, build_block,
}
use pop_cli.Fork.Blockchain.Build.Concurrent.{
  Pending, waiting, built, swapped, asked, built_on, build_failed, head_swapped, lost, announced,
  Reach, start, step,
}
use pop_cli.Fork.Blockchain.Build.Preparing.{Untouched, Follows}
use pop_cli.Fork.Blockchain.Build.Laws.{build_block-Succeeds}
use pop_cli.Fork.Tests.OfBlocks.{block_10, block_10-IsHead, bare, test_runtime}
use pop_cli.Fork.Tests.Data.{
  fork_hash, alice, test_chain, test_rpc, test_honest, warm_db, test_env, warm_db-IsCacheOf,
  written, written_timeline, written-Refines,
}

-- Encodings that show what is encoded; a timestamp is its first byte.
abbrev test_libraries : Libraries test_rpc
test_libraries = record {
  has_pallet = λ metadata name. false;
  expected_block_time = λ metadata. none;
  set_call_index = λ metadata. some (3, 0);
  timestamp_now_key = alice;
  encode_u32 = λ n. n ∷ [];
  encode_u64 = λ n. n ∷ [];
  decode_u64 = λ bytes. elim bytes [ [] ↦ none | byte ∷ _ ↦ some byte ];
  encode_compact = λ n. n ∷ [];
  encode_header = λ parent_hash number items. number ∷ parent_hash;
  system_time = λ w. 0;
}

-- The fork after one block, in which `alice` has the value 80.
committed :
    (layer : Layer test_rpc) × (db : Db) × Refines layer db (seal written_timeline)
    × (layer.first_forked_block_number ≡ written.first_forked_block_number)
    × (layer.shared ≡ written.shared)
    × (db.storage ≡ warm_db.storage)
committed = elim (commit-Refines written test_env written_timeline written-Refines) [
  | inl (over, e) ↦ absurd (omega (arith, over))
  | inr (layer, db, e, r, sh, sf, same, ss) ↦ (layer, db, r, sf, same, ss)
]

abbrev head_11 : Block
head_11 =
    child_block (record (bare 11 (11 ∷ []) fork_hash) { handle = committed.0.handle })
      (fork_block (bare 10 fork_hash []))

first_10 : committed.0.first_forked_block_number ≡ 10
unfolding set new
first_10 = committed.3

head_11-IsHead : IsHead committed.0.shared head_11 committed.1 (seal written_timeline)
head_11-IsHead = record { chain = (refl, refl, sym first_10); refines = committed.2; next = refl }

known_11 : version_at 11 committed.0.shared.metadata_versions ≡ some 5
unfolding set new version_at
known_11 = ap (λ shared. version_at 11 shared.metadata_versions) committed.4

-- With slots of 6 units the inherent sets 86, in slot 14.
create_next_header_with_slot-provide_example :
    Ensures
      (λ r _. r ≡ (timestamp_inherent test_libraries 3 0 (saturating_add 80 6) ∷ [], 6))
      (λ _. ⊥)
      (provide test_libraries 12000 6 test_runtime committed.0.shared head_11
        (record test_env { db = committed.1 }))
    × Ensures
        (λ h _.
          h
          ≡ create_next_header test_libraries head_11 (
              slot_digest test_libraries
                (detect_consensus_type test_libraries 5)
                (saturating_add 80 6 / 6)))
        (λ _. ⊥)
        (create_next_header_with_slot test_libraries test_runtime committed.0.shared head_11 []
          (some 6)
          (record test_env { db = committed.1 }))
create_next_header_with_slot-provide_example =
    create_next_header_with_slot-provide test_honest test_libraries test_runtime committed.0.shared
      head_11 (record test_env { db = committed.1 }) (seal written_timeline) 5 head_11-IsHead
      (IsCacheOf-storage test_chain warm_db committed.1 committed.5 warm_db-IsCacheOf)
      (rw first_10 (omega arith)) known_11 (80 ∷ []) 80 6 (omega arith) refl refl 12000 3 0 refl

pub test_replying : Replying test_rpc
test_replying = record { block_by_number_ends = λ n w. returned tt }

abbrev pub test_engine : Engine test_rpc
test_engine = record {
  Executor = Unit {0};
  runtime = λ executor. test_runtime;
  with_config = λ code. none;
  invalidate_cache = λ w. w;
  libraries = test_libraries;
}

pub test_hosts : Hosts test_chain test_runtime
test_hosts = record {
  executes = λ api arguments layer env. returned (SameHistory_refl env.db, λ c. c);
  provides = tt;
}

abbrev pub test_fork : Fork test_engine
test_fork = record {
  env = test_env;
  shared = written.shared;
  head = block_10;
  executor = tt;
  cached_slot_duration = 6;
  events = [];
}

build_block-Succeeds_example :
    Ensures
      (λ r s.
        (Splits ((1 ∷ []) ∷ (2 ∷ []) ∷ []) r.included r.failed
          × Follows test_honest test_replying test_engine
              (λ _. test_hosts)
              tt
              block_10
              11
              r.included
              r.block
              s.shared
              s.env.db)
        × (s.head ≡ r.block)
        × (s.events ≡ event_of test_engine s.shared s.head ∷ []))
      (λ s. Untouched test_honest test_replying test_engine (λ _. test_hosts) test_fork s)
      (build_block test_engine ((1 ∷ []) ∷ (2 ∷ []) ∷ []) test_fork)
build_block-Succeeds_example =
    build_block-Succeeds test_honest test_replying test_engine (λ _. test_hosts)
      ((1 ∷ []) ∷ (2 ∷ []) ∷ []) test_fork written_timeline block_10-IsHead warm_db-IsCacheOf

-- Two builds that start from the same head.
two_builds :
    Reach test_engine test_fork test_fork
      (waiting block_10 ((2 ∷ []) ∷ []) ∷ waiting block_10 ((1 ∷ []) ∷ []) ∷ [])
two_builds =
    step (step start (asked ((1 ∷ []) ∷ []) test_fork []))
      (asked ((2 ∷ []) ∷ []) test_fork (waiting block_10 ((1 ∷ []) ∷ []) ∷ []))

abbrev Reached : Type 0
Reached =
    (fork : Fork test_engine) × (pending : List (Pending test_engine)) × Reach test_engine test_fork
      fork pending

-- The first of them is built, swaps the head and is announced, as far as it gets.
first_announced :
    (fork : Fork test_engine) (made : Built test_engine)
    → Reach test_engine test_fork fork (swapped made ∷ waiting block_10 ((1 ∷ []) ∷ []) ∷ [])
    → (o : Outcome (Fork test_engine) BuildBlockResult) → announce test_engine made fork ≡ o
    → Reached
first_announced fork made r (returns x t) e = (t, _, step r (announced [] _ made x fork t e))
first_announced fork made r (raises x t) e = (fork, _, r)
first_announced fork made r stuck e = (fork, _, r)

first_swapped :
    (fork : Fork test_engine) (made : Built test_engine)
    → Reach test_engine test_fork fork (built block_10 made ∷ waiting block_10 ((1 ∷ []) ∷ []) ∷ [])
    → (o : Outcome (Fork test_engine) (Unit {0}))
    → commit_head test_engine (fields block_10).hash made fork ≡ o
    → Reached
first_swapped fork made r (returns u t) e =
    first_announced t made (step r (head_swapped [] _ block_10 made u fork t e))
      (announce test_engine made t) refl
first_swapped fork made r (raises x t) e = (t, _, step r (lost [] _ block_10 made x fork t e))
first_swapped fork made r stuck e = (fork, _, r)

first_built :
    (o : Outcome (Fork test_engine) (Built test_engine))
    → build_on test_engine block_10 ((2 ∷ []) ∷ []) test_fork ≡ o
    → Reached
first_built (returns made t) e =
    first_swapped t made (step two_builds (built_on [] _ block_10 _ made test_fork t e))
      (commit_head test_engine (fields block_10).hash made t) refl
first_built (raises x t) e = (t, _, step two_builds (build_failed [] _ block_10 _ x test_fork t e))
first_built stuck e = (test_fork, _, two_builds)

abbrev reached : Reached
reached = first_built (build_on test_engine block_10 ((2 ∷ []) ∷ []) test_fork) refl
