-- ===== src/Fork/Tests/OfBlocks.antt =====
-- The properties of the pool, of blocks, of their lookups and of their building at concrete inputs.
use pop_cli.Prelude.{
  ℕ, ◌<◌, ◌≡◌, refl, sym, false, [], ◌∷◌, ◌++◌, some, arith, if◌then◌else◌, inr, ◌⊎◌,
}
use pop_cli.Bytes.{Bytes, bytes_beq}
use pop_cli.Fork.Result.{ok}
use pop_cli.Fork.Monad.{◌>>=◌, returns, Ensures, returned}
use pop_cli.Fork.Cache.Blocks.{u32_max}
use pop_cli.Fork.Local.{get, new, set}
use pop_cli.Fork.Local.Refine.{value_of, SameHistory_refl}
use pop_cli.Fork.Builder.Phases.{Refuses, one_stage}
use pop_cli.Fork.Builder.Writes.{Keeps, write_all}
use pop_cli.Fork.Block.{Fields, Block, fork_block, child_block, fields, layer_of, child}
use pop_cli.Fork.Block.Laws.{IsHead, child-observe}
use pop_cli.Fork.Blockchain.{
  find_block, block_hash_at, number_by_hash, block_body, block_parent_hash, get_storage_value,
}
use pop_cli.Fork.Blockchain.Laws.{On, block_hash_at_lem}
use pop_cli.Fork.Builder.{
  RuntimeCallResult, inherents_applied, Runtime, Building, initialize, apply_inherents,
  apply_extrinsic, apply_all, finalize,
}
use pop_cli.Fork.Builder.Laws.{Answers, Applied, apply_extrinsic-Applied, Splits, apply_all-Splits}
use pop_cli.Fork.Builder.Finish.{Finalizes, Finished, finalize-Finished}
use pop_cli.Fork.Blockchain.Storage.{Retried, get_storage_value-observe}
use pop_cli.Fork.Tests.Data.{
  built_layer, built_db, built_env, built_timeline, built_first, built-Refines, built_db-IsCacheOf,
  after_fork_11, fork_hash, alice, bob, test_rpc, test_honest, warm_db, test_env, warm_db-IsCacheOf,
  written, written_timeline, written-Refines,
}

-- A hash for the tests.
abbrev pub test_hash : Bytes → Bytes
test_hash bytes = 5 ∷ bytes

-- The fork point, with a value written since.
abbrev pub block_10 : Block
block_10 = fork_block (record {
  number = 10;
  hash = fork_hash;
  parent_hash = 6 ∷ [];
  header = 1 ∷ [];
  extrinsics = (8 ∷ []) ∷ [];
  handle = written.handle;
})

pub block_10-IsHead : IsHead written.shared block_10 warm_db written_timeline
unfolding new set
block_10-IsHead = record { chain = refl; refines = written-Refines; next = refl }

-- The child shows the value written before it was made.
child-observe_example :
    Ensures
      (λ o _. value_of o ≡ some (80 ∷ []))
      (λ _. (u32_max < 12) ⊎ ⊥)
      ((child test_rpc written.shared block_10 (9 ∷ []) (2 ∷ []) ((3 ∷ []) ∷ []) >>= λ block'.
          get test_rpc (layer_of written.shared block') (fields block').number alice)
        test_env)
child-observe_example =
    child-observe test_honest written.shared block_10 test_env written_timeline (9 ∷ []) (2 ∷ [])
      ((3 ∷ []) ∷ []) alice block_10-IsHead warm_db-IsCacheOf

-- A fork of two blocks.
abbrev block_11 : Block
block_11 =
    child_block
      (record {
        number = 11;
        hash = 9 ∷ [];
        parent_hash = fork_hash;
        header = 2 ∷ [];
        extrinsics = (3 ∷ []) ∷ [];
        handle = written.handle;
      })
      block_10

block_hash_at_lem_example :
    (f : Fields) × (f.number ≡ 10)
    × On f block_11
    × (block_hash_at test_rpc block_11 10 test_env ≡ returns (some f.hash) test_env)
    × (number_by_hash test_rpc block_11 f.hash test_env ≡ returns (some 10) test_env)
    × (block_body test_rpc block_11 f.hash test_env ≡ returns (some f.extrinsics) test_env)
    × (block_parent_hash test_rpc block_11 f.hash test_env ≡ returns (some f.parent_hash) test_env)
unfolding find_block
block_hash_at_lem_example =
    block_hash_at_lem test_rpc 10 10 block_11 test_env (refl, refl, refl) (refl, tt) (omega arith)
      (omega arith)

-- A runtime that dispatches the extrinsic 1 and fails all others, and writes `bob` with each call.
abbrev pub test_runtime : Runtime test_rpc
test_runtime = record {
  execute = λ api arguments layer env.
      returns
        (record {
          output = if bytes_beq arguments (1 ∷ []) then 0 ∷ 0 ∷ [] else 1 ∷ [];
          storage_diff = (bob, some (1 ∷ [])) ∷ [];
        })
        env;
  providers = [];
  blake2_256 = test_hash;
  code_key = 58 ∷ [];
  decode_metadata = λ output. ok 5;
  has_para_inherent = λ metadata. false;
  para_inherent_included_key = 77 ∷ [];
}

test_runtime-Answers : Answers test_runtime ⊥
test_runtime-Answers = record { executes = λ api arguments layer env. returned tt }

test_runtime-Keeps : Keeps test_runtime ⊥
test_runtime-Keeps = record {
  executes = λ api arguments layer env. returned (SameHistory_refl env.db);
  decodes = λ output. inr (5, refl);
}

-- A builder with its inherents applied.
abbrev open_building : Building test_rpc
open_building = record {
  env = test_env;
  shared = written.shared;
  parent = block_10;
  extrinsics = (8 ∷ []) ∷ [];
  header = 2 ∷ [];
  phase = inherents_applied;
}

one_stage_example :
    (Refuses (apply_inherents test_runtime) open_building
      × Refuses (apply_extrinsic test_runtime (1 ∷ [])) open_building
      × Refuses (finalize test_runtime) open_building)
    ⊎ ((Refuses (initialize test_runtime) open_building
          × Refuses (apply_extrinsic test_runtime (1 ∷ [])) open_building
          × Refuses (finalize test_runtime) open_building)
        ⊎ (Refuses (initialize test_runtime) open_building
            × Refuses (apply_inherents test_runtime) open_building))
one_stage_example = one_stage test_runtime (1 ∷ []) open_building

apply_extrinsic-Applied_example :
    Ensures
      (λ r s.
        Applied test_runtime test_runtime-Answers (1 ∷ []) open_building r s
        × (s.parent ≡ block_10)
        × (s.header ≡ 2 ∷ [])
        × (s.phase ≡ inherents_applied))
      (λ _. ⊥)
      (apply_extrinsic test_runtime (1 ∷ []) open_building)
apply_extrinsic-Applied_example =
    apply_extrinsic-Applied test_runtime test_runtime-Answers (1 ∷ []) open_building refl

-- Of two extrinsics the first is included and the second fails.
apply_all-Splits_example :
    Ensures
      (λ r s.
        Splits ((1 ∷ []) ∷ (2 ∷ []) ∷ []) r.0 r.1
        × (s.extrinsics ≡ ((8 ∷ []) ∷ []) ++ r.0)
        × (s.parent ≡ block_10)
        × (s.header ≡ 2 ∷ [])
        × (s.phase ≡ inherents_applied))
      (λ _. ⊥)
      (apply_all test_runtime ((1 ∷ []) ∷ (2 ∷ []) ∷ []) open_building)
apply_all-Splits_example =
    apply_all-Splits test_runtime test_runtime-Answers ((1 ∷ []) ∷ (2 ∷ []) ∷ []) open_building refl

finalize-Finished_example :
    Ensures
      (λ block s.
        (result : RuntimeCallResult) × Finalizes test_runtime test_runtime-Keeps open_building
          result
        × Finished test_runtime test_runtime-Keeps open_building
            (write_all written_timeline result.storage_diff)
            block
            s
        × ((fields block).header ≡ result.output))
      (λ _. ⊥ ⊎ (u32_max < 12))
      (finalize test_runtime open_building)
finalize-Finished_example =
    finalize-Finished test_runtime test_runtime-Keeps open_building written_timeline refl
      block_10-IsHead

-- The head of the fork after two blocks.
abbrev pub bare : ℕ → Bytes → Bytes → Fields
bare number hash parent_hash = record {
  number = number;
  hash = hash;
  parent_hash = parent_hash;
  header = [];
  extrinsics = [];
  handle = built_layer.handle;
}

abbrev built_head : Block
built_head =
    child_block (bare 12 (12 ∷ []) (11 ∷ []))
      (child_block (bare 11 (11 ∷ []) fork_hash) (fork_block (bare 10 fork_hash [])))

built_head-IsHead : IsHead built_layer.shared built_head built_db built_timeline
built_head-IsHead = record {
  chain = (refl, refl, (refl, refl, sym built_first));
  refines = built-Refines;
  next = refl;
}

-- `alice` is read as 80 at block 11, after its deletion in block 12.
get_storage_value-observe_example :
    Ensures
      (λ v _. v ≡ some (80 ∷ []))
      (λ s.
        ⊥
        × Retried test_rpc
            (get test_rpc (layer_of built_layer.shared built_head) 11 alice)
            built_env
            s)
      (get_storage_value test_rpc built_layer.shared built_head 11 alice built_env)
get_storage_value-observe_example =
    get_storage_value-observe test_honest built_layer.shared built_head built_env built_timeline 11
      alice built_head-IsHead built_db-IsCacheOf after_fork_11 (omega arith)
