-- ===== src/Fork/Header/Laws.antt =====
-- The slot of a header against the time that the timestamp inherent sets.
use pop_cli.Prelude.{
  ℕ, ltb, nat_beq, false, ◌/◌, ◌<◌, ◌≡◌, refl, ◌∙◌, ap, [], ◌∷◌, append_nil, Option, none, some,
  arith,
}
use pop_cli.Bytes.{Bytes}
use pop_cli.Fork.Result.{ok}
use pop_cli.Fork.Monad.{returns, Ensures, returned, after-Ensures, weaken-Ensures}
use pop_cli.Fork.Rpc.{Rpc, IsHonest}
use pop_cli.Fork.Remote.{Env}
use pop_cli.Fork.Remote.Sound.{IsCacheOf}
use pop_cli.Fork.Local.{Shared, LocalSharedValue, version_at, metadata_at, get}
use pop_cli.Fork.Local.Timeline.{Timeline, observe}
use pop_cli.Fork.Local.Refine.{value_of, get-observe}
use pop_cli.Fork.Block.{Block, fields, layer_of, block_metadata}
use pop_cli.Fork.Block.Laws.{IsHead}
use pop_cli.Fork.Builder.{Runtime}
use pop_cli.Fork.Header.{
  Libraries, ConsensusType, aura, babe, unknown, saturating_add, calculate_next_slot, stored,
  slot_digest, next_slot, detect_consensus_type, slot_items, create_next_header,
  create_next_header_with_slot, timestamp_inherent, provide, lenient_timestamp, strict_timestamp,
}

next_slot-positive :
    (time d : ℕ) → 0 < d → calculate_next_slot time d ≡ ok (saturating_add time d / d)
unfolding calculate_next_slot
next_slot-positive time d p = ground arith

stored_lem :
    {rpc : Rpc} (libraries : Libraries rpc) (o : Option LocalSharedValue)
    → stored libraries o ≡ value_of o
stored_lem libraries none = refl
stored_lem libraries (some v) = refl

not_zero : (d : ℕ) → 0 < d → nat_beq d 0 ≡ false
not_zero d p = ground arith

not_before : (a b : ℕ) → a < b → ltb b a ≡ false
not_before a b l = ground arith

known_metadata :
    {rpc : Rpc} (shared : Shared rpc) (parent : Block) (m : rpc.Metadata) (env : Env rpc)
    → (fields parent).handle.first_forked_block_number < (fields parent).number
    → version_at (fields parent).number shared.metadata_versions ≡ some m
    → block_metadata rpc shared parent env ≡ returns m env
unfolding block_metadata metadata_at
known_metadata shared parent m env l e =
    rw (not_before (fields parent).handle.first_forked_block_number (fields parent).number l, e)
      refl

module _ {rpc : Rpc} {chain : Bytes → Bytes → Option Bytes} {Fails : Type 0}
    (honest : IsHonest rpc chain Fails) (libraries : Libraries rpc) (runtime : Runtime rpc)
    (shared : Shared rpc) (parent : Block) (env : Env rpc) (t : Timeline) (m : rpc.Metadata)
    (head : IsHead shared parent env.db t) (cached : IsCacheOf chain env.db)
    (after_fork : (fields parent).handle.first_forked_block_number < (fields parent).number)
    (known : version_at (fields parent).number shared.metadata_versions ≡ some m) where
  abbrev now_bytes : Option Bytes
  now_bytes =
      observe (chain (fields parent).handle.first_forked_block_hash) t (fields parent).number
        libraries.timestamp_now_key

  read_now :
      Ensures
        (λ o _. stored libraries o ≡ now_bytes)
        (λ _. Fails)
        (get rpc (layer_of shared parent) (fields parent).number libraries.timestamp_now_key env)
  read_now =
      weaken-Ensures
        (get-observe honest (layer_of shared parent) env cached t head.refines
          (fields parent).number libraries.timestamp_now_key after_fork (omega (arith, head.next)))
        (λ o _ q. stored_lem libraries o ∙ q.0) (λ _ q. q.0)

  module _ (bytes : Bytes) (time d : ℕ) (positive : 0 < d) (seen : now_bytes ≡ some bytes)
      (decoded : libraries.decode_u64 bytes ≡ some time) where
    lenient-seen :
        (o : Option Bytes) (s : Env rpc)
        → o ≡ now_bytes
        → lenient_timestamp libraries o s ≡ returns time s
    lenient-seen o s e = rw (e, seen, decoded) refl

    strict-seen :
        (o : Option Bytes) (s : Env rpc)
        → o ≡ now_bytes
        → strict_timestamp libraries o s ≡ returns time s
    strict-seen o s e = rw (e, seen, decoded) refl

    abbrev next_time : ℕ
    next_time = saturating_add time d

    next_slot_lem :
        (c : ConsensusType)
        → Ensures
            (λ slot _. slot ≡ next_time / d)
            (λ _. Fails)
            (next_slot libraries runtime shared parent m c (some d) env)
    unfolding next_slot
    next_slot_lem c = after-Ensures _ read_now λ o s e.
        rw (lenient-seen (stored libraries o) s e, next_slot-positive time d positive)
          (returned refl)

    slot_items_lem :
        (c : ConsensusType)
        → Ensures
            (λ items _. items ≡ slot_digest libraries c (next_time / d))
            (λ _. Fails)
            (slot_items libraries runtime shared parent m [] (some d) c env)
    unfolding slot_items slot_digest
    slot_items_lem aura = after-Ensures _ (next_slot_lem aura) (λ slot s e. returned (rw e refl))
    slot_items_lem babe = after-Ensures _ (next_slot_lem babe) (λ slot s e. returned (rw e refl))
    slot_items_lem unknown = returned refl

    header_lem :
        Ensures
          (λ h _.
            h
            ≡ create_next_header libraries parent
                (slot_digest libraries (detect_consensus_type libraries m) (next_time / d)))
          (λ _. Fails)
          (create_next_header_with_slot libraries runtime shared parent [] (some d) env)
    unfolding create_next_header_with_slot
    header_lem = rw (known_metadata shared parent m env after_fork known) (
        after-Ensures _ (slot_items_lem (detect_consensus_type libraries m))
          (λ items s e. returned (ap (create_next_header libraries parent) (append_nil items ∙ e))))

    provide_lem :
        (fallback pallet set_call : ℕ)
        → libraries.set_call_index m ≡ some (pallet, set_call)
        → Ensures
            (λ r _. r ≡ (timestamp_inherent libraries pallet set_call next_time ∷ [], d))
            (λ _. Fails)
            (provide libraries fallback d runtime shared parent env)
    unfolding provide
    provide_lem fallback pallet set_call index =
        rw (known_metadata shared parent m env after_fork known, index, not_zero d positive)
          (after-Ensures _ read_now
            (λ o s e. rw (strict-seen (stored libraries o) s e) (returned refl)))

    -- Over a head after the fork point whose stored timestamp decodes, with the slot duration known, the
    -- header of the next block and the timestamp inherent agree: the inherent sets the timestamp one
    -- duration on (capped to 64 bits), and the digest that the consensus of the chain asks for has the
    -- slot that this time falls in. Both fail only if the node lets them.
    pub create_next_header_with_slot-provide :
        (fallback pallet set_call : ℕ)
        → libraries.set_call_index m ≡ some (pallet, set_call)
        → Ensures
            (λ r _.
              r ≡ (timestamp_inherent libraries pallet set_call (saturating_add time d) ∷ [], d))
            (λ _. Fails)
            (provide libraries fallback d runtime shared parent env)
          × Ensures
              (λ h _.
                h
                ≡ create_next_header libraries parent (
                    slot_digest libraries
                      (detect_consensus_type libraries m)
                      (saturating_add time d / d)))
              (λ _. Fails)
              (create_next_header_with_slot libraries runtime shared parent [] (some d) env)
    create_next_header_with_slot-provide fallback pallet set_call index =
        (provide_lem fallback pallet set_call index, header_lem)
