-- ===== src/Server/ChainHead/Follow.antt =====
-- The events of a `chainHead` subscription, `follow` of
-- crates/pop-fork/src/rpc_server/methods/chain_head.rs, on a sink that takes every event. The head is
-- read before the server subscribes to the events of the fork. The runtime version in the first event
-- is left out, as are the operation events, which do not touch the others.
use pop_cli.Prelude.{◌≡◌, ◌≢◌, true, List, [], ◌∷◌, ◌++◌, map, arith, contains, All, ==_refl}
use pop_cli.Bytes.{Bytes, bytes_eq, bytes_beq_iff}
use pop_cli.Server.Hex.{Codec, from_bytes}

-- `BlockchainEvent::NewBlock`, with the fields that are forwarded.
pub record NewBlock : Type 0 where
  pub hash : Bytes
  pub parent_hash : Bytes

-- What the receiver of the broadcast channel gets.
pub data Received : Type 0 where
  block_event : NewBlock → Received
  lagged : Received
  closed : Received

pub data ChainHeadEvent : Type 0 where
  initialized : List Bytes → ChainHeadEvent
  new_block : Bytes → Bytes → ChainHeadEvent
  best_block_changed : Bytes → ChainHeadEvent
  -- finalized and pruned
  finalized : List Bytes → List Bytes → ChainHeadEvent

module _ (hex : Codec) where
  -- The arm of `select!` for blocks, until the channel is closed.
  unfoldable pub forward : List Received → List ChainHeadEvent
  forward [] = []
  forward (block_event block ∷ received) =
      new_block (from_bytes hex block.hash) (from_bytes hex block.parent_hash)
      ∷ best_block_changed (from_bytes hex block.hash)
      ∷ finalized (from_bytes hex block.hash ∷ []) []
      ∷ forward received
  forward (lagged ∷ received) = forward received
  forward (closed ∷ received) = []

  -- All that a client gets, if the head was `head` at the start.
  unfoldable pub stream : Bytes → List Received → List ChainHeadEvent
  unfolding forward
  stream head received =
      initialized (from_bytes hex head ∷ [])
      ∷ best_block_changed (from_bytes hex head)
      ∷ forward received

-- What the protocol asks of the events: a new block has a parent that was announced, and only what was
-- announced becomes the best block or is finalized.
abbrev pub Accepts : List Bytes → List ChainHeadEvent → Type 0
Accepts known [] = Unit {0}
Accepts known (initialized hashes ∷ events) = Accepts (hashes ++ known) events
Accepts known (new_block hash parent ∷ events) =
    (contains known parent ≡ true) × Accepts (hash ∷ known) events
Accepts known (best_block_changed hash ∷ events) =
    (contains known hash ≡ true) × Accepts known events
Accepts known (finalized hashes pruned ∷ events) =
    All (λ hash. contains known hash ≡ true) hashes × Accepts known events

-- Each block has the block before as its parent.
abbrev pub Linked : Bytes → List NewBlock → Type 0
Linked previous [] = Unit {0}
Linked previous (block ∷ blocks) = (block.parent_hash ≡ previous) × Linked block.hash blocks

module _ (hex : Codec) where
  contains_head : (hash : Bytes) (known : List Bytes) → contains (hash ∷ known) hash ≡ true
  contains_head hash known = rw (==_refl hash)

  forward-Accepts :
      (head : Bytes) (known : List Bytes) (blocks : List NewBlock)
      → Linked head blocks
      → contains known (from_bytes hex head) ≡ true
      → Accepts known (forward hex (map block_event blocks))
  unfolding forward
  forward-Accepts head known [] linked k = tt
  forward-Accepts head known (block ∷ blocks) linked k =
      let now = contains_head (from_bytes hex block.hash) known in
      (
        rw linked.0 k,
        (
          now,
          (
            (now, tt),
            forward-Accepts block.hash (from_bytes hex block.hash ∷ known) blocks linked.1 now,
          ),
        ),
      )

  -- The events of a subscription keep to the protocol if the blocks that it receives follow on the head
  -- that it read at the start; they do not if a block was built in between, so that the parent of the
  -- first block is not that head.
  pub stream-Accepts :
      (head : Bytes) (first : NewBlock) (blocks : List NewBlock)
      → (Linked head (first ∷ blocks)
          → Accepts [] (stream hex head (map block_event (first ∷ blocks))))
        × (from_bytes hex first.parent_hash ≢ from_bytes hex head
            → Accepts [] (stream hex head (map block_event (first ∷ blocks)))
            → ⊥)
  unfolding stream forward
  stream-Accepts head first blocks = (
    λ linked. (
      contains_head (from_bytes hex head) [],
      forward-Accepts head (from_bytes hex head ∷ []) (first ∷ blocks) linked
          (contains_head (from_bytes hex head) []),
    ),
    λ ne accepted. ground (
      arith,
      bytes_beq_iff (from_bytes hex head) (from_bytes hex first.parent_hash),
      accepted.1.0,
      ne,
    ),
  )
