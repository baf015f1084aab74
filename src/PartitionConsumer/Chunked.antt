-- ===== src/PartitionConsumer/Chunked.antt =====
-- pulsar-client-go/pulsar/consumer_partition.go: messages in chunks. A uuid is a string that is only
-- compared: a natural number here. The goroutines that the map starts are logged, and run in Events.
pub mod Contexts
pub mod Assembly
pub mod Progress
pub mod Events
pub mod Streams
pub mod Calm
pub mod Stepping
pub mod Sequence
pub mod Roundtrip
pub mod Pending
mod Tests
use pr.Base.{
  Bool, List, Option, [], false, get_elem?, if◌then◌else◌, leb, length, ltb, none, not, replicate,
  set, some, suc, true, zero, ℕ, ◌&&◌, ◌++◌, ◌+◌, ◌-◌, ◌==◌, ◌||◌, ◌∷◌,
}
use pr.Base.Int.{ℤ, pos, negsuc, eqb_ℤ}
use pr.Message.{MessageId, Bytes, new_message_id}

-- The buffer's readable bytes; a missing chunk's id is `none`.
pub record ChunkedMsgCtx : Type 0 where
  pub total_chunks : ℕ
  pub chunked_msg_buffer : Bytes
  pub last_chunked_msg_id : ℤ
  pub chunked_msg_ids : List (Option MessageId)

abbrev pub new_chunked_msg_ctx : ℕ → ChunkedMsgCtx
new_chunked_msg_ctx num_chunks = record {
  total_chunks = num_chunks;
  chunked_msg_buffer = [];
  last_chunked_msg_id = negsuc 0;
  chunked_msg_ids = replicate num_chunks none;
}

-- `none` is the panic on an index out of range.
unfoldable pub append : ChunkedMsgCtx → ℕ → MessageId → Bytes → Option ChunkedMsgCtx
append c chunk_id msg_id part =
    if ltb chunk_id (length c.chunked_msg_ids)
    then some (record c {
      chunked_msg_ids = set c.chunked_msg_ids chunk_id (some msg_id);
      chunked_msg_buffer = c.chunked_msg_buffer ++ part;
      last_chunked_msg_id = pos chunk_id;
    })
    else none

abbrev pub first_chunk_id : ChunkedMsgCtx → Option MessageId
first_chunk_id c = elim (get_elem? c.chunked_msg_ids 0) [ none ↦ none | some id ↦ id ]

abbrev pub last_chunk_id : ChunkedMsgCtx → Option MessageId
last_chunk_id c = elim (get_elem? c.chunked_msg_ids (length c.chunked_msg_ids - 1)) [
  | none ↦ none
  | some id ↦ id
]

-- The ids that `discard` acknowledges.
abbrev pub discard : List (Option MessageId) → List MessageId
discard [] = []
discard (none ∷ ids) = discard ids
discard (some id ∷ ids) = id ∷ discard ids

abbrev pub Contexts : Type 0
Contexts = List (ℕ × ChunkedMsgCtx)

abbrev pub lookup : ℕ → Contexts → Option ChunkedMsgCtx
lookup uuid [] = none
lookup uuid ((k, c) ∷ cs) = if k == uuid then some c else lookup uuid cs

abbrev pub delete : ℕ → Contexts → Contexts
delete uuid [] = []
delete uuid ((k, c) ∷ cs) = if k == uuid then delete uuid cs else (k, c) ∷ delete uuid cs

abbrev pub update : ℕ → ChunkedMsgCtx → Contexts → Contexts
update uuid c [] = []
update uuid c ((k, d) ∷ cs) = if k == uuid then (k, c) ∷ cs else (k, d) ∷ update uuid c cs

abbrev pub remove_first : ℕ → List ℕ → List ℕ
remove_first uuid [] = []
remove_first uuid (k ∷ ks) = if k == uuid then ks else k ∷ remove_first uuid ks

-- `timers` are the uuids with a running `discardChunkIfExpire`, `spawned` the calls of
-- `discardOldestChunkMessage` that are to run, `acked` the ids given to `AckID`.
pub record ChunkedMsgCtxMap : Type 0 where
  pub chunked_msg_ctxs : Contexts
  pub pending_queue : List ℕ
  pub max_pending : ℕ
  pub closed : Bool
  pub timers : List ℕ
  pub spawned : ℕ
  pub acked : List MessageId

abbrev pub new_chunked_msg_ctx_map : ℕ → ChunkedMsgCtxMap
new_chunked_msg_ctx_map max_pending = record {
  chunked_msg_ctxs = [];
  pending_queue = [];
  max_pending = max_pending;
  closed = false;
  timers = [];
  spawned = 0;
  acked = [];
}

unfoldable pub add_if_absent : ChunkedMsgCtxMap → ℕ → ℕ → ChunkedMsgCtxMap
add_if_absent m uuid total_chunks =
    let m' : ChunkedMsgCtxMap = elim (lookup uuid m.chunked_msg_ctxs) [
      | some c ↦ m
      | none ↦ record m {
        chunked_msg_ctxs = (uuid, new_chunked_msg_ctx total_chunks) ∷ m.chunked_msg_ctxs;
        pending_queue = m.pending_queue ++ (uuid ∷ []);
        timers = m.timers ++ (uuid ∷ []);
      }
    ] in
    if m.closed
    then m
    else if ltb 0 m'.max_pending && ltb m'.max_pending (length m'.pending_queue)
    then record m' { spawned = m'.spawned + 1 }
    else m'

unfoldable pub get : ChunkedMsgCtxMap → ℕ → Option ChunkedMsgCtx
get m uuid = if m.closed then none else lookup uuid m.chunked_msg_ctxs

unfoldable pub remove : ChunkedMsgCtxMap → ℕ → ChunkedMsgCtxMap
remove m uuid = if m.closed then m else record m {
  chunked_msg_ctxs = delete uuid m.chunked_msg_ctxs;
  pending_queue = remove_first uuid m.pending_queue;
}

-- `none` is the panic on an empty queue, which a limit that is not positive lets through.
unfoldable pub discard_oldest_chunk_message : ChunkedMsgCtxMap → Bool → Option ChunkedMsgCtxMap
discard_oldest_chunk_message m auto_ack =
    if m.closed || (ltb 0 m.max_pending && leb (length m.pending_queue) m.max_pending)
    then some m
    else elim m.pending_queue [
      | [] ↦ none
      | oldest ∷ rest ↦ elim (lookup oldest m.chunked_msg_ctxs) [
        | none ↦ some m
        | some c ↦ some (record m {
          chunked_msg_ctxs = delete oldest m.chunked_msg_ctxs;
          acked = if auto_ack then m.acked ++ discard c.chunked_msg_ids else m.acked;
        })
      ]
    ]

unfoldable pub discard_chunk_message : ChunkedMsgCtxMap → ℕ → Bool → ChunkedMsgCtxMap
discard_chunk_message m uuid auto_ack =
    if m.closed then m else elim (lookup uuid m.chunked_msg_ctxs) [
      | none ↦ m
      | some c ↦ record m {
        chunked_msg_ctxs = delete uuid m.chunked_msg_ctxs;
        pending_queue = remove_first uuid m.pending_queue;
        acked = if auto_ack then m.acked ++ discard c.chunked_msg_ids else m.acked;
      }
    ]

abbrev pub close : ChunkedMsgCtxMap → ChunkedMsgCtxMap
close m = record m { closed = true }

-- What MessageReceived finds of a message that is whole: it cannot be read, the broker's
-- acknowledgement set lacks it, the start position or the acknowledgement tracker discards it, or it
-- goes to the application.
pub data Fate : Type 0 where
  corrupt acknowledged discarded duplicate delivered : Fate

-- A chunk that came. `chunk_id` and `num_chunks` are int32, not negative.
pub record Chunk : Type 0 where
  pub uuid : ℕ
  pub chunk_id : ℕ
  pub num_chunks : ℕ
  pub ledger : ℤ
  pub entry : ℤ
  pub part : Bytes
  -- of its message, if it is the last one
  pub fate : Fate

-- `id + 1`
abbrev pub next_id : ℤ → ℤ
next_id (pos n) = pos (n + 1)
next_id (negsuc zero) = pos 0
next_id (negsuc (suc n)) = negsuc n

-- The map, whether a permit comes back, and the whole payload if this was the last chunk.
abbrev pub Processed : Type 0
Processed = ChunkedMsgCtxMap × Bool × Option Bytes

-- From the lookup of the context on.
unfoldable pub assemble : ℤ → ChunkedMsgCtxMap → Chunk → Option Processed
unfolding get append remove
assemble partition_idx m k =
    let msg_id = new_message_id k.ledger k.entry (negsuc 0) partition_idx (pos 0) in
    elim (get m k.uuid) [
      | none ↦ some (remove m k.uuid, true, none)
      | some c ↦
          if not (eqb_ℤ (pos k.chunk_id) (next_id c.last_chunked_msg_id))
          then some (remove m k.uuid, true, none)
          else elim (append c k.chunk_id msg_id k.part) [
            | none ↦ none
            | some c' ↦
                let m' = record m { chunked_msg_ctxs = update k.uuid c' m.chunked_msg_ctxs } in
                some (
                  if not (k.chunk_id + 1 == k.num_chunks)
                  then (m', true, none)
                  else (m', false, some c'.chunked_msg_buffer))
          ]
    ]

unfoldable pub process_message_chunk : ℤ → ChunkedMsgCtxMap → Chunk → Option Processed
unfolding add_if_absent assemble
process_message_chunk partition_idx m k =
    assemble partition_idx (if k.chunk_id == 0 then add_if_absent m k.uuid k.num_chunks else m) k

-- The rest of MessageReceived: the map forgets a whole message only if it comes so far, and a message
-- that is not delivered gives its permit back.
unfoldable pub hand_over : ℤ → Chunk → Processed → Processed
unfolding remove
hand_over partition_idx k (m, permit, none) = (m, permit, none)
hand_over partition_idx k (m, permit, some payload) =
    let id = new_message_id k.ledger k.entry (pos 0) partition_idx (pos 1) in
    elim k.fate [
      | corrupt ↦ (m, true, none)
      | acknowledged ↦ (m, true, none)
      | discarded ↦ (record m { acked = m.acked ++ (id ∷ []) }, true, none)
      | duplicate ↦ (remove m k.uuid, true, none)
      | delivered ↦ (remove m k.uuid, permit, some payload)
    ]

-- A chunk in MessageReceived.
unfoldable pub receive_chunk : ℤ → ChunkedMsgCtxMap → Chunk → Option Processed
unfolding process_message_chunk hand_over
receive_chunk partition_idx m k = elim (process_message_chunk partition_idx m k) [
  | none ↦ none
  | some r ↦ some (hand_over partition_idx k r)
]
