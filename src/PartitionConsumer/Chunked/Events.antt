-- ===== src/PartitionConsumer/Chunked/Events.antt =====
-- The chunks that come to pulsar-client-go/pulsar/consumer_partition.go and the goroutines that the
-- map of their messages starts, in any order.
use pr.Base.{
  Bool, List, Option, [], false, if◌then◌else◌, none, some, true, ℕ, ◌++◌, ◌-◌, ◌==◌, ◌∷◌,
}
use pr.Base.Int.{ℤ}
use pr.Message.{Bytes}
use pr.PartitionConsumer.Chunked.{
  ChunkedMsgCtxMap, Chunk, remove_first, discard_chunk_message, discard_oldest_chunk_message,
  receive_chunk,
}

-- A chunk comes, the timer of a message ends, or a spawned discard of the oldest message runs.
pub data ChunkEvent : Type 0 where
  comes : Chunk → ChunkEvent
  expires : ℕ → ChunkEvent
  discards : ChunkEvent

abbrev pub has_timer : ℕ → List ℕ → Bool
has_timer uuid [] = false
has_timer uuid (k ∷ ks) = if k == uuid then true else has_timer uuid ks

-- The end of a timer that runs. The goroutine is started with `autoAck` true.
unfoldable pub discard_chunk_if_expire : ChunkedMsgCtxMap → ℕ → ChunkedMsgCtxMap
unfolding discard_chunk_message
discard_chunk_if_expire m uuid =
    if has_timer uuid m.timers
    then discard_chunk_message (record m { timers = remove_first uuid m.timers }) uuid true
    else m

-- One of the goroutines that wait to discard the oldest message, if there is one.
unfoldable pub run_discard : ChunkedMsgCtxMap → Bool → Option ChunkedMsgCtxMap
unfolding discard_oldest_chunk_message
run_discard m auto_ack =
    if m.spawned == 0
    then some m
    else discard_oldest_chunk_message (record m { spawned = m.spawned - 1 }) auto_ack

abbrev pub output : ℕ → Option Bytes → List (ℕ × Bytes)
output uuid none = []
output uuid (some payload) = (uuid, payload) ∷ []

-- The payloads that are handed over, with their messages.
abbrev pub Received : Type 0
Received = Option (ChunkedMsgCtxMap × List (ℕ × Bytes))

-- `auto_ack` is the option autoAckIncompleteChunk.
unfoldable pub chunk_step : ℤ → Bool → ChunkedMsgCtxMap → ChunkEvent → Received
unfolding receive_chunk discard_chunk_if_expire run_discard
chunk_step partition_idx auto_ack m (comes k) = elim (receive_chunk partition_idx m k) [
  | none ↦ none
  | some (m', permit, payload) ↦ some (m', output k.uuid payload)
]
chunk_step partition_idx auto_ack m (expires uuid) = some (discard_chunk_if_expire m uuid, [])
chunk_step partition_idx auto_ack m discards = elim (run_discard m auto_ack) [
  | none ↦ none
  | some m' ↦ some (m', [])
]

unfoldable pub receive_chunks : ℤ → Bool → ChunkedMsgCtxMap → List ChunkEvent → Received
unfolding chunk_step
receive_chunks partition_idx auto_ack m [] = some (m, [])
receive_chunks partition_idx auto_ack m (e ∷ es) = elim (chunk_step partition_idx auto_ack m e) [
  | none ↦ none
  | some (m', out) ↦ elim (receive_chunks partition_idx auto_ack m' es) [
    | none ↦ none
    | some (m'', outs) ↦ some (m'', out ++ outs)
  ]
]
