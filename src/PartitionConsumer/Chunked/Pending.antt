-- ===== src/PartitionConsumer/Chunked/Pending.antt =====
-- The limit on incomplete messages in chunks, in pulsar-client-go/pulsar/consumer_partition.go.
use pr.Base.{
  Bool, List, arith, false, if◌then◌else◌, leb, length, refl, some, ℕ, ◌++◌, ◌<◌, ◌∷◌, ◌≡◌,
}
use pr.PartitionConsumer.Chunked.{
  ChunkedMsgCtx, ChunkedMsgCtxMap, lookup, delete, discard, discard_oldest_chunk_message,
  discard_chunk_message,
}
use pr.PartitionConsumer.Chunked.Contexts.{lookup-delete_self}

-- Over the limit, the oldest message's context is discarded, and its chunks that came are
-- acknowledged if so asked, but its uuid stays at the head of the queue: discarding the oldest once
-- more changes nothing, and nor does its timer.
pub discard_oldest_chunk_message-twice :
    (m : ChunkedMsgCtxMap) (oldest : ℕ) (rest : List ℕ) (c : ChunkedMsgCtx)
    (auto_ack again expired : Bool)
    → m.closed ≡ false
    → m.max_pending < length m.pending_queue
    → m.pending_queue ≡ oldest ∷ rest
    → lookup oldest m.chunked_msg_ctxs ≡ some c
    → (m' : ChunkedMsgCtxMap) × (discard_oldest_chunk_message m auto_ack ≡ some m')
      × (m'.acked ≡ (if auto_ack then m.acked ++ discard c.chunked_msg_ids else m.acked))
      × (m'.pending_queue ≡ oldest ∷ rest)
      × (discard_oldest_chunk_message m' again ≡ some m')
      × (discard_chunk_message m' oldest expired ≡ m')
unfolding discard_oldest_chunk_message discard_chunk_message
discard_oldest_chunk_message-twice m oldest rest c auto_ack again expired live over head here =
    let m' = record m {
      chunked_msg_ctxs = delete oldest m.chunked_msg_ctxs;
      acked = if auto_ack then m.acked ++ discard c.chunked_msg_ids else m.acked;
    } in
    let late : leb (length m.pending_queue) m.max_pending ≡ false = ground arith in
    let gone = lookup-delete_self oldest m.chunked_msg_ctxs in
    (
      m',
      ground (arith, live, late, head, here),
      refl,
      head,
      ground (arith, live, late, head, gone),
      ground (arith, live, gone),
    )
