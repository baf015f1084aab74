-- ===== src/PartitionConsumer/Chunked/Tests.antt =====
-- Chunks that come to the consumer of pulsar-client-go/pulsar/consumer_partition.go.
use pr.Base.{All, List, [], arith, false, inr, none, refl, some, true, ℕ, ◌∷◌, ◌≡◌}
use pr.Base.Int.{pos}
use pr.Message.{Bytes}
use pr.PartitionProducer.{Builder, Producer, SendRequest, ready, internal_send}
use pr.PartitionProducer.Async.{blank}
use pr.PartitionProducer.Handlers.{new_producer}
use pr.PartitionConsumer.Chunked.{
  ChunkedMsgCtxMap, Chunk, new_chunked_msg_ctx, new_chunked_msg_ctx_map, delivered,
  discard_oldest_chunk_message, discard_chunk_message,
}
use pr.PartitionConsumer.Chunked.Assembly.{IsFitting}
use pr.PartitionConsumer.Chunked.Events.{ChunkEvent, comes, expires, discards, receive_chunks}
use pr.PartitionConsumer.Chunked.Streams.{came, own, outputs}
use pr.PartitionConsumer.Chunked.Sequence.{receive_chunks-parts}
use pr.PartitionConsumer.Chunked.Roundtrip.{stored, receive_chunks-internal_send}
use pr.PartitionConsumer.Chunked.Pending.{discard_oldest_chunk_message-twice}

abbrev chunk : ℕ → ℕ → ℕ → Bytes → Chunk
chunk u k n part = record {
  uuid = u;
  chunk_id = k;
  num_chunks = n;
  ledger = pos 3;
  entry = pos k;
  part = part;
  fate = delivered;
}

-- Two messages, one of which lacks a chunk, and its timer ends.
abbrev mixed : List ChunkEvent
mixed =
    comes (chunk 8 0 2 (1 ∷ 2 ∷ []))
    ∷ comes (chunk 9 0 2 (5 ∷ []))
    ∷ discards
    ∷ expires 9
    ∷ comes (chunk 8 1 2 (3 ∷ []))
    ∷ []

mixed-IsFitting : All (IsFitting (λ u. 2)) (came mixed)
mixed-IsFitting = (
  record { chunks = refl; within = omega arith },
  (
    record { chunks = refl; within = omega arith },
    (record { chunks = refl; within = omega arith }, tt),
  ),
)

receive_chunks-parts_example :
    (m : ChunkedMsgCtxMap) × (out : List (ℕ × Bytes)) × (receive_chunks
        (pos 0)
        true
        (new_chunked_msg_ctx_map 5)
        mixed
      ≡ some (m, out))
    × (outputs 8 out ≡ (1 ∷ 2 ∷ 3 ∷ []) ∷ [])
receive_chunks-parts_example =
    receive_chunks-parts (λ u. 2) (pos 0) true 5 8 mixed mixed-IsFitting (inr (omega arith))
      (omega arith, tt) (refl, (refl, tt)) (refl, (refl, refl)) (omega arith)

abbrev builder : Builder
builder = record { adds = λ srs sr. false; flushed = λ srs. inr 0; single = λ sr. none }

-- Three bytes in chunks of two.
abbrev large : SendRequest
large = record (blank 0 false false) {
  total_chunks = 2;
  compressed_payload = 1 ∷ 2 ∷ 3 ∷ [];
  payload_chunk_size = 2;
}

mixed-stored :
    own 8 (came mixed)
    ≡ stored 8
        (λ j. (pos 3, pos j))
        0
        (internal_send builder 1 (new_producer ready 0) large).pending
unfolding internal_send pr.PartitionProducer.write_data
mixed-stored = refl

receive_chunks-internal_send_example :
    (m : ChunkedMsgCtxMap) × (out : List (ℕ × Bytes)) × (receive_chunks
        (pos 0)
        true
        (new_chunked_msg_ctx_map 5)
        mixed
      ≡ some (m, out))
    × (outputs 8 out ≡ (1 ∷ 2 ∷ 3 ∷ []) ∷ [])
receive_chunks-internal_send_example =
    receive_chunks-internal_send builder 1 (new_producer ready 0) large 8 (λ j. (pos 3, pos j))
      (λ u. 2) (pos 0) true 5 mixed refl refl (λ r. refl) refl (omega arith) refl (omega arith) refl
      mixed-IsFitting (inr (omega arith)) (omega arith, tt) mixed-stored

-- One message more than the limit.
abbrev crowded : ChunkedMsgCtxMap
crowded = record (new_chunked_msg_ctx_map 1) {
  chunked_msg_ctxs = (6, new_chunked_msg_ctx 2) ∷ (7, new_chunked_msg_ctx 2) ∷ [];
  pending_queue = 6 ∷ 7 ∷ [];
}

discard_oldest_chunk_message-twice_example :
    (m : ChunkedMsgCtxMap) × (discard_oldest_chunk_message crowded true ≡ some m)
    × (m.acked ≡ [])
    × (m.pending_queue ≡ 6 ∷ 7 ∷ [])
    × (discard_oldest_chunk_message m true ≡ some m)
    × (discard_chunk_message m 6 true ≡ m)
discard_oldest_chunk_message-twice_example =
    discard_oldest_chunk_message-twice crowded 6 (7 ∷ []) (new_chunked_msg_ctx 2) true true true
      refl (omega arith) refl refl
