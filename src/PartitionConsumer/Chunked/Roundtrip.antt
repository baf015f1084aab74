-- ===== src/PartitionConsumer/Chunked/Roundtrip.antt =====
-- The chunks of pulsar-client-go/pulsar/producer_partition.go at the consumer of
-- pulsar-client-go/pulsar/consumer_partition.go.
use pr.Base.{
  All, Bool, List, [], ap, arith, false, length, none, refl, some, subst, suc, sym, zero, ℕ, ◌++◌,
  ◌+◌, ◌<◌, ◌∙◌, ◌∷◌, ◌≡◌, ◌≢◌, ◌≤◌, ◌⊎◌,
}
use pr.Base.Int.{ℤ}
use pr.Message.{Bytes}
use pr.PartitionProducer.{Producer, SendRequest, PendingItem, Builder, chunk_request, internal_send}
use pr.PartitionProducer.Async.{chunks_of}
use pr.PartitionProducer.Chunks.{payloads, chunk_items, chunked-chunk_items, payloads-chunked}
use pr.PartitionConsumer.Chunked.{ChunkedMsgCtxMap, Chunk, delivered, new_chunked_msg_ctx_map}
use pr.PartitionConsumer.Chunked.Events.{ChunkEvent, receive_chunks}
use pr.PartitionConsumer.Chunked.Calm.{firsts}
use pr.PartitionConsumer.Chunked.Assembly.{IsFitting}
use pr.PartitionConsumer.Chunked.Streams.{came, expired, own, IsRun, parts, outputs}
use pr.PartitionConsumer.Chunked.Sequence.{receive_chunks-parts}

-- The chunk that an item of one request is at the broker, in this entry, of a message that is to be
-- delivered.
abbrev pub chunk_of : ℕ → ℤ × ℤ → SendRequest → Chunk
chunk_of u (ledger, entry) sr = record {
  uuid = u;
  chunk_id = elim sr.chunk_id [ none ↦ 0 | some k ↦ k ];
  num_chunks = sr.total_chunks;
  ledger = ledger;
  entry = entry;
  part = sr.compressed_payload;
  fate = delivered;
}

-- `place` are the ledger and the entry of each item, by its number.
abbrev pub stored : ℕ → (ℕ → ℤ × ℤ) → ℕ → List PendingItem → List Chunk
stored u place j [] = []
stored u place j (it ∷ its) =
    elim it.send_requests [ [] ↦ [] | sr ∷ srs ↦ chunk_of u (place j) sr ∷ [] ]
    ++ stored u place (j + 1) its

parts-stored :
    (u : ℕ) (place : ℕ → ℤ × ℤ) (now : ℕ) (sr : SendRequest) (left k j : ℕ)
    → parts (stored u place j (chunk_items now sr left k)) ≡ payloads (chunk_items now sr left k)
parts-stored u place now sr zero k j = refl
parts-stored u place now sr (suc left) k j =
    ap (λ t. (chunk_request sr k).compressed_payload ++ t)
      (parts-stored u place now sr left (k + 1) (j + 1))

stored-IsRun :
    (u : ℕ) (place : ℕ → ℤ × ℤ) (now : ℕ) (sr : SendRequest) (left k j : ℕ)
    → IsRun k (k + left) (stored u place j (chunk_items now sr left k))
stored-IsRun u place now sr zero k j = omega arith
stored-IsRun u place now sr (suc left) k j = (
  refl,
  subst (λ n. IsRun (k + 1) n (stored u place (j + 1) (chunk_items now sr left (k + 1))))
      (omega arith) (stored-IsRun u place now sr left (k + 1) (j + 1)),
)

stored-delivered :
    (u : ℕ) (place : ℕ → ℤ × ℤ) (now : ℕ) (sr : SendRequest) (left k j : ℕ)
    → All (λ c. c.fate ≡ delivered) (stored u place j (chunk_items now sr left k))
stored-delivered u place now sr zero k j = tt
stored-delivered u place now sr (suc left) k j =
    (refl, stored-delivered u place now sr left (k + 1) (j + 1))

-- A message that a producer, which is not being closed, has nothing pending and can serialize each
-- chunk, sends in several chunks, as many as its size asks for. Its items come, from whatever
-- entries, to a consumer without chunked messages in their order, among any chunks of other messages
-- which say what the others of their message say, and any ends of timers but its own; the limit on
-- incomplete messages is off or at least the number of first chunks that come, so that none is
-- discarded to make room; and the message, when whole, can be read and is neither acknowledged,
-- discarded nor a duplicate. Then the code does not panic and gives of this message one payload, the
-- one that was sent.
pub receive_chunks-internal_send :
    (b : Builder) (now : ℕ) (p : Producer) (sr : SendRequest) (u : ℕ) (place : ℕ → ℤ × ℤ)
    (total : ℕ → ℕ) (partition_idx : ℤ) (auto_ack : Bool) (max_pending : ℕ) (es : List ChunkEvent)
    → p.ctx_done ≡ false
    → p.pending ≡ []
    → ((r : SendRequest) → b.single r ≡ none)
    → sr.send_as_batch ≡ false
    → 0 < sr.payload_chunk_size
    → sr.total_chunks ≡ chunks_of (length sr.compressed_payload) sr.payload_chunk_size
    → 1 < sr.total_chunks
    → total u ≡ sr.total_chunks
    → All (IsFitting total) (came es)
    → (max_pending ≡ 0) ⊎ (firsts (came es) ≤ max_pending)
    → All (λ v. v ≢ u) (expired es)
    → own u (came es) ≡ stored u place 0 (internal_send b now p sr).pending
    → (m : ChunkedMsgCtxMap) × (out : List (ℕ × Bytes)) × (receive_chunks partition_idx auto_ack
          (new_chunked_msg_ctx_map max_pending)
          es
        ≡ some (m, out))
      × (outputs u out ≡ sr.compressed_payload ∷ [])
receive_chunks-internal_send b now p sr u place total partition_idx auto_ack max_pending es c idle n
      a positive t l tu fit room timers e =
    let its = chunk_items now sr sr.total_chunks 0 in
    let e' : own u (came es) ≡ stored u place 0 its =
      e
      ∙ ap (stored u place 0) (chunked-chunk_items b now p sr c n a l ∙ ap (λ x. x ++ its) idle) in
    let run : IsRun 0 (total u) (stored u place 0 its) =
      subst (λ x. IsRun 0 x (stored u place 0 its)) (omega (arith, tu))
        (stored-IsRun u place now sr sr.total_chunks 0 0) in
    let goes : All (λ k. k.fate ≡ delivered) (own u (came es)) =
      subst (All (λ k. k.fate ≡ delivered)) (sym e')
        (stored-delivered u place now sr sr.total_chunks 0 0) in
    let (m, out, em, eo) =
      receive_chunks-parts total partition_idx auto_ack max_pending u es fit room timers goes
        (subst (IsRun 0 (total u)) (sym e') run) (omega (arith, tu)) in
    (
      m,
      out,
      em,
      eo
          ∙ ap (λ x. x ∷ [])
              (ap parts e'
                ∙ parts-stored u place now sr sr.total_chunks 0 0
                ∙ payloads-chunked now sr positive t),
    )
