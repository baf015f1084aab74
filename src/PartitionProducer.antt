-- ===== src/PartitionProducer.antt =====
-- pulsar-client-go/pulsar/producer_partition.go: the state of a partition's producer, the end of a
-- request, and the way of a request to the pending queue. The methods run one at a time here. The
-- queue of pending items is the list that Queue refines; the semaphore and the memory limit stand
-- here by what they count. The message ids of chunks, interceptors and metrics are left out.
pub mod Async
pub mod Handlers
pub mod Weights
pub mod Balance
pub mod Settle
pub mod Admit
pub mod Steps
pub mod Chunks
pub mod Leaks
pub mod Overlap
pub mod Timeouts
mod Tests
use Prim.Native.Nat.{min}
use pr.Base.{
  Bool, List, Option, [], drop, false, if◌then◌else◌, inl, inr, leb, length, none, not, some, sub32,
  sub64, suc, take, true, zero, ℕ, ◌%◌, ◌&&◌, ◌*◌, ◌++◌, ◌+◌, ◌-◌, ◌==◌, ◌^◌, ◌||◌, ◌∷◌, ◌⊎◌,
}

abbrev pub Bytes : Type 0
Bytes = List ℕ

pub data ProducerState : Type 0 where
  initial connecting ready closing closed : ProducerState

pub data SendError : Type 0 where
  producer_closed send_timeout send_queue_is_full context_expired context_ended : SendError
  message_too_large meta_too_large memory_buffer_is_full invalid_message : SendError
  schema_failed transaction_failed fail_add_to_batch serialize_failed : SendError
  topic_not_found topic_terminated quota_exceeded producer_fenced : SendError

-- What a callback is told: where the message is, or the error.
pub data Outcome : Type 0 where
  sent : (ledger entry batch_idx batch_size : ℕ) → Outcome
  failed : SendError → Outcome

pub record ProducerOptions : Type 0 where
  pub disable_batching : Bool
  pub disable_multi_schema : Bool
  pub enable_chunking : Bool
  pub chunk_max_message_size : ℕ
  pub disable_block_if_queue_full : Bool
  pub max_pending_messages : ℕ
  pub send_timeout : ℕ
  pub schema : Option ℕ

-- `id` is the call of SendAsync, which chunks share; a chunk id is `none` for -1.
pub record SendRequest : Type 0 where
  pub id : ℕ
  pub total_chunks : ℕ
  pub chunk_id : Option ℕ
  pub has_semaphore : Bool
  pub reserved_semaphore : ℕ
  pub has_mem : Bool
  pub reserved_mem : ℕ
  pub sequence_id : ℕ
  pub send_as_batch : Bool
  pub flush_immediately : Bool
  pub in_transaction : Bool
  pub uncompressed_payload : Bytes
  pub compressed_payload : Bytes
  pub payload_chunk_size : ℕ
  pub max_message_size : ℕ

pub record PendingItem : Type 0 where
  pub sequence_id : ℕ
  pub created_at : ℕ
  pub send_requests : List SendRequest
  pub is_done : Bool
  pub flush_callbacks : List ℕ

-- `permits` is an int32 and `used_mem` an int64 word. `callbacks`, `txn_ends` and `flushes` log the
-- calls of callbacks, of endSendOrAckOp and of flush callbacks, `written` what the connection was
-- given. `issued` counts the calls of SendAsync.
pub record Producer : Type 0 where
  pub state : ProducerState
  pub ctx_done : Bool
  pub permits : ℕ
  pub mem_limit : ℕ
  pub used_mem : ℕ
  pub data_chan : List SendRequest
  pub batch : List SendRequest
  pub pending : List PendingItem
  pub callbacks : List (ℕ × Outcome)
  pub txn_ends : List (ℕ × Outcome)
  pub flushes : List (ℕ × Option SendError)
  pub written : List ℕ
  pub last_sequence_id : ℕ
  pub connection_closed : Bool
  pub issued : ℕ

abbrev pub is_closing_or_closed : ProducerState → Bool
is_closing_or_closed closing = true
is_closing_or_closed closed = true
is_closing_or_closed _ = false

abbrev pub is_ready : ProducerState → Bool
is_ready ready = true
is_ready _ = false

abbrev pub called : ℕ → List (ℕ × Outcome) → Bool
called id [] = false
called id ((k, r) ∷ cs) = (k == id) || called id cs

abbrev pub is_last_chunk : SendRequest → Bool
is_last_chunk sr = elim sr.chunk_id [ none ↦ true | some k ↦ k + 1 == sr.total_chunks ]

-- `sr.done`: the semaphore, the memory, and the callback of the whole message, once. A chunk that is
-- not the last one stays silent.
unfoldable pub done : Producer → SendRequest → Outcome → Producer
done p sr r =
    let ends = leb sr.total_chunks 1 || is_last_chunk sr in
    record p {
      permits = if sr.has_semaphore then sub32 p.permits 1 else p.permits;
      used_mem = if sr.has_mem then sub64 p.used_mem (sr.reserved_mem % 2 ^ 64) else p.used_mem;
      callbacks =
          if ends && not (called sr.id p.callbacks)
          then p.callbacks ++ ((sr.id, r) ∷ [])
          else p.callbacks;
      txn_ends = if ends && sr.in_transaction then p.txn_ends ++ ((sr.id, r) ∷ []) else p.txn_ends;
    }

unfoldable pub done_all : Producer → List SendRequest → SendError → Producer
done_all p [] e = p
done_all p (sr ∷ srs) e = done_all (done p sr (failed e)) srs e

-- `now` is the clock.
unfoldable pub write_data : ℕ → Producer → ℕ → List SendRequest → Producer
write_data now p sequence_id callbacks =
    if p.ctx_done then done_all p callbacks producer_closed else record p {
      written = if is_ready p.state then p.written ++ (sequence_id ∷ []) else p.written;
      pending =
          p.pending
          ++ (record {
            sequence_id = sequence_id;
            created_at = now;
            send_requests = callbacks;
            is_done = false;
            flush_callbacks = [];
          }
              ∷ []);
    }

-- What the producer uses of a BatchBuilder with one container, of the requests that are in it:
-- whether `Add` takes another, and what `Flush` gives: an error, or the sequence number. `single` is
-- the error of SingleSend.
pub record Builder : Type 0 where
  pub adds : List SendRequest → SendRequest → Bool
  pub flushed : List SendRequest → SendError ⊎ ℕ
  pub single : SendRequest → Option SendError

-- `min(lhs + payloadChunkSize, compressedSize)`
abbrev pub chunk_end : SendRequest → ℕ → ℕ
chunk_end sr k =
    min (k * sr.payload_chunk_size + sr.payload_chunk_size) (length sr.compressed_payload)

-- The request of chunk `k`, with its part of the payload and of the memory.
abbrev pub chunk_request : SendRequest → ℕ → SendRequest
chunk_request sr k = record sr {
  chunk_id = some k;
  reserved_semaphore = 0;
  reserved_mem = chunk_end sr k - k * sr.payload_chunk_size;
  compressed_payload =
      take (chunk_end sr k - k * sr.payload_chunk_size)
        (drop (k * sr.payload_chunk_size) sr.compressed_payload);
}

module _ (b : Builder) (now : ℕ) where
  unfoldable pub internal_flush_current_batch : Producer → Producer
  internal_flush_current_batch p = elim p.batch [
    | [] ↦ p
    | sr ∷ srs ↦ elim (b.flushed (sr ∷ srs)) [
      | inl e ↦ done_all (record p { batch = [] }) (sr ∷ srs) e
      | inr sequence_id ↦ write_data now (record p { batch = [] }) sequence_id (sr ∷ srs)
    ]
  ]

  unfoldable pub internal_single_send : Producer → SendRequest → Producer
  internal_single_send p sr = elim (b.single sr) [
    | some e ↦ done p sr (failed e)
    | none ↦ write_data now p sr.sequence_id (sr ∷ [])
  ]

  unfoldable pub send_chunks : ℕ → ℕ → Producer → SendRequest → Producer
  unfolding internal_single_send
  send_chunks zero k p sr = p
  send_chunks (suc left) k p sr =
      send_chunks left (k + 1) (internal_single_send p (chunk_request sr k)) sr

  unfoldable pub send_as_batch : Producer → SendRequest → Producer
  unfolding internal_flush_current_batch
  send_as_batch p sr =
      let p' = internal_flush_current_batch p in
      let q =
        if b.adds p.batch sr
        then record p { batch = p.batch ++ (sr ∷ []) }
        else if b.adds p'.batch sr
        then record p' { batch = p'.batch ++ (sr ∷ []) }
        else done p' sr (failed fail_add_to_batch) in
      let added = b.adds p.batch sr || b.adds p'.batch sr in
      if added && sr.flush_immediately then internal_flush_current_batch q else q

  unfoldable pub internal_send : Producer → SendRequest → Producer
  unfolding send_as_batch internal_single_send send_chunks
  internal_send p sr =
      if sr.send_as_batch
      then send_as_batch p sr
      else if leb sr.total_chunks 1
      then internal_single_send p sr
      else send_chunks sr.total_chunks 0 p sr
