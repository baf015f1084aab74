-- ===== src/PartitionProducer/Async.antt =====
-- SendAsync of pulsar-client-go/pulsar/producer_partition.go: checks, preparation and reservation.
use Prim.Native.Nat.{min}
use pr.Base.{
  Bool, Option, [], add32, add64, false, if◌then◌else◌, inl, inr, length, ltb, none, not, slt32,
  slt64, some, suc, true, zero, ℕ, ◌%◌, ◌&&◌, ◌++◌, ◌+◌, ◌-◌, ◌/◌, ◌==◌, ◌^◌, ◌||◌, ◌∷◌, ◌⊎◌,
}
use pr.PartitionProducer.{
  Bytes, Producer, ProducerOptions, SendRequest, SendError, failed, done, is_closing_or_closed,
  invalid_message, schema_failed, transaction_failed, producer_closed, context_ended,
  message_too_large, meta_too_large, context_expired, send_queue_is_full, memory_buffer_is_full,
}

-- A schema is its hash; `deliver_at` is none for the zero time, which lies before 1970.
pub record ProducerMessage : Type 0 where
  pub payload : Option Bytes
  pub has_value : Bool
  pub schema : Option ℕ
  pub in_transaction : Bool
  pub disable_replication : Bool
  pub has_replication_clusters : Bool
  pub deliver_at : Option ℕ
  pub deliver_after : ℕ

-- What the surroundings give one call: the transaction is open and takes part, the schema's version
-- is known or created, the value as its schema encodes it, the compression, the size of the
-- metadata, the connection's limit, which waits for a permit and for memory succeed, whether the
-- context has ended at the start, and whether the channel took the request before it ended.
pub record Surroundings : Type 0 where
  pub joins_transaction : Bool
  pub has_schema_version : Bool
  pub encoded : Option Bytes
  pub compress : Bytes → Bytes
  pub metadata_size : ℕ
  pub sequence_id : ℕ
  pub max_message_size : ℕ
  pub permit_comes : ℕ → Bool
  pub memory_comes : Bool
  pub ctx_ended : Bool
  pub enqueued : Bool

abbrev pub differs : Option ℕ → Option ℕ → Bool
differs (some a) (some b) = not (a == b)
differs _ _ = false

abbrev pub is_set : {A : Type 0} → Option A → Bool
is_set none = false
is_set (some a) = true

-- A nil message is `none`.
unfoldable pub validate_msg : ProducerOptions → Option ProducerMessage → Option SendError
validate_msg o none = some invalid_message
validate_msg o (some m) =
    if m.has_value && is_set m.payload
    then some invalid_message
    else if o.disable_multi_schema && differs m.schema o.schema
    then some schema_failed
    else none

abbrev pub blank : ℕ → Bool → Bool → SendRequest
blank id immediate transaction = record {
  id = id;
  total_chunks = 0;
  chunk_id = none;
  has_semaphore = false;
  reserved_semaphore = 0;
  has_mem = false;
  reserved_mem = 0;
  sequence_id = 0;
  send_as_batch = false;
  flush_immediately = immediate;
  in_transaction = transaction;
  uncompressed_payload = [];
  compressed_payload = [];
  payload_chunk_size = 0;
  max_message_size = 0;
}

-- The message's schema, or else the producer's; with one, its version is needed.
unfoldable pub update_schema : ProducerOptions → ProducerMessage → Surroundings → SendError ⊎ Bool
update_schema o m s =
    if is_set m.schema || is_set o.schema
    then (if s.has_schema_version then inr true else inl schema_failed)
    else inr false

unfoldable pub update_uncompressed_payload :
    ProducerMessage → Surroundings → Bool → SendError ⊎ Bytes
update_uncompressed_payload m s has_schema =
    if m.has_value
    then (if has_schema
        then (elim s.encoded [ none ↦ inl schema_failed | some payload ↦ inr payload ])
        else inl schema_failed)
    else inr (elim m.payload [ none ↦ [] | some payload ↦ payload ])

abbrev pub has_delivery_time : ProducerMessage → Bool
has_delivery_time m = ltb 0 m.deliver_after || is_set m.deliver_at

-- The part of `updateMetaData` that decides on batching.
unfoldable pub update_meta_data :
    ProducerOptions → ProducerMessage → Surroundings → SendRequest → SendRequest
update_meta_data o m s sr =
    let as_batch =
      not o.disable_batching
      && not (m.disable_replication || m.has_replication_clusters)
      && not (has_delivery_time m) in
    record sr {
      send_as_batch = as_batch;
      sequence_id = if as_batch then sr.sequence_id else s.sequence_id;
    }

-- `math.Max(1, math.Ceil(a / b))` of floats; exact for the 31-bit sizes here.
abbrev pub chunks_of : ℕ → ℕ → ℕ
chunks_of a b = let n = (a + b - 1) / b in if n == 0 then 1 else n

unfoldable pub update_chunk_info :
    ProducerOptions → Surroundings → SendRequest → SendError ⊎ SendRequest
update_chunk_info o s sr =
    let compressed =
      if sr.send_as_batch then sr.compressed_payload else s.compress sr.uncompressed_payload in
    let check_size =
      if sr.send_as_batch then length sr.uncompressed_payload else length compressed in
    let room = s.max_message_size - s.metadata_size in
    let capped =
      if o.chunk_max_message_size == 0 then room else min room o.chunk_max_message_size in
    let sr' = record sr {
      compressed_payload = compressed;
      max_message_size = s.max_message_size;
    } in
    if ltb s.max_message_size check_size && not o.enable_chunking
    then inl message_too_large
    else if sr.send_as_batch || not o.enable_chunking
    then inr (record sr' { total_chunks = 1; payload_chunk_size = s.max_message_size })
    else if room == 0
    then inl meta_too_large
    else inr (record sr' {
      total_chunks = chunks_of (length compressed) capped;
      payload_chunk_size = capped;
    })

-- The steps of SendAsync up to the reservation.
unfoldable pub prepare :
    ProducerOptions
    → Producer
    → ProducerMessage
    → Surroundings
    → SendRequest
    → SendError ⊎ SendRequest
unfolding update_schema update_uncompressed_payload update_meta_data update_chunk_info
prepare o p m s sr =
    if m.in_transaction && not s.joins_transaction
    then inl transaction_failed
    else if is_closing_or_closed p.state
    then inl producer_closed
    else if s.ctx_ended
    then inl context_ended
    else elim (update_schema o m s) [
      | inl e ↦ inl e
      | inr has_schema ↦ elim (update_uncompressed_payload m s has_schema) [
        | inl e ↦ inl e
        | inr payload ↦
            update_chunk_info o s
              (update_meta_data o m s (record sr { uncompressed_payload = payload }))
      ]
    ]

-- Whether chunk `i` gets its permit: TryAcquire, or the Acquire that waits for one, which returns
-- true only with room.
abbrev pub gets_permit : ProducerOptions → Surroundings → Producer → ℕ → Bool
gets_permit o s p i =
    slt32 p.permits o.max_pending_messages && (o.disable_block_if_queue_full || s.permit_comes i)

-- One permit for each chunk, until one is refused.
unfoldable pub reserve_semaphore :
    ProducerOptions
    → Surroundings
    → ℕ
    → ℕ
    → Producer
    → SendRequest
    → Producer × SendRequest × Option SendError
reserve_semaphore o s zero i p sr = (p, sr, none)
reserve_semaphore o s (suc left) i p sr = elim (gets_permit o s p i) [
  | true ↦
      reserve_semaphore o s left (i + 1) (record p { permits = add32 p.permits 1 })
        (record sr { has_semaphore = true; reserved_semaphore = sr.reserved_semaphore + 1 })
  | false ↦
      (p, sr, some (if o.disable_block_if_queue_full then send_queue_is_full else context_expired))
]

abbrev pub required_mem : SendRequest → ℕ
required_mem sr =
    if sr.send_as_batch then length sr.uncompressed_payload else length sr.compressed_payload

-- TryReserveMemory refuses while the usage is over a positive limit; ReserveMemory waits until it is
-- not.
unfoldable pub reserve_mem :
    ProducerOptions
    → Surroundings
    → Producer
    → SendRequest
    → Producer × SendRequest × Option SendError
reserve_mem o s p sr =
    let is_full = slt64 0 p.mem_limit && slt64 p.mem_limit p.used_mem in
    if not is_full && (o.disable_block_if_queue_full || s.memory_comes)
    then (
      record p { used_mem = add64 p.used_mem (required_mem sr % 2 ^ 64) },
      record sr { has_mem = true; reserved_mem = sr.reserved_mem + required_mem sr },
      none,
    )
    else (
      p,
      sr,
      some (if o.disable_block_if_queue_full then memory_buffer_is_full else context_expired),
    )

unfoldable pub reserve_resources :
    ProducerOptions
    → Surroundings
    → Producer
    → SendRequest
    → Producer × SendRequest × Option SendError
unfolding reserve_semaphore reserve_mem
reserve_resources o s p sr =
    let (p', sr', e) = reserve_semaphore o s sr.total_chunks 0 p sr in
    elim e [ some e' ↦ (p', sr', some e') | none ↦ reserve_mem o s p' sr' ]

-- The last select of SendAsync.
unfoldable pub enqueue : Surroundings → Producer → SendRequest → Producer
unfolding done
enqueue s p sr =
    if s.enqueued
    then record p { data_chan = p.data_chan ++ (sr ∷ []) }
    else done p sr (failed context_ended)

unfoldable pub admit : ProducerOptions → Surroundings → Producer → SendRequest → Producer
unfolding reserve_resources enqueue done
admit o s p sr =
    let (p', sr', e) = reserve_resources o s p sr in
    elim e [ some e' ↦ done p' sr' (failed e') | none ↦ enqueue s p' sr' ]

unfoldable pub internal_send_async :
    ProducerOptions → Surroundings → Producer → Option ProducerMessage → Bool → Producer
unfolding validate_msg prepare admit done
internal_send_async o s p msg immediate =
    let id = p.issued in
    let p' = record p { issued = id + 1 } in
    elim (validate_msg o msg) [
      | some e ↦ record p' { callbacks = p.callbacks ++ ((id, failed e) ∷ []) }
      | none ↦ elim msg [
        | none ↦ p'
        | some m ↦
            let sr = blank id immediate (m.in_transaction && s.joins_transaction) in
            elim (prepare o p' m s sr) [
              | inl e ↦ done p' sr (failed e)
              | inr sr' ↦ admit o s p' sr'
            ]
      ]
    ]
