-- ===== src/PartitionProducer/Tests.antt =====
-- Runs of the producer of pulsar-client-go/pulsar/producer_partition.go.
use pr.Base.{All, List, [], arith, false, inr, length, ltb, none, refl, some, true, ℕ, ◌∷◌, ◌≡◌}
use pr.PartitionProducer.{
  Bytes, Builder, Producer, ProducerOptions, SendRequest, PendingItem, sent, failed, internal_send,
  producer_closed, ready, closed, write_data,
}
use pr.PartitionProducer.Async.{ProducerMessage, Surroundings, blank, admit}
use pr.PartitionProducer.Handlers.{
  send, take_data, receipt, Event, run, new_producer, do_close, fail_timeout_messages,
}
use pr.PartitionProducer.Weights.{IsBalanced, calls}
use pr.PartitionProducer.Chunks.{payloads, IsAtMost, internal_send-chunks}
use pr.PartitionProducer.Leaks.{refusal, admit-leaks, do_close-unanswered}
use pr.PartitionProducer.Timeouts.{fail_timeout_messages-drop_due}

abbrev options : ProducerOptions
options = record {
  disable_batching = false;
  disable_multi_schema = false;
  enable_chunking = false;
  chunk_max_message_size = 0;
  disable_block_if_queue_full = true;
  max_pending_messages = 4;
  send_timeout = 10;
  schema = none;
}

-- A batch takes two messages and is numbered by its first one.
abbrev builder : Builder
builder = record {
  adds = λ srs sr. ltb (length srs) 2;
  flushed = λ srs. inr (elim srs [ [] ↦ 0 | sr ∷ rest ↦ sr.id ]);
  single = λ sr. none;
}

abbrev around : Surroundings
around = record {
  joins_transaction = false;
  has_schema_version = true;
  encoded = none;
  compress = λ s. s;
  metadata_size = 2;
  sequence_id = 50;
  max_message_size = 20;
  permit_comes = λ k. true;
  memory_comes = true;
  ctx_ended = false;
  enqueued = true;
}

abbrev text : ProducerMessage
text = record {
  payload = some (1 ∷ 2 ∷ 3 ∷ []);
  has_value = false;
  schema = none;
  in_transaction = false;
  disable_replication = false;
  has_replication_clusters = false;
  deliver_at = none;
  deliver_after = 0;
}

abbrev send_text : Event
send_text = send around (some text) false

-- Three messages, of which the first two go out as a batch and are received.
abbrev script : List Event
script =
    send_text ∷ send_text ∷ send_text ∷ take_data 1 ∷ take_data 1 ∷ take_data 1 ∷ receipt 0 7 9 ∷ []

script-callbacks :
    (run options builder (new_producer ready 0) script).callbacks
    ≡ (0, sent 7 9 0 2) ∷ (1, sent 7 9 1 2) ∷ []
unfolding run pr.PartitionProducer.write_data
script-callbacks = refl

script-permits : (run options builder (new_producer ready 0) script).permits ≡ 1
unfolding run pr.PartitionProducer.write_data
script-permits = refl

-- Five bytes in chunks of two.
abbrev large : SendRequest
large = record (blank 0 false false) {
  total_chunks = 3;
  compressed_payload = 1 ∷ 2 ∷ 3 ∷ 4 ∷ 5 ∷ [];
  payload_chunk_size = 2;
}

internal_send-chunks_example :
    (its : List PendingItem) × ((internal_send builder 1 (new_producer ready 0) large).pending
      ≡ its)
    × (length its ≡ 3)
    × (payloads its ≡ 1 ∷ 2 ∷ 3 ∷ 4 ∷ 5 ∷ [])
    × All (IsAtMost 2) its
internal_send-chunks_example =
    internal_send-chunks builder 1 (new_producer ready 0) large refl (λ r. refl) refl (omega arith)
      refl (omega arith)

-- The memory is over its limit of one byte.
abbrev full : Producer
full = record (new_producer ready 1) { used_mem = 2 }

admit-leaks_example :
    ((admit options around full large).permits ≡ 2)
    × ((admit options around full large).data_chan ≡ [])
    × ((admit options around full large).callbacks ≡ (0, failed (refusal options)) ∷ [])
admit-leaks_example =
    admit-leaks options around full large (λ k. refl) (omega arith) (omega arith) (omega arith) refl
      refl refl refl

abbrev item : ℕ → PendingItem
item t = record {
  sequence_id = t;
  created_at = t;
  send_requests = [];
  is_done = false;
  flush_callbacks = [];
}

-- A message waits in the batch, another one is pending.
abbrev waiting : Producer
waiting = record (new_producer ready 0) {
  batch = blank 0 false false ∷ [];
  pending = record (item 1) { send_requests = blank 1 false false ∷ [] } ∷ [];
  issued = 2;
}

waiting-IsBalanced : IsBalanced waiting []
waiting-IsBalanced = record {
  permits = refl;
  mem = refl;
  whole = refl;
  answers = λ i. ground arith;
}

do_close-unanswered_example :
    ((do_close waiting producer_closed).pending ≡ [])
    × ((do_close waiting producer_closed).state ≡ closed)
    × ((do_close waiting producer_closed).data_chan ≡ [])
    × ((do_close waiting producer_closed).batch ≡ blank 0 false false ∷ [])
    × (calls 0 (do_close waiting producer_closed).callbacks ≡ 0)
    × (calls 1 (do_close waiting producer_closed).callbacks ≡ 1)
do_close-unanswered_example =
    do_close-unanswered waiting (blank 0 false false) [] producer_closed 1 waiting-IsBalanced refl
      refl

abbrev queued : Producer
queued = record (new_producer ready 0) { pending = item 1 ∷ item 5 ∷ [] }

fail_timeout_messages-drop_due_example :
    ((fail_timeout_messages 10 12 queued).0.pending ≡ item 5 ∷ [])
    × ((fail_timeout_messages 10 12 queued).1 ≡ some 10)
fail_timeout_messages-drop_due_example = fail_timeout_messages-drop_due 10 12 queued refl
