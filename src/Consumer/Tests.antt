-- ===== src/Consumer/Tests.antt =====
-- Runs of cmd/consumer/main.go on small inputs, and its theorems at concrete inputs.
use pr.Base.{List, [], arith, false, inl, none, refl, some, true, ℕ, ◌+◌, ◌∷◌, ◌≡◌}
use pr.Base.Int.{pos, negsuc}
use pr.Message.{Message, MessageId, new_message_id, release_payload}
use pr.Metrics.{MemoryMonitor, Reading, record_message, record_batch, collect}
use pr.Consumer.{
  BatchProcessor, new_batch_processor, Event, interrupted, timed_out, received, consume,
}
use pr.Consumer.Ledger.{accounted, accounted-consume}
use pr.Consumer.Retained.{Holds, OutcomeHolds, consume-OutcomeHolds}
use pr.Consumer.Exit.{
  timeouts, acked_of, CountWithin, consume-timeouts, consume-CountWithin, consume-empty_unacked,
}

abbrev reading : ℕ → Reading
reading k = record {
  now = k;
  heap_alloc = 100 + k;
  heap_sys = 0;
  heap_inuse = 0;
  heap_idle = 0;
  heap_released = 0;
  heap_objects = 0;
  stack_inuse = 0;
  stack_sys = 0;
  m_span_inuse = 0;
  m_cache_inuse = 0;
  sys = 0;
  total_alloc = 0;
  num_gc = 0;
  pause_total_ns = 0;
  memory_info = none;
}

abbrev monitor : MemoryMonitor
monitor = record {
  stats = [];
  message_count = 0;
  message_bytes = 0;
  batch_count = 0;
  start_time = 0;
  pid = 1;
  stopped = false;
}

abbrev at_entry : ℕ → MessageId
at_entry n = new_message_id (pos 7) (pos n) (negsuc 0) (pos 0) (pos 0)

abbrev message_of : ℕ → List ℕ → Message
message_of n payload = record {
  publish_time = 0;
  event_time = 0;
  key = [];
  ordering_key = [];
  producer_name = [];
  payload = some payload;
  msg_id = at_entry n;
  properties = some [];
  topic = [];
  replication_clusters = [];
  replicated_from = [];
  redelivery_count = 0;
  schema_version = none;
  index = none;
  broker_publish_time = none;
}

abbrev fresh : BatchProcessor
fresh = new_batch_processor 3 0 [] monitor true

abbrev three_bytes : Message
three_bytes = message_of 1 (1 ∷ 2 ∷ 3 ∷ [])

abbrev one_byte : Message
one_byte = message_of 2 (9 ∷ [])

abbrev no_bytes : Message
no_bytes = message_of 3 []

abbrev script : List Event
script = received three_bytes ∷ received one_byte ∷ timed_out ∷ received no_bytes ∷ []

-- The first message fills a batch; the timeout processes the second; the third is not read.
consume-script : acked_of (consume reading 0 fresh script) ≡ at_entry 1 ∷ at_entry 2 ∷ []
unfolding consume record_message record_batch collect release_payload
consume-script = refl

accounted-consume_example :
    accounted reading 0 (consume reading 0 fresh script) ≡ at_entry 1 ∷ at_entry 2 ∷ at_entry 3 ∷ []
accounted-consume_example = accounted-consume reading 0 fresh script

fresh-Holds : Holds fresh
fresh-Holds = record { counted = refl; below = omega arith; fits = omega arith; pending = inl refl }

consume-OutcomeHolds_example : OutcomeHolds (consume reading 0 fresh script)
consume-OutcomeHolds_example = consume-OutcomeHolds reading 0 fresh script fresh-Holds (omega arith)

consume-CountWithin_example : CountWithin 1 (consume reading 1 fresh script)
consume-CountWithin_example =
    consume-CountWithin reading 1 fresh script (omega arith) (omega arith) (omega arith)

consume-timeouts_example :
    consume reading 0 fresh (timeouts 1000 script) ≡ consume reading 0 fresh script
consume-timeouts_example = consume-timeouts reading 0 fresh 1000 script refl

consume-empty_unacked_example :
    acked_of (consume reading 0 fresh (received no_bytes ∷ interrupted ∷ [])) ≡ []
consume-empty_unacked_example =
    consume-empty_unacked reading 0 fresh (no_bytes ∷ []) [] refl (omega arith) (omega arith)
      (refl, tt)
