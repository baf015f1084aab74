-- ===== src/Consumer.antt =====
-- cmd/consumer/main.go: the batch processor and the main loop.
-- `consumer.Ack` is a call of the client: the model logs the ids in order. The log lines, the HTTP
-- profiler, the progress report and the garbage collector's calls have no state here.
pub mod Ledger
pub mod Retained
pub mod Exit
mod Tests
use pr.Base.{
  Bool, List, [], add64, false, if◌then◌else◌, length, not, slt64, true, ℕ, ◌&&◌, ◌++◌, ◌+◌, ◌∷◌,
}
use pr.Message.{Message, MessageId, size, release_payload}
use pr.Metrics.{MemoryMonitor, Reading, collect, record_message, record_batch}

-- int64 and int fields are words. `acked` is what the consumer was asked to acknowledge.
pub record BatchProcessor : Type 0 where
  pub messages : List Message
  pub current_bytes : ℕ
  pub batch_size : ℕ
  pub batch_count : ℕ
  pub process_delay : ℕ
  pub acked : List MessageId
  pub monitor : MemoryMonitor
  pub release : Bool

abbrev pub new_batch_processor : ℕ → ℕ → List MessageId → MemoryMonitor → Bool → BatchProcessor
new_batch_processor batch_size process_delay consumer monitor release = record {
  messages = [];
  current_bytes = 0;
  batch_size = batch_size;
  batch_count = 0;
  process_delay = process_delay;
  acked = consumer;
  monitor = monitor;
  release = release;
}

-- What the batch keeps of a message.
abbrev pub kept : Bool → Message → Message
kept release m = if release then release_payload m else m

-- Returns the processor and whether the batch should be processed.
unfoldable pub add : BatchProcessor → Message → BatchProcessor × Bool
add bp m =
    let bytes = add64 bp.current_bytes (size m) in
    (
      record bp {
        messages = bp.messages ++ kept bp.release m ∷ [];
        current_bytes = bytes;
        monitor = record_message bp.monitor (size m);
      },
      not (slt64 bytes bp.batch_size),
    )

abbrev pub ids : List Message → List MessageId
ids [] = []
ids (m ∷ ms) = m.msg_id ∷ ids ms

-- `Process` with the readings of its two samples. An empty batch is left alone.
unfoldable pub process : BatchProcessor → Reading → Reading → BatchProcessor
process bp before after = elim bp.messages [
  | [] ↦ bp
  | m ∷ ms ↦ record bp {
    messages = [];
    current_bytes = 0;
    batch_count = add64 bp.batch_count 1;
    acked = bp.acked ++ ids bp.messages;
    monitor = (collect (record_batch (collect bp.monitor before).0) after).0;
  }
]

-- What one round of the main loop meets: a signal, an ended context, a receive that timed out, or a
-- message.
pub data Event : Type 0 where
  interrupted done timed_out : Event
  received : Message → Event

-- Stopped, with the events that were not read; or still in the loop when the events ran out.
pub data Outcome : Type 0 where
  stopped : BatchProcessor → List Event → Outcome
  running : BatchProcessor → Outcome

-- `readings k` is what the k-th sample reads.
module _ (readings : ℕ → Reading) (max_batches : ℕ) where
  unfoldable pub process_now : BatchProcessor → BatchProcessor
  unfolding process
  process_now bp = let k = length bp.monitor.stats in process bp (readings k) (readings (k + 1))

  -- The timed out receive: with bytes pending after a finished batch, the last batch.
  abbrev pub is_last : BatchProcessor → Bool
  is_last bp = slt64 0 bp.current_bytes && slt64 0 bp.batch_count

  abbrev pub is_enough : BatchProcessor → Bool
  is_enough bp = slt64 0 max_batches && not (slt64 bp.batch_count max_batches)

  -- The body of the loop on a message: the processor after it, and whether to stop.
  unfoldable pub take_message : BatchProcessor → Message → BatchProcessor × Bool
  unfolding add process_now
  take_message bp m =
      let (bp', full) = add bp m in
      if full then (process_now bp', is_enough (process_now bp')) else (bp', false)

  -- `consumeLoop`
  unfoldable pub consume_loop : BatchProcessor → List Event → Outcome
  unfolding take_message process_now
  consume_loop bp [] = running bp
  consume_loop bp (interrupted ∷ es) = stopped bp es
  consume_loop bp (done ∷ es) = stopped bp es
  consume_loop bp (timed_out ∷ es) = elim (is_last bp) [
    | true ↦ stopped (process_now bp) es
    | false ↦ consume_loop bp es
  ]
  consume_loop bp (received m ∷ es) = elim (take_message bp m).1 [
    | true ↦ stopped (take_message bp m).0 es
    | false ↦ consume_loop (take_message bp m).0 es
  ]

  -- After the loop: what is pending is processed, if it has bytes.
  unfoldable pub finish : BatchProcessor → BatchProcessor
  unfolding process_now
  finish bp = if slt64 0 bp.current_bytes then process_now bp else bp

  unfoldable pub consume : BatchProcessor → List Event → Outcome
  unfolding consume_loop finish
  consume bp es = elim (consume_loop bp es) [
    | stopped bp' rest ↦ stopped (finish bp') rest
    | running bp' ↦ running bp'
  ]
