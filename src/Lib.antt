-- ===== src/Lib.antt =====
-- The memory test programs for Pulsar consumers (cmd, pkg/metrics) and the parts of the client in
-- pulsar-client-go that they run on. The go.mod of the repository replaces the published client by
-- that directory, which adds ReleasePayload to a message.
--
-- The consumer program takes messages off a partition consumer, keeps them until a batch of bytes
-- is full, releases their payloads if asked to, and acknowledges them; a monitor samples memory.
-- Under it, a frame is read from a byte buffer and split into messages, each with an id in a batch
-- whose tracker knows which are acknowledged; acknowledgements are grouped before they are sent.
-- The partition consumer gives the broker permits, queues the messages of its frames, puts chunked
-- messages together, and hands them one by one to the application or to the dead-letter router.
-- On the other side a router chooses the partition, a container collects a batch, and a queue, a
-- semaphore and a memory limit bound what is pending; the partition producer ties these together and
-- answers each message by a receipt, a timeout or an error. A transaction lets operations of both end
-- before it is committed or aborted.
--
--   Base      words, lists, options and integers that the modules share
--   Consumer  cmd/consumer/main.go: BatchProcessor and the loop of main, as a run over the events
--             that Receive and the signals give. Ledger, Retained and Exit hold its theorems
--   Producer  cmd/producer/main.go: the workers, by what each Send gives (Counting)
--   Metrics   pkg/metrics/memory.go: Collect, RecordMessage, RecordBatch, Stop (Metrics), GetSummary
--             (Summary), FormatBytes (Format). Readings and the clock are inputs
--   Message   pulsar/impl_message.go and messageIDCompare of pulsar/message.go: ids, messages with
--             ReleasePayload, ackTracker (Tracker)
--   Bits      the bit set library under ackTracker, as an interface, and the loops over it
--   Grouping  pulsar/ack_grouping_tracker.go: immediate and timed tracker with addMsgIDToPendingAcks.
--             What is sent to the broker is part of the result
--   Queue     pulsar/internal/blocking_queue.go: the ring (Queue), refined to a bounded list
--             (Slots, Refine, Simulation)
--   Semaphore pulsar/internal/semaphore.go: atomic operations, and all threads as a step relation
--             (Steps, Race)
--   Memory    pulsar/internal/memory_limit_controller.go: reservations split at the atomic load and
--             swap, triggers and wake-ups (Limit)
--   Buffer    pulsar/internal/buffer.go: the indices are uint32 words; none is a panic
--   Frames    MessageReader of pulsar/internal/commands.go on that buffer
--   PartitionProducer
--             pulsar/producer_partition.go: requests and their ends, batches and chunks
--             (PartitionProducer), SendAsync (Async), receipts, timeouts, flush, close and the run over
--             events (Handlers), each of which runs to its end before the next begins; Overlap is
--             about a receipt and the timer at the same time. Weights to Timeouts hold its theorems
--   PartitionConsumer
--             pulsar/consumer_partition.go: permits, frames and the dispatcher (PartitionConsumer),
--             start positions (Position), acknowledgements (Acks), chunks with the timers and
--             discards of incomplete messages (Chunked). Permits, Receive and Flow count permits;
--             Queued and Order are about order; Memory and Overhang about the memory limit;
--             Clearing about clearing the queue. What the dispatcher makes of a message for the
--             dead-letter router is in Message/DeadLetter; DeadLetters is pulsar/dlq_router.go
--   Transaction
--             pulsar/transaction_impl.go: Commit, Abort, operations and the timeout, as a run over
--             atomic steps (Tokens, Quiescence, Ends)
--   Batch     pulsar/internal/batch_builder.go and addSingleMessageToBatch of commands.go;
--             pulsar/internal/key_based_batch_builder.go (KeyBased)
--   Topic     pulsar/internal/topic_name.go on lists of bytes
--   Routing   pulsar/default_router.go and JavaStringHash of pulsar/internal/hash.go
--   Backoff   pulsar/backoff/backoff.go
-- Paths that begin with pulsar/ stand under pulsar-client-go.
--
-- A word of w bits is a number below 2 ^ w with its wrap-around written out. Loops are recursions
-- on the list they read; FormatBytes has fuel 6, one step per letter of its units, which suffices
-- for every uint64. A theorem on a buffer asks that it is far from 2 ^ 31 bytes, since beyond that
-- its sizes wrap around; one on permits, that a frame has at most 2 ^ 30 messages, one on a
-- transaction, that it takes fewer than 2 ^ 31 steps, one on a semaphore, that fewer than 2 ^ 31
-- threads hold or wait. A method or an event handler is one step, unless the module splits it; the
-- semaphore, the memory limit and the transaction are split at their atomic operations. The generated
-- protobuf code, the CRC-32C, the bit set library, base64, the decimal form of a number, random
-- numbers and clocks are parameters or inputs.
--
-- Not modelled: network connections, lookup, authentication, the administration client, encryption,
-- compression and metrics, which are calls of libraries and I/O; the subscription and reconnection
-- of the partition consumer, and its lists of acknowledgements; the lookup of the partition producer;
-- negative acknowledgements and schemas; sharing of slices between a buffer and what was read from
-- it.
pub mod Base
pub mod Metrics
pub mod Bits
pub mod Message
pub mod Consumer
pub mod Grouping
pub mod Queue
pub mod Semaphore
pub mod Memory
pub mod Buffer
pub mod Backoff
pub mod Routing
pub mod Frames
pub mod Producer
pub mod PartitionProducer
pub mod PartitionConsumer
pub mod Batch
pub mod Topic
pub mod Transaction
