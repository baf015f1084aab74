-- ===== src/Metrics/Counting.antt =====
-- What a sequence of calls does to the monitor of pkg/metrics/memory.go.
use pr.Base.{List, [], arith, length, length-append, suc, ℕ, ◌%◌, ◌+◌, ◌<◌, ◌^◌, ◌∷◌, ◌≡◌}
use pr.Metrics.{MemoryMonitor, Reading, sample, collect, record_message, record_batch}

-- The calls that change a running monitor, in the order in which the lock admits them.
pub data Call : Type 0 where
  message : ℕ → Call
  batch : Call
  collects : Reading → Call

unfoldable pub apply : MemoryMonitor → Call → MemoryMonitor
unfolding record_message record_batch collect
apply m (message bytes) = record_message m bytes
apply m batch = record_batch m
apply m (collects r) = (collect m r).0

unfoldable pub apply_all : MemoryMonitor → List Call → MemoryMonitor
apply_all m [] = m
apply_all m (c ∷ cs) = apply_all (apply m c) cs

abbrev pub messages : List Call → ℕ
messages [] = 0
messages (message b ∷ cs) = suc (messages cs)
messages (batch ∷ cs) = messages cs
messages (collects r ∷ cs) = messages cs

abbrev pub bytes : List Call → ℕ
bytes [] = 0
bytes (message b ∷ cs) = b + bytes cs
bytes (batch ∷ cs) = bytes cs
bytes (collects r ∷ cs) = bytes cs

abbrev pub batches : List Call → ℕ
batches [] = 0
batches (message b ∷ cs) = batches cs
batches (batch ∷ cs) = suc (batches cs)
batches (collects r ∷ cs) = batches cs

abbrev pub collections : List Call → ℕ
collections [] = 0
collections (message b ∷ cs) = collections cs
collections (batch ∷ cs) = collections cs
collections (collects r ∷ cs) = suc (collections cs)

pub record IsWords (m : MemoryMonitor) : Type 0 where
  pub messages_lt : m.message_count < 2 ^ 64
  pub bytes_lt : m.message_bytes < 2 ^ 64
  pub batches_lt : m.batch_count < 2 ^ 64

-- The counters are the calls' totals modulo 2 ^ 64, and every `Collect` adds one sample.
pub apply_all-counts :
    (m : MemoryMonitor) (cs : List Call)
    → IsWords m
    → let n = apply_all m cs in
      (n.message_count ≡ (m.message_count + messages cs) % 2 ^ 64)
      × (n.message_bytes ≡ (m.message_bytes + bytes cs) % 2 ^ 64)
      × (n.batch_count ≡ (m.batch_count + batches cs) % 2 ^ 64)
      × (length n.stats ≡ length m.stats + collections cs)
unfolding apply_all apply
apply_all-counts m [] w = omega arith
apply_all-counts m (message b ∷ cs) w =
    omega (arith, apply_all-counts (record_message m b) cs (omega arith))
apply_all-counts m (batch ∷ cs) w =
    omega (arith, apply_all-counts (record_batch m) cs (omega arith))
apply_all-counts m (collects r ∷ cs) w = omega (
  arith,
  apply_all-counts (collect m r).0 cs (omega arith),
  length-append m.stats (sample m r ∷ []),
)
