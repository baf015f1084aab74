-- ===== src/Metrics.antt =====
-- pkg/metrics/memory.go: the memory monitor, its counters, samples and summary.
-- Counters and sizes are words: an int64 or a uint64 is its bit pattern, a number below 2 ^ 64.
-- Floating point is a parameter, `Floats`; the runtime's and the process's figures are readings.
pub mod Summary
pub mod Format
mod Range
mod Counting
mod Extremes
mod Tests
use pr.Base.{Bool, List, Option, [], add64, false, none, some, true, ℕ, ◌++◌, ◌∷◌}

-- `runtime.MemStats`, `process.MemoryInfoStat` and the clock at one call of `Collect`.
pub record Reading : Type 0 where
  pub now : ℕ
  pub heap_alloc : ℕ
  pub heap_sys : ℕ
  pub heap_inuse : ℕ
  pub heap_idle : ℕ
  pub heap_released : ℕ
  pub heap_objects : ℕ
  pub stack_inuse : ℕ
  pub stack_sys : ℕ
  pub m_span_inuse : ℕ
  pub m_cache_inuse : ℕ
  pub sys : ℕ
  pub total_alloc : ℕ
  pub num_gc : ℕ
  pub pause_total_ns : ℕ
  -- resident and virtual size, or an error
  pub memory_info : Option (ℕ × ℕ)

pub record MemoryStats : Type 0 where
  pub timestamp : ℕ
  pub heap_alloc : ℕ
  pub heap_sys : ℕ
  pub heap_inuse : ℕ
  pub heap_idle : ℕ
  pub heap_released : ℕ
  pub heap_objects : ℕ
  pub stack_inuse : ℕ
  pub stack_sys : ℕ
  pub m_span_inuse : ℕ
  pub m_cache_inuse : ℕ
  pub sys : ℕ
  pub total_alloc : ℕ
  pub num_gc : ℕ
  pub pause_total_ns : ℕ
  pub rss : ℕ
  pub vms : ℕ
  pub message_count : ℕ
  pub message_bytes : ℕ
  pub batch_count : ℕ

-- The lock makes each method one step; `proc` is where readings come from, and `stopped` tells
-- whether `stopCh` is closed.
pub record MemoryMonitor : Type 0 where
  pub stats : List MemoryStats
  pub message_count : ℕ
  pub message_bytes : ℕ
  pub batch_count : ℕ
  pub start_time : ℕ
  pub pid : ℕ
  pub stopped : Bool

-- `none` for a process id that `process.NewProcess` refuses.
unfoldable pub new_memory_monitor : ℕ → Bool → ℕ → Option MemoryMonitor
new_memory_monitor pid false now = none
new_memory_monitor pid true now = some (record {
  stats = [];
  message_count = 0;
  message_bytes = 0;
  batch_count = 0;
  start_time = now;
  pid = pid;
  stopped = false;
})

abbrev rss_of : Option (ℕ × ℕ) → ℕ
rss_of none = 0
rss_of (some (rss, vms)) = rss

abbrev vms_of : Option (ℕ × ℕ) → ℕ
vms_of none = 0
vms_of (some (rss, vms)) = vms

abbrev pub sample : MemoryMonitor → Reading → MemoryStats
sample m r = record {
  timestamp = r.now;
  heap_alloc = r.heap_alloc;
  heap_sys = r.heap_sys;
  heap_inuse = r.heap_inuse;
  heap_idle = r.heap_idle;
  heap_released = r.heap_released;
  heap_objects = r.heap_objects;
  stack_inuse = r.stack_inuse;
  stack_sys = r.stack_sys;
  m_span_inuse = r.m_span_inuse;
  m_cache_inuse = r.m_cache_inuse;
  sys = r.sys;
  total_alloc = r.total_alloc;
  num_gc = r.num_gc;
  pause_total_ns = r.pause_total_ns;
  rss = rss_of r.memory_info;
  vms = vms_of r.memory_info;
  message_count = m.message_count;
  message_bytes = m.message_bytes;
  batch_count = m.batch_count;
}

-- Returns the monitor with the sample appended, and the sample.
unfoldable pub collect : MemoryMonitor → Reading → MemoryMonitor × MemoryStats
collect m r = (record m { stats = m.stats ++ sample m r ∷ [] }, sample m r)

unfoldable pub record_message : MemoryMonitor → ℕ → MemoryMonitor
record_message m bytes = record m {
  message_count = add64 m.message_count 1;
  message_bytes = add64 m.message_bytes bytes;
}

unfoldable pub record_batch : MemoryMonitor → MemoryMonitor
record_batch m = record m { batch_count = add64 m.batch_count 1 }

abbrev pub get_stats : MemoryMonitor → List MemoryStats
get_stats m = m.stats

abbrev pub get_current_stats : MemoryMonitor → ℕ × ℕ × ℕ
get_current_stats m = (m.message_count, m.message_bytes, m.batch_count)

-- `close` of a closed channel panics.
unfoldable pub stop : MemoryMonitor → Option MemoryMonitor
stop m = stop_when m.stopped m
  where
    stop_when : Bool → MemoryMonitor → Option MemoryMonitor
    stop_when true m = none
    stop_when false m = some (record m { stopped = true })
