-- ===== src/Metrics/Summary.antt =====
-- `GetSummary` of pkg/metrics/memory.go.
use pr.Base.{List, [], add64, if◌then◌else◌, length, ltb, slt64, ℕ, ◌&&◌, ◌-◌, ◌∷◌}
use pr.Metrics.{MemoryStats, MemoryMonitor, get_stats}

-- What the summary uses of Go's float64.
pub record Floats : Type 1 where
  pub Float : Type 0
  pub float_zero : Float
  -- `float64(x)` of a uint64, and of an int64
  pub of_u64 : ℕ → Float
  pub of_i64 : ℕ → Float
  pub divide : Float → Float → Float
  -- the constant 1e6
  pub million : Float

-- What the loop carries: the extremes and the totals of the three figures.
pub record Scan : Type 0 where
  pub min_heap : ℕ
  pub max_heap : ℕ
  pub total_heap : ℕ
  pub min_rss : ℕ
  pub max_rss : ℕ
  pub total_rss : ℕ
  pub min_inuse : ℕ
  pub max_inuse : ℕ
  pub total_inuse : ℕ

-- One round of the loop over the samples.
unfoldable pub scan_step : Scan → MemoryStats → Scan
scan_step a s = record {
  min_heap = if ltb s.heap_alloc a.min_heap then s.heap_alloc else a.min_heap;
  max_heap = if ltb a.max_heap s.heap_alloc then s.heap_alloc else a.max_heap;
  total_heap = add64 a.total_heap s.heap_alloc;
  min_rss = if ltb s.rss a.min_rss && ltb 0 s.rss then s.rss else a.min_rss;
  max_rss = if ltb a.max_rss s.rss then s.rss else a.max_rss;
  total_rss = add64 a.total_rss s.rss;
  min_inuse = if ltb s.heap_inuse a.min_inuse then s.heap_inuse else a.min_inuse;
  max_inuse = if ltb a.max_inuse s.heap_inuse then s.heap_inuse else a.max_inuse;
  total_inuse = add64 a.total_inuse s.heap_inuse;
}

unfoldable pub scan : Scan → List MemoryStats → Scan
scan a [] = a
scan a (s ∷ ss) = scan (scan_step a s) ss

-- The loop's start: minima from the first sample, maxima and totals from zero.
abbrev pub scan_start : MemoryStats → Scan
scan_start first = record {
  min_heap = first.heap_alloc;
  max_heap = 0;
  total_heap = 0;
  min_rss = first.rss;
  max_rss = 0;
  total_rss = 0;
  min_inuse = first.heap_inuse;
  max_inuse = 0;
  total_inuse = 0;
}

abbrev pub last_of : MemoryStats → List MemoryStats → MemoryStats
last_of s [] = s
last_of s (t ∷ ts) = last_of t ts

module _ (fl : Floats) where
  open fl use {Float, float_zero, of_u64, of_i64, divide, million}

  pub record MemorySummary : Type 0 where
    pub duration : ℕ
    pub message_count : ℕ
    pub message_bytes : ℕ
    pub batch_count : ℕ
    pub sample_count : ℕ
    pub min_heap_alloc : ℕ
    pub max_heap_alloc : ℕ
    pub avg_heap_alloc : Float
    pub final_heap_alloc : ℕ
    pub min_rss : ℕ
    pub max_rss : ℕ
    pub avg_rss : Float
    pub final_rss : ℕ
    pub min_heap_inuse : ℕ
    pub max_heap_inuse : ℕ
    pub avg_heap_inuse : Float
    pub num_gc : ℕ
    pub pause_total_ms : Float
    pub heap_ratio : Float
    pub rss_ratio : Float

  -- The struct's zero values, returned when there is no sample.
  abbrev empty_summary : ℕ → MemorySummary
  empty_summary duration = record {
    duration = duration;
    message_count = 0;
    message_bytes = 0;
    batch_count = 0;
    sample_count = 0;
    min_heap_alloc = 0;
    max_heap_alloc = 0;
    avg_heap_alloc = float_zero;
    final_heap_alloc = 0;
    min_rss = 0;
    max_rss = 0;
    avg_rss = float_zero;
    final_rss = 0;
    min_heap_inuse = 0;
    max_heap_inuse = 0;
    avg_heap_inuse = float_zero;
    num_gc = 0;
    pause_total_ms = float_zero;
    heap_ratio = float_zero;
    rss_ratio = float_zero;
  }

  abbrev pub summarise : ℕ → List MemoryStats → MemorySummary
  summarise duration [] = empty_summary duration
  summarise duration (first ∷ rest) =
      let a = scan (scan_start first) (first ∷ rest) in
      let n = length (first ∷ rest) in
      let last = last_of first rest in
      let has_bytes = slt64 0 last.message_bytes in
      record {
        duration = duration;
        message_count = last.message_count;
        message_bytes = last.message_bytes;
        batch_count = last.batch_count;
        sample_count = n;
        min_heap_alloc = a.min_heap;
        max_heap_alloc = a.max_heap;
        avg_heap_alloc = divide (of_u64 a.total_heap) (of_u64 n);
        final_heap_alloc = last.heap_alloc;
        min_rss = a.min_rss;
        max_rss = a.max_rss;
        avg_rss = divide (of_u64 a.total_rss) (of_u64 n);
        final_rss = last.rss;
        min_heap_inuse = a.min_inuse;
        max_heap_inuse = a.max_inuse;
        avg_heap_inuse = divide (of_u64 a.total_inuse) (of_u64 n);
        num_gc = last.num_gc;
        pause_total_ms = divide (of_u64 last.pause_total_ns) million;
        heap_ratio =
            if has_bytes
            then divide (of_u64 a.max_heap) (of_i64 last.message_bytes)
            else float_zero;
        rss_ratio =
            if has_bytes then divide (of_u64 a.max_rss) (of_i64 last.message_bytes) else float_zero;
      }

  -- `now` is the clock at the call; `time.Since` is what has passed from the start.
  unfoldable pub get_summary : MemoryMonitor → ℕ → MemorySummary
  get_summary m now = summarise (now - m.start_time) (get_stats m)
