-- ===== src/Metrics/Tests.antt =====
-- The theorems on pkg/metrics/memory.go at concrete inputs.
use pr.Base.{List, [], arith, false, length, refl, some, ℕ, ◌*◌, ◌-◌, ◌^◌, ◌∷◌, ◌≡◌}
use pr.Metrics.{MemoryStats, MemoryMonitor}
use pr.Metrics.Summary.{Floats, get_summary}
use pr.Metrics.Counting.{message, batch, apply_all, IsWords, apply_all-counts}
use pr.Metrics.Extremes.{
  HeapIsRight, AverageIsRight, RssIsRight, get_summary-heap, get_summary-min_rss,
  get_summary-min_rss_zero,
}
use pr.Metrics.Format.{scaled, format_bytes, scale}
use pr.Metrics.Range.{Describes, format_bytes-Describes}

-- Pairs of a dividend and a divisor, for Go's floats.
abbrev fractions : Floats
fractions = record {
  Float = ℕ × ℕ;
  float_zero = (0, 1);
  of_u64 = λ n. (n, 1);
  of_i64 = λ n. (n, 1);
  divide = λ a b. (a.0 * b.1, a.1 * b.0);
  million = (1_000_000, 1);
}

abbrev stats_of : ℕ → ℕ → MemoryStats
stats_of heap rss = record {
  timestamp = 0;
  heap_alloc = heap;
  heap_sys = 0;
  heap_inuse = 0;
  heap_idle = 0;
  heap_released = 0;
  heap_objects = 0;
  stack_inuse = 0;
  stack_sys = 0;
  m_span_inuse = 0;
  m_cache_inuse = 0;
  sys = 0;
  total_alloc = 0;
  num_gc = 0;
  pause_total_ns = 0;
  rss = rss;
  vms = 0;
  message_count = 0;
  message_bytes = 0;
  batch_count = 0;
}

abbrev monitor_of : List MemoryStats → MemoryMonitor
monitor_of stats = record {
  stats = stats;
  message_count = 0;
  message_bytes = 0;
  batch_count = 0;
  start_time = 0;
  pid = 1;
  stopped = false;
}

abbrev later : List MemoryStats
later = stats_of 30 0 ∷ stats_of 10 50 ∷ []

get_summary-heap_example :
    HeapIsRight fractions
      (stats_of 20 70)
      later
      (get_summary fractions (monitor_of (stats_of 20 70 ∷ later)) 9)
    × AverageIsRight fractions
        (stats_of 20 70)
        later
        (get_summary fractions (monitor_of (stats_of 20 70 ∷ later)) 9)
get_summary-heap_example =
    get_summary-heap fractions (monitor_of (stats_of 20 70 ∷ later)) 9 (stats_of 20 70) later refl

get_summary-min_rss_example :
    RssIsRight fractions
      (stats_of 20 70)
      later
      (get_summary fractions (monitor_of (stats_of 20 70 ∷ later)) 9)
get_summary-min_rss_example =
    get_summary-min_rss fractions (monitor_of (stats_of 20 70 ∷ later)) 9 (stats_of 20 70) later
      refl (omega arith)

get_summary-min_rss_zero_example :
    (get_summary fractions (monitor_of (stats_of 20 0 ∷ later)) 9).min_rss ≡ 0
get_summary-min_rss_zero_example =
    get_summary-min_rss_zero fractions (monitor_of (stats_of 20 0 ∷ later)) 9 (stats_of 20 0) later
      refl refl

empty-IsWords : IsWords (monitor_of [])
empty-IsWords = omega arith

apply_all-counts_example :
    let n = apply_all (monitor_of []) (message 5 ∷ batch ∷ message 2 ∷ []) in
    (n.message_count ≡ 2) × (n.message_bytes ≡ 7) × (n.batch_count ≡ 1) × (length n.stats ≡ 0)
apply_all-counts_example =
    apply_all-counts (monitor_of []) (message 5 ∷ batch ∷ message 2 ∷ []) empty-IsWords

format_bytes_largest : format_bytes (2 ^ 64 - 1) ≡ some (scaled (2 ^ 64 - 1) (2 ^ 60) b'E')
unfolding format_bytes scale
format_bytes_largest = refl

format_bytes-Describes_example : Describes 3000 (format_bytes 3000)
format_bytes-Describes_example = format_bytes-Describes 3000 (omega arith)
