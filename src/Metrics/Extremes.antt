-- ===== src/Metrics/Extremes.antt =====
-- What the loop of `GetSummary` computes.
use pr.Base.{
  All, List, Some, [], ap, arith, inl, inr, length, refl, subst, sym, ℕ, ◌%◌, ◌+◌, ◌-◌, ◌<◌, ◌^◌,
  ◌∷◌, ◌≡◌, ◌≤◌, ◌⊎◌,
}
use pr.Metrics.{MemoryStats, MemoryMonitor}
use pr.Metrics.Summary.{
  Floats, MemorySummary, Scan, scan_step, scan, scan_start, summarise, get_summary,
}

heap_step :
    (a : Scan) (s : MemoryStats)
    → let b = scan_step a s in
      (b.min_heap ≤ a.min_heap)
      × (b.min_heap ≤ s.heap_alloc)
      × (a.max_heap ≤ b.max_heap)
      × (s.heap_alloc ≤ b.max_heap)
      × ((b.min_heap ≡ a.min_heap) ⊎ (s.heap_alloc ≡ b.min_heap))
      × ((b.max_heap ≡ a.max_heap) ⊎ (s.heap_alloc ≡ b.max_heap))
unfolding scan_step
heap_step a s = ground arith

-- The loop from any start keeps its minimum and maximum of the heap figures within bounds.
scan-heap :
    (a : Scan) (ss : List MemoryStats)
    → let b = scan a ss in
      (b.min_heap ≤ a.min_heap)
      × (a.max_heap ≤ b.max_heap)
      × All (λ s. (b.min_heap ≤ s.heap_alloc) × (s.heap_alloc ≤ b.max_heap)) ss
unfolding scan
scan-heap a [] = (omega arith, omega arith, tt)
scan-heap a (s ∷ ss) =
    let ih = scan-heap (scan_step a s) ss in
    let st = heap_step a s in
    (
      omega (arith, ih.0, st),
      omega (arith, ih.1, st),
      ((omega (arith, ih.0, st), omega (arith, ih.1, st)), ih.2),
    )

-- Each extreme is the start's or a sample's.
scan-min_heap_attained :
    (a : Scan) (ss : List MemoryStats)
    → ((scan a ss).min_heap ≡ a.min_heap) ⊎ Some (λ s. s.heap_alloc ≡ (scan a ss).min_heap) ss
unfolding scan
scan-min_heap_attained a [] = inl refl
scan-min_heap_attained a (s ∷ ss) =
    ground (arith, scan-min_heap_attained (scan_step a s) ss, heap_step a s)

scan-max_heap_attained :
    (a : Scan) (ss : List MemoryStats)
    → ((scan a ss).max_heap ≡ a.max_heap) ⊎ Some (λ s. s.heap_alloc ≡ (scan a ss).max_heap) ss
unfolding scan
scan-max_heap_attained a [] = inl refl
scan-max_heap_attained a (s ∷ ss) =
    ground (arith, scan-max_heap_attained (scan_step a s) ss, heap_step a s)

rss_step :
    (a : Scan) (s : MemoryStats)
    → let b = scan_step a s in
      (b.min_rss ≤ a.min_rss)
      × ((s.rss ≡ 0) ⊎ (b.min_rss ≤ s.rss))
      × ((b.min_rss ≡ a.min_rss) ⊎ ((s.rss ≡ b.min_rss) × (0 < s.rss)))
unfolding scan_step
rss_step a s = ground arith

scan-min_rss :
    (a : Scan) (ss : List MemoryStats)
    → ((scan a ss).min_rss ≤ a.min_rss) × All (λ s. (s.rss ≡ 0) ⊎ ((scan a ss).min_rss ≤ s.rss)) ss
unfolding scan
scan-min_rss a [] = (omega arith, tt)
scan-min_rss a (s ∷ ss) =
    let ih = scan-min_rss (scan_step a s) ss in
    let st = rss_step a s in (omega (arith, ih.0, st.0), (ground (arith, ih.0, st.1), ih.1))

scan-min_rss_attained :
    (a : Scan) (ss : List MemoryStats)
    → ((scan a ss).min_rss ≡ a.min_rss) ⊎ Some (λ s. (s.rss ≡ (scan a ss).min_rss) × (0 < s.rss)) ss
unfolding scan
scan-min_rss_attained a [] = inl refl
scan-min_rss_attained a (s ∷ ss) =
    ground (arith, scan-min_rss_attained (scan_step a s) ss, rss_step a s)

abbrev heap_total : List MemoryStats → ℕ
heap_total [] = 0
heap_total (s ∷ ss) = s.heap_alloc + heap_total ss

scan-total_heap :
    (a : Scan) (ss : List MemoryStats)
    → a.total_heap < 2 ^ 64
    → (scan a ss).total_heap ≡ (a.total_heap + heap_total ss) % 2 ^ 64
unfolding scan scan_step
scan-total_heap a [] h = omega arith
scan-total_heap a (s ∷ ss) h = omega (arith, scan-total_heap (scan_step a s) ss (omega arith))

module _ (fl : Floats) where
  open fl use {divide, of_u64}

  -- The figures of the heap are right for these samples.
  abbrev pub HeapIsRight : MemoryStats → List MemoryStats → MemorySummary fl → Type 0
  HeapIsRight first rest r =
      All (λ s. (r.min_heap_alloc ≤ s.heap_alloc) × (s.heap_alloc ≤ r.max_heap_alloc))
        (first ∷ rest)
      × Some (λ s. s.heap_alloc ≡ r.min_heap_alloc) (first ∷ rest)
      × Some (λ s. s.heap_alloc ≡ r.max_heap_alloc) (first ∷ rest)

  abbrev pub AverageIsRight : MemoryStats → List MemoryStats → MemorySummary fl → Type 0
  AverageIsRight first rest r =
      Path fl.Float r.avg_heap_alloc
        (divide (of_u64 (heap_total (first ∷ rest) % 2 ^ 64)) (of_u64 (length (first ∷ rest))))

  abbrev pub RssIsRight : MemoryStats → List MemoryStats → MemorySummary fl → Type 0
  RssIsRight first rest r =
      All (λ s. (s.rss ≡ 0) ⊎ (r.min_rss ≤ s.rss)) (first ∷ rest)
      × Some (λ s. (s.rss ≡ r.min_rss) × (0 < s.rss)) (first ∷ rest)

module _ (fl : Floats) (m : MemoryMonitor) (now : ℕ) (first : MemoryStats)
    (rest : List MemoryStats) where
  -- With at least one sample, the summary's minimum and maximum of HeapAlloc bound every sample and
  -- are each the figure of some sample, and its average is the samples' total, modulo 2 ^ 64,
  -- divided by their number.
  pub get_summary-heap :
      m.stats ≡ first ∷ rest
      → HeapIsRight fl first rest (get_summary fl m now)
        × AverageIsRight fl first rest (get_summary fl m now)
  unfolding get_summary
  get_summary-heap e =
      subst
        (λ ss.
          HeapIsRight fl first rest (summarise fl (now - m.start_time) ss)
          × AverageIsRight fl first rest (summarise fl (now - m.start_time) ss))
        (sym e)
        (
          (bounds.2, least, most),
          ap (λ t. fl.divide (fl.of_u64 t) (fl.of_u64 (length (first ∷ rest)))) total,
        )
    where
      start : Scan
      start = scan_start first

      bounds :
          ((scan start (first ∷ rest)).min_heap ≤ first.heap_alloc)
          × (0 ≤ (scan start (first ∷ rest)).max_heap)
          × All
              (λ s.
                ((scan start (first ∷ rest)).min_heap ≤ s.heap_alloc)
                × (s.heap_alloc ≤ (scan start (first ∷ rest)).max_heap))
              (first ∷ rest)
      bounds = scan-heap start (first ∷ rest)

      least : Some (λ s. s.heap_alloc ≡ (scan start (first ∷ rest)).min_heap) (first ∷ rest)
      least = elim (scan-min_heap_attained start (first ∷ rest)) [ inl e ↦ inl (sym e) | inr o ↦ o ]

      most : Some (λ s. s.heap_alloc ≡ (scan start (first ∷ rest)).max_heap) (first ∷ rest)
      most = elim (scan-max_heap_attained start (first ∷ rest)) [
        | inl e ↦ inl (omega (arith, e, bounds.2.0.1))
        | inr o ↦ o
      ]

      total : (scan start (first ∷ rest)).total_heap ≡ heap_total (first ∷ rest) % 2 ^ 64
      total = omega (arith, scan-total_heap start (first ∷ rest) (omega arith))

  -- If the first sample has a resident size, the summary's minimum is at most every resident size
  -- but the zeros of failed readings, and is one of them.
  pub get_summary-min_rss :
      m.stats ≡ first ∷ rest → 0 < first.rss → RssIsRight fl first rest (get_summary fl m now)
  unfolding get_summary
  get_summary-min_rss e h =
      subst (λ ss. RssIsRight fl first rest (summarise fl (now - m.start_time) ss)) (sym e)
        (
          (scan-min_rss (scan_start first) (first ∷ rest)).1,
          elim (scan-min_rss_attained (scan_start first) (first ∷ rest)) [
            | inl e ↦ inl (sym e, h)
            | inr o ↦ o
          ],
        )

  -- If the first reading of the resident size failed, the summary's minimum is zero, whatever the
  -- later samples are.
  pub get_summary-min_rss_zero :
      m.stats ≡ first ∷ rest → first.rss ≡ 0 → (get_summary fl m now).min_rss ≡ 0
  unfolding get_summary
  get_summary-min_rss_zero e h =
      subst (λ ss. (summarise fl (now - m.start_time) ss).min_rss ≡ 0) (sym e)
        (omega (arith, (scan-min_rss (scan_start first) (first ∷ rest)).0))
