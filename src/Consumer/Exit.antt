-- ===== src/Consumer/Exit.antt =====
-- When the main loop of cmd/consumer/main.go stops, and what it leaves behind.
use pr.Base.{
  All, Bool, Bool-cases, List, [], add64, ap, arith, false, inl, inr, refl, suc, true, zero, ℕ, ◌<◌,
  ◌^◌, ◌∙◌, ◌∷◌, ◌≡◌, ◌≤◌, ◌⊎◌,
}
use pr.Message.{Message, MessageId, size}
use pr.Metrics.{Reading}
use pr.Consumer.{
  BatchProcessor, add, process, Event, interrupted, done, timed_out, received, Outcome, stopped,
  running, process_now, take_message, consume_loop, finish, consume, is_last,
}

abbrev pub timeouts : ℕ → List Event → List Event
timeouts zero es = es
timeouts (suc n) es = timed_out ∷ timeouts n es

abbrev pub arrivals : List Message → List Event → List Event
arrivals [] es = es
arrivals (m ∷ ms) es = received m ∷ arrivals ms es

abbrev pub acked_of : Outcome → List MessageId
acked_of (stopped bp rest) = bp.acked
acked_of (running bp) = bp.acked

-- The number of batches, at most `k` after the program and fewer while it loops.
abbrev pub CountWithin : ℕ → Outcome → Type 0
CountWithin k (stopped bp rest) = bp.batch_count ≤ k
CountWithin k (running bp) = bp.batch_count < k

abbrev LoopWithin : ℕ → Outcome → Type 0
LoopWithin k (stopped bp rest) =
    (bp.batch_count < k) ⊎ ((bp.batch_count ≤ k) × (bp.current_bytes ≡ 0))
LoopWithin k (running bp) = bp.batch_count < k

module _ (r : ℕ → Reading) (k : ℕ) where
  loop-timeouts :
      (bp : BatchProcessor) (n : ℕ) (es : List Event)
      → bp.batch_count ≡ 0
      → consume_loop r k bp (timeouts n es) ≡ consume_loop r k bp es
  unfolding consume_loop
  loop-timeouts bp zero es h = refl
  loop-timeouts bp (suc n) es h = rw (← loop-timeouts bp n es h) (ground arith)

  -- Before the first finished batch no number of timeouts ends the loop, whatever is pending: the
  -- program goes on as if they had not happened.
  pub consume-timeouts :
      (bp : BatchProcessor) (n : ℕ) (es : List Event)
      → bp.batch_count ≡ 0
      → consume r k bp (timeouts n es) ≡ consume r k bp es
  unfolding consume
  consume-timeouts bp n es h = rw (loop-timeouts bp n es h, consume)

  -- A batch is counted once, and leaves no bytes pending.
  process_now-count :
      (bp : BatchProcessor)
      → (process_now r k bp ≡ bp)
        ⊎ (((process_now r k bp).batch_count ≡ add64 bp.batch_count 1)
            × ((process_now r k bp).current_bytes ≡ 0))
  unfolding process_now process
  process_now-count bp = ground arith

  count-add : (bp : BatchProcessor) (m : Message) → (add bp m).0.batch_count ≡ bp.batch_count
  unfolding add
  count-add bp m = refl

  process_now-Within :
      (bp : BatchProcessor) (es : List Event)
      → k < 2 ^ 63
      → bp.batch_count < k
      → LoopWithin k (stopped (process_now r k bp) es)
  process_now-Within bp es f h = elim (process_now-count bp) [
    | inl e ↦ inl (rw e h)
    | inr e ↦ inr (omega (arith, e.0), e.1)
  ]

  -- A message either ends the loop within the limit, or leaves the count below it.
  take_message-Within :
      (bp : BatchProcessor) (m : Message) (es : List Event)
      → 0 < k
      → k < 2 ^ 63
      → bp.batch_count < k
      → (((take_message r k bp m).1 ≡ true) × LoopWithin k (stopped (take_message r k bp m).0 es))
        ⊎ (((take_message r k bp m).1 ≡ false) × ((take_message r k bp m).0.batch_count < k))
  unfolding take_message
  take_message-Within bp m es p f h =
      ground (arith, process_now-Within (add bp m).0 es f (rw (count-add bp m) h), count-add bp m)

  loop-Within :
      (bp : BatchProcessor) (es : List Event)
      → 0 < k
      → k < 2 ^ 63
      → bp.batch_count < k
      → LoopWithin k (consume_loop r k bp es)
  unfolding consume_loop
  loop-Within bp [] p f h = h
  loop-Within bp (interrupted ∷ es) p f h = inl h
  loop-Within bp (done ∷ es) p f h = inl h
  loop-Within bp (timed_out ∷ es) p f h = elim (Bool-cases (is_last r k bp)) [
    | inl last ↦ rw (last, LoopWithin) (process_now-Within bp es f h)
    | inr more ↦ rw (more, LoopWithin) (loop-Within bp es p f h)
  ]
  loop-Within bp (received m ∷ es) p f h = elim (take_message-Within bp m es p f h) [
    | inl (enough, w) ↦ rw (enough, LoopWithin) w
    | inr (more, w) ↦ rw (more, LoopWithin) (loop-Within (take_message r k bp m).0 es p f w)
  ]

  finish-Within :
      (bp : BatchProcessor) (es : List Event)
      → k < 2 ^ 63
      → LoopWithin k (stopped bp es)
      → (finish r k bp).batch_count ≤ k
  unfolding finish
  finish-Within bp es f h = ground (arith, process_now-count bp)

  -- With a positive limit on the number of batches, the program never finishes more batches than
  -- that, whatever the events are, and has finished fewer while it is still in its loop.
  pub consume-CountWithin :
      (bp : BatchProcessor) (es : List Event)
      → 0 < k
      → k < 2 ^ 63
      → bp.batch_count < k
      → CountWithin k (consume r k bp es)
  unfolding consume
  consume-CountWithin bp es p f h = finishes (consume_loop r k bp es) (loop-Within bp es p f h)
    where
      finishes :
          (o : Outcome)
          → LoopWithin k o
          → CountWithin k (elim o [
            | stopped bp' rest ↦ stopped (finish r k bp') rest
            | running bp' ↦ running bp'
          ])
      finishes (stopped b rest) w = finish-Within b rest f w
      finishes (running b) w = w

  -- A message without payload goes to the batch, and is not enough for processing it.
  take_message-empty :
      (bp : BatchProcessor) (m : Message)
      → size m ≡ 0
      → bp.current_bytes ≡ 0
      → 0 < bp.batch_size
      → bp.batch_size < 2 ^ 63
      → take_message r k bp m ≡ ((add bp m).0, false)
  unfolding take_message add
  take_message-empty bp m s c p f = ground arith

  consume-received :
      (bp b : BatchProcessor) (m : Message) (es : List Event)
      → take_message r k bp m ≡ (b, false)
      → consume r k bp (received m ∷ es) ≡ consume r k b es
  unfolding consume consume_loop
  consume-received bp b m es e =
      rw (e, consume, consume_loop) (ap (λ (t : BatchProcessor × Bool). consume r k t.0 es) e)

  add-empty :
      (bp : BatchProcessor) (m : Message)
      → size m ≡ 0
      → bp.current_bytes ≡ 0
      → ((add bp m).0.current_bytes ≡ 0)
        × ((add bp m).0.batch_size ≡ bp.batch_size)
        × ((add bp m).0.acked ≡ bp.acked)
  unfolding add
  add-empty bp m s c = (omega arith, refl, refl)

  -- Messages without payload that are all the program received since its last batch are never
  -- acknowledged when a signal ends it.
  pub consume-empty_unacked :
      (bp : BatchProcessor) (ms : List Message) (es : List Event)
      → bp.current_bytes ≡ 0
      → 0 < bp.batch_size
      → bp.batch_size < 2 ^ 63
      → All (λ m. size m ≡ 0) ms
      → acked_of (consume r k bp (arrivals ms (interrupted ∷ es))) ≡ bp.acked
  consume-empty_unacked bp [] es c p f s = unfold consume consume_loop finish in ground arith
  consume-empty_unacked bp (m ∷ ms) es c p f s =
      let a = add-empty bp m s.0 c in
      ap acked_of (consume-received bp (add bp m).0 m _ (take_message-empty bp m s.0 c p f))
      ∙ consume-empty_unacked (add bp m).0 ms es a.0 (omega (arith, a.1)) (omega (arith, a.1)) s.1
      ∙ a.2
