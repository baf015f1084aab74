-- ===== src/Consumer/Retained.antt =====
-- How many payload bytes the processor of cmd/consumer/main.go holds on to.
use pr.Base.{
  All, Bool, Bool-cases, List, [], arith, false, if◌then◌else◌, inl, inr, length, length-append,
  refl, slt64, true, ℕ, ◌++◌, ◌+◌, ◌<◌, ◌^◌, ◌∷◌, ◌≡◌, ◌≤◌, ◌⊎◌,
}
use pr.Message.{Message, size, release_payload}
use pr.Metrics.{Reading}
use pr.Consumer.{
  BatchProcessor, add, kept, process, Event, interrupted, done, timed_out, received, Outcome,
  stopped, running, process_now, take_message, consume_loop, finish, consume, is_last,
}

-- The payload bytes that the pending messages keep reachable.
abbrev pub retained : List Message → ℕ
retained [] = 0
retained (m ∷ ms) = size m + retained ms

-- The bytes retained are those counted, or none if payloads are released; and a full batch is never
-- left pending.
pub record Holds (bp : BatchProcessor) : Type 0 where
  pub counted : retained bp.messages ≡ (if bp.release then 0 else bp.current_bytes)
  pub below : bp.current_bytes < bp.batch_size
  pub fits : bp.batch_size ≤ 2 ^ 62
  pub pending : (bp.current_bytes ≡ 0) ⊎ (0 < length bp.messages)

-- Every message is smaller than 2 ^ 62 bytes.
abbrev pub IsSmall : Event → Type 0
IsSmall (received m) = size m < 2 ^ 62
IsSmall _ = Unit

retained-append : (xs ys : List Message) → retained (xs ++ ys) ≡ retained xs + retained ys
retained-append [] ys = omega arith
retained-append (x ∷ xs) ys = omega (arith, retained-append xs ys)

size-kept : (b : Bool) (m : Message) → size (kept b m) ≡ (if b then 0 else size m)
unfolding release_payload
size-kept true m = refl
size-kept false m = refl

-- What holds of the processor between `Add` and `Process`.
record Added (bp : BatchProcessor) : Type 0 where
  counted : retained bp.messages ≡ (if bp.release then 0 else bp.current_bytes)
  fits : bp.batch_size ≤ 2 ^ 62
  small : bp.current_bytes < 2 ^ 63
  pending : 0 < length bp.messages

add-Added : (bp : BatchProcessor) (m : Message) → Holds bp → size m < 2 ^ 62 → Added (add bp m).0
unfolding add
add-Added bp m h s = ground (
  arith,
  retained-append bp.messages (kept bp.release m ∷ []),
  length-append bp.messages (kept bp.release m ∷ []),
  size-kept bp.release m,
)

add-Holds :
    (bp : BatchProcessor) (m : Message)
    → Holds bp
    → size m < 2 ^ 62
    → (add bp m).1 ≡ false
    → Holds (add bp m).0
unfolding add
add-Holds bp m h s e = ground (
  arith,
  retained-append bp.messages (kept bp.release m ∷ []),
  length-append bp.messages (kept bp.release m ∷ []),
  size-kept bp.release m,
)

-- `Process` on a batch leaves nothing pending.
process_now-empties :
    (r : ℕ → Reading) (k : ℕ) (bp : BatchProcessor)
    → 0 < length bp.messages
    → ((process_now r k bp).messages ≡ [])
      × ((process_now r k bp).current_bytes ≡ 0)
      × ((process_now r k bp).batch_size ≡ bp.batch_size)
unfolding process_now process
process_now-empties r k bp h = ground arith

-- What holds when the program has left the loop: nothing with bytes is pending.
abbrev pub OutcomeHolds : Outcome → Type 0
OutcomeHolds (stopped bp rest) = Holds bp × (bp.current_bytes ≡ 0)
OutcomeHolds (running bp) = Holds bp

abbrev LoopHolds : Outcome → Type 0
LoopHolds (stopped bp rest) = Holds bp
LoopHolds (running bp) = Holds bp

module _ (r : ℕ → Reading) (k : ℕ) where
  emptied-Holds :
      (bp : BatchProcessor)
      → 0 < length bp.messages
      → 0 < bp.batch_size
      → bp.batch_size ≤ 2 ^ 62
      → Holds (process_now r k bp)
  emptied-Holds bp p b f =
      let e = process_now-empties r k bp p in
      record {
        counted = rw (e.0, e.1) (zeros (process_now r k bp).release);
        below = omega (arith, e.1, e.2);
        fits = omega (arith, e.2);
        pending = inl e.1;
      }
    where
      zeros : (b : Bool) → ◌≡◌ {A = ℕ} 0 (if b then 0 else 0)
      zeros true = refl
      zeros false = refl

  process-Holds :
      (bp : BatchProcessor) → Holds bp → 0 < bp.current_bytes → Holds (process_now r k bp)
  process-Holds bp h p = emptied-Holds bp (ground arith) (omega arith) h.fits

  take_message-Holds :
      (bp : BatchProcessor) (m : Message)
      → Holds bp
      → size m < 2 ^ 62
      → Holds (take_message r k bp m).0
  unfolding take_message
  take_message-Holds bp m h s = elim (Bool-cases (add bp m).1) [
    | inl full ↦
        let a = add-Added bp m h s in
        rw full (emptied-Holds (add bp m).0 a.pending (same_size_pos bp m h) a.fits)
    | inr room ↦ rw room (add-Holds bp m h s room)
  ]
    where
      same_size_pos : (bp : BatchProcessor) (m : Message) → Holds bp → 0 < (add bp m).0.batch_size
      same_size_pos bp m h = unfold add in omega arith

  loop-Holds :
      (bp : BatchProcessor) (es : List Event)
      → Holds bp
      → All IsSmall es
      → LoopHolds (consume_loop r k bp es)
  unfolding consume_loop
  loop-Holds bp [] h s = h
  loop-Holds bp (interrupted ∷ es) h s = h
  loop-Holds bp (done ∷ es) h s = h
  loop-Holds bp (timed_out ∷ es) h s = elim (Bool-cases (is_last r k bp)) [
    | inl last ↦ rw (last, LoopHolds) (process-Holds bp h (ground arith))
    | inr more ↦ rw (more, LoopHolds) (loop-Holds bp es h s.1)
  ]
  loop-Holds bp (received m ∷ es) h s = elim (Bool-cases (take_message r k bp m).1) [
    | inl enough ↦ rw (enough, LoopHolds) (take_message-Holds bp m h s.0)
    | inr more ↦
        rw (more, LoopHolds)
          (loop-Holds (take_message r k bp m).0 es (take_message-Holds bp m h s.0) s.1)
  ]

  finish-Holds :
      (bp : BatchProcessor) → Holds bp → Holds (finish r k bp) × ((finish r k bp).current_bytes ≡ 0)
  unfolding finish
  finish-Holds bp h = elim (Bool-cases (slt64 0 bp.current_bytes)) [
    | inl some_left ↦
        let p : 0 < length bp.messages = ground arith in
        rw some_left (process-Holds bp h (ground arith), (process_now-empties r k bp p).1)
    | inr none_left ↦ rw none_left (h, ground arith)
  ]

  -- If every message is smaller than 2 ^ 62 bytes, then whatever the events are: the payload bytes
  -- that the pending messages retain are the bytes counted, or none at all if payloads are released;
  -- they stay below the batch size; and when the program has left its loop, no counted byte is
  -- pending.
  pub consume-OutcomeHolds :
      (bp : BatchProcessor) (es : List Event)
      → Holds bp
      → All IsSmall es
      → OutcomeHolds (consume r k bp es)
  unfolding consume
  consume-OutcomeHolds bp es h s = finishes (consume_loop r k bp es) (loop-Holds bp es h s)
    where
      finishes :
          (o : Outcome)
          → LoopHolds o
          → OutcomeHolds (elim o [
            | stopped bp' rest ↦ stopped (finish r k bp') rest
            | running bp' ↦ running bp'
          ])
      finishes (stopped b rest) e = finish-Holds b e
      finishes (running b) e = e
