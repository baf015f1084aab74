-- ===== src/Queue/Simulation.antt =====
-- No sequence of calls tells a valid ring of pulsar-client-go/pulsar/internal/blocking_queue.go from
-- a bounded list.
use pr.Base.{
  Bool, List, Option, [], ap, ap₂, arith, false, if◌then◌else◌, length, length-replicate, none,
  refl, some, sym, true, ℕ, ℕ_discrete, ◌++◌, ◌-◌, ◌<◌, ◌==◌, ◌∙◌, ◌∷◌, ◌≡◌,
}
use pr.Queue.{
  BlockingQueue, new_blocking_queue, put_unsafe, dequeue, take_item, poll, compare_and_poll, peek,
  peek_last, read_from, readable_slice,
}
use pr.Queue.Refine.{
  IsValid, length-readable_slice, put_result-IsValid, readable_slice-put, dequeue-IsValid,
  readable_slice-dequeue, readable_slice-last,
}

-- What a client asks of the queue, and what it sees.
pub data Op (A : Type 0) : Type 0 where
  puts : Option A → Op A
  takes polls peeks peeks_last sizes reads : Op A
  compares : (Option A → Bool) → Op A

pub data Reply (A : Type 0) : Type 0 where
  waits : Reply A
  -- whether a reader was signalled
  stored : Bool → Reply A
  -- the item, and whether a writer was signalled
  taken : Option A → Bool → Reply A
  item : Option A → Reply A
  number : ℕ → Reply A
  slice : List (Option A) → Reply A

module _ {A : Type 0} where
  abbrev put_reply : BlockingQueue A → Option (BlockingQueue A × Bool) → BlockingQueue A × Reply A
  put_reply q none = (q, waits)
  put_reply q (some (q', signalled)) = (q', stored signalled)

  abbrev take_reply :
      BlockingQueue A → Option (BlockingQueue A × Option A × Bool) → BlockingQueue A × Reply A
  take_reply q none = (q, waits)
  take_reply q (some (q', x, signalled)) = (q', taken x signalled)

  abbrev with_item : BlockingQueue A × Option A × Bool → BlockingQueue A × Reply A
  with_item (q, x, signalled) = (q, taken x signalled)

  abbrev pub step : BlockingQueue A → Op A → BlockingQueue A × Reply A
  step q (puts x) = put_reply q (put_unsafe q x)
  step q takes = take_reply q (take_item q)
  step q polls = with_item (poll q)
  step q peeks = (q, item (peek q))
  step q peeks_last = (q, item (peek_last q))
  step q sizes = (q, number q.size)
  step q reads = (q, slice (readable_slice q))
  step q (compares f) = with_item (compare_and_poll q f)

  -- The specification: a list of at most `cap` items, oldest first. Readers are signalled when an item
  -- comes into an empty list, writers at every item that is taken.
  abbrev last_of : List (Option A) → Option A
  last_of [] = none
  last_of (x ∷ []) = x
  last_of (x ∷ y ∷ ys) = last_of (y ∷ ys)

  abbrev pub spec_step : ℕ → List (Option A) → Op A → List (Option A) × Reply A
  spec_step cap xs (puts x) =
      if length xs == cap then (xs, waits) else (xs ++ x ∷ [], stored (length xs == 0))
  spec_step cap [] takes = ([], waits)
  spec_step cap (y ∷ ys) takes = (ys, taken y true)
  spec_step cap [] polls = ([], taken none false)
  spec_step cap (y ∷ ys) polls = (ys, taken y true)
  spec_step cap [] peeks = ([], item none)
  spec_step cap (y ∷ ys) peeks = (y ∷ ys, item y)
  spec_step cap xs peeks_last = (xs, item (last_of xs))
  spec_step cap xs sizes = (xs, number (length xs))
  spec_step cap xs reads = (xs, slice xs)
  spec_step cap [] (compares f) = ([], taken none false)
  spec_step cap (y ∷ ys) (compares f) =
      if f y then (ys, taken y true) else (y ∷ ys, taken none false)

  last_of-append : (xs : List (Option A)) (y : Option A) → last_of (xs ++ y ∷ []) ≡ y
  last_of-append [] y = refl
  last_of-append (x ∷ []) y = refl
  last_of-append (x ∷ z ∷ zs) y = last_of-append (z ∷ zs) y

  abbrev pub run : BlockingQueue A → List (Op A) → List (Reply A)
  run q [] = []
  run q (o ∷ os) = (step q o).1 ∷ run (step q o).0 os

  abbrev pub spec_run : ℕ → List (Option A) → List (Op A) → List (Reply A)
  spec_run cap xs [] = []
  spec_run cap xs (o ∷ os) = (spec_step cap xs o).1 ∷ spec_run cap (spec_step cap xs o).0 os

  -- One call on a valid ring does to its readable items, and returns, what the specification does.
  record Refines (q : BlockingQueue A) (o : Op A) : Type 0 where
    valid : IsValid (step q o).0
    cap : (step q o).0.max_size ≡ q.max_size
    state : readable_slice (step q o).0 ≡ (spec_step q.max_size (readable_slice q) o).0
    reply : (step q o).1 ≡ (spec_step q.max_size (readable_slice q) o).1

  readable_slice-empty : (q : BlockingQueue A) → q.size ≡ 0 → readable_slice q ≡ []
  unfolding readable_slice read_from
  readable_slice-empty q e = rw (e, read_from)

  max_size-dequeue : (q : BlockingQueue A) → (dequeue q).0.max_size ≡ q.max_size
  unfolding dequeue
  max_size-dequeue q = refl

  step-Refines : (q : BlockingQueue A) (o : Op A) → IsValid q → Refines q o
  step-Refines q (puts x) v = elim (ℕ_discrete q.size q.max_size) [
    | yes full ↦ unfold put_unsafe in ground (arith, length-readable_slice q)
    | no room ↦
        let n = length-readable_slice q in
        unfold put_unsafe in
        ground (arith, n, put_result-IsValid q x v room, readable_slice-put q x v room)
  ]
  step-Refines q takes v = elim (ℕ_discrete q.size 0) [
    | yes empty ↦ unfold take_item in ground (arith, readable_slice-empty q empty)
    | no more ↦
        unfold take_item in
        ground
          (arith, dequeue-IsValid q v more, readable_slice-dequeue q v more, max_size-dequeue q)
  ]
  step-Refines q polls v = elim (ℕ_discrete q.size 0) [
    | yes empty ↦ unfold poll in ground (arith, readable_slice-empty q empty)
    | no more ↦
        unfold poll in
        ground
          (arith, dequeue-IsValid q v more, readable_slice-dequeue q v more, max_size-dequeue q)
  ]
  step-Refines q peeks v = elim (ℕ_discrete q.size 0) [
    | yes empty ↦ unfold peek in ground (arith, readable_slice-empty q empty)
    | no more ↦ unfold peek in ground (arith, readable_slice-dequeue q v more)
  ]
  step-Refines q peeks_last v = elim (ℕ_discrete q.size 0) [
    | yes empty ↦ unfold peek_last in ground (arith, readable_slice-empty q empty)
    | no more ↦ record {
      valid = v;
      cap = refl;
      state = refl;
      reply = ap item (
          sym (
            ap last_of (readable_slice-last q v more)
            ∙ last_of-append (read_from q.items q.max_size (q.size - 1) q.head_idx) (peek_last q)));
    }
  ]
  step-Refines q sizes v = ground (arith, length-readable_slice q)
  step-Refines q reads v = record { valid = v; cap = refl; state = refl; reply = refl }
  step-Refines q (compares f) v = elim (ℕ_discrete q.size 0) [
    | yes empty ↦ unfold compare_and_poll in ground (arith, readable_slice-empty q empty)
    | no more ↦
        unfold compare_and_poll in
        ground
          (arith, dequeue-IsValid q v more, readable_slice-dequeue q v more, max_size-dequeue q)
  ]

  -- No sequence of calls, of all methods, tells a valid ring from the list of its readable items
  -- bounded by the same maximum: every call returns the same, waits where it waits, and signals a
  -- waiting reader or writer where it does.
  pub run-spec_run :
      (q : BlockingQueue A) (os : List (Op A))
      → IsValid q
      → run q os ≡ spec_run q.max_size (readable_slice q) os
  run-spec_run q [] v = refl
  run-spec_run q (o ∷ os) v =
      let s = step-Refines q o v in
      ap₂ ◌∷◌ s.reply (
        run-spec_run (step q o).0 os s.valid
        ∙ ap (λ c. spec_run c (readable_slice (step q o).0) os) s.cap
        ∙ ap (λ xs. spec_run q.max_size xs os) s.state)

pub new_blocking_queue-IsValid :
    {A : Type 0} (n : ℕ)
    → 0 < n
    → IsValid (new_blocking_queue A n) × (readable_slice (new_blocking_queue A n) ≡ [])
unfolding readable_slice
new_blocking_queue-IsValid {A} n h =
    (ground (arith, length-replicate {0} {A = Option A} n none), refl)
