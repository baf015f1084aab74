-- ===== src/PartitionConsumer/Flow.antt =====
-- The permits of a run of pulsar-client-go/pulsar/consumer_partition.go, on one connection.
use pr.Base.{
  All, Bool, List, [], arith, dec_lt, if_both, if◌then◌else◌, inl, inr, length, refl, subst, sym,
  true, ℕ, ◌++◌, ◌+◌, ◌<◌, ◌∷◌, ◌≡◌, ◌≤◌, ◌⊎◌,
}
use pr.Message.{Message}
use pr.Message.DeadLetter.{dead_letter}
use pr.PartitionConsumer.{
  Consumer, ConsumerOptions, ready, internal_flow, add_permits, take_batch, Event, frame, next,
  give_out, step, run, after_dispatch, dispatch, on_connected, total_length,
}
use pr.PartitionConsumer.Permits.{
  event_loss, losses, IsSmall, sum, queued, IsFixed, IsFlowing, recount, add_permits-IsFlowing,
}
use pr.PartitionConsumer.Receive.{message_received-IsFlowing}

module _ (o : ConsumerOptions) (fix : IsFixed o) where
  take_one :
      (lost : ℕ) (ms : List Message) (q : List (List Message)) (c : Consumer)
      → length ms + total_length q ≡ queued c
      → IsFlowing o lost 0 c
      → IsFlowing o lost 0 (elim ms [
        | [] ↦ elim q [ [] ↦ c | b ∷ rest ↦ record c { messages = b; queue_ch = rest } ]
        | m ∷ rest ↦ c
      ])
  take_one lost [] [] c e v = v
  take_one lost [] (b ∷ rest) c e v = recount lost lost 0 0 c _ refl refl refl refl (omega arith) v
  take_one lost (m ∷ rest) q c e v = v

  after_dispatch-IsFlowing :
      (lost : ℕ) (usage_low : Bool) (c : Consumer) (m : Message)
      → IsFlowing o lost 1 c
      → IsFlowing o lost 0 (after_dispatch o usage_low c m)
  unfolding after_dispatch
  after_dispatch-IsFlowing lost usage_low c m v =
      let e : after_dispatch o usage_low c m ≡ add_permits o c 1 =
        ground (arith, fix.fixed, fix.prefetches) in
      subst (IsFlowing o lost 0) (sym e) (
        add_permits-IsFlowing o fix lost 0 1 c (omega arith)
          (recount lost lost 1 (1 + 0) c c refl refl refl refl (omega arith) v))

  dispatch_one :
      (lost : ℕ) (usage_low : Bool) (ms : List Message) (c : Consumer)
      → length ms + total_length c.queue_ch ≡ queued c
      → IsFlowing o lost 0 c
      → IsFlowing o lost 0 (elim ms [
        | [] ↦ c
        | m ∷ rest ↦
            if c.is_seeking
            then c
            else after_dispatch o usage_low
                (if o.to_dlq m
                  then record c { messages = rest; dead = c.dead ++ (dead_letter o.decimal m ∷ []) }
                  else record c { messages = rest; dispatched = c.dispatched ++ (m ∷ []) })
                m
      ])
  dispatch_one lost usage_low [] c e v = v
  dispatch_one lost usage_low (m ∷ rest) c e v = if_both (IsFlowing o lost 0) c.is_seeking _ _ v (
      after_dispatch-IsFlowing lost usage_low _ m (
        if_both (IsFlowing o lost 1) (o.to_dlq m) _ _
          (recount lost lost 0 1 c _ refl refl refl refl (omega arith) v)
          (recount lost lost 0 1 c _ refl refl refl refl (omega arith) v)))

  step-IsFlowing :
      (lost : ℕ) (c : Consumer) (e : Event)
      → IsSmall e
      → IsFlowing o lost 0 c
      → IsFlowing o (lost + event_loss e) 0 (step o c e)
  unfolding step take_batch dispatch
  step-IsFlowing lost c (frame f) s v = message_received-IsFlowing o fix lost f c s v
  step-IsFlowing lost c next s v =
      recount lost (lost + 0) 0 0 _ _ refl refl refl refl (omega arith)
        (take_one lost c.messages c.queue_ch c refl v)
  step-IsFlowing lost c (give_out usage_low) s v =
      recount lost (lost + 0) 0 0 _ _ refl refl refl refl (omega arith)
        (dispatch_one lost usage_low c.messages c refl v)

  run-IsFlowing :
      (lost : ℕ) (c : Consumer) (es : List Event)
      → All IsSmall es
      → IsFlowing o lost 0 c
      → IsFlowing o (lost + losses es) 0 (run o c es)
  unfolding run
  run-IsFlowing lost c [] s v = recount lost (lost + 0) 0 0 c c refl refl refl refl (omega arith) v
  run-IsFlowing lost c (e ∷ es) s v =
      recount (lost + event_loss e + losses es) (lost + (event_loss e + losses es)) 0 0 _ _ refl
        refl refl refl (omega arith)
        (run-IsFlowing (lost + event_loss e) (step o c e) es s.1 (step-IsFlowing lost c e s.0 v))

-- On a connection on which nothing waits yet, in a queue of a fixed size, and whatever frames come, none
-- with more than 2 ^ 30 messages, and whenever the application takes a message: the permits that were
-- given, those that were gained and not given yet, the messages that wait, and those that corrupt
-- frames took with them, all but one for each such frame, are the size of the queue and the messages
-- that came. The permits that are held back stay below the threshold.
pub run-flow :
    (o : ConsumerOptions) (c : Consumer) (es : List Event)
    → IsFixed o
    → c.state ≡ ready
    → total_length c.queue_ch ≡ 0
    → All IsSmall es
    → IsFlowing o (losses es) 0 (run o (on_connected o c) es)
unfolding on_connected internal_flow
run-flow o c es fix live empty small =
    let c' = record c { messages = []; permits = 0; connected = true; flows = []; taken = 0 } in
    let given = record c' { flows = o.max_queue_size ∷ [] } in
    let e : on_connected o c ≡ given = ground (arith, fix.fixed, fix.nonempty, live) in
    let start : IsFlowing o 0 0 given = record {
      live = live;
      online = refl;
      below = omega arith;
      total = omega arith;
    } in
    recount (0 + losses es) (losses es) 0 0 _ _ refl refl refl refl (omega arith)
      (run-IsFlowing o fix 0 (on_connected o c) es small (subst (IsFlowing o 0 0) (sym e) start))

-- On a new connection of a ready consumer, with a queue of a fixed size that is not 0 and in which
-- nothing waits, whatever frames come, none of them corrupt and none with more than 2 ^ 30 messages, and whenever the application takes a
-- message: what waits and the permits given are no more than the size of the queue and what came,
-- and either a message waits for the application, or the broker may send one.
pub run-supply :
    (o : ConsumerOptions) (c : Consumer) (es : List Event)
    → IsFixed o
    → c.state ≡ ready
    → total_length c.queue_ch ≡ 0
    → All IsSmall es
    → losses es ≡ 0
    → let c' = run o (on_connected o c) es in
      (queued c' + sum c'.flows ≤ o.max_queue_size + c'.taken)
      × ((0 < queued c') ⊎ (c'.taken < sum c'.flows))
run-supply o c es fix live empty small whole =
    let c' = run o (on_connected o c) es in
    let v = run-flow o c es fix live empty small in
    let below = v.below in
    let total = v.total in
    let positive = fix.nonempty in
    (omega arith, elim (dec_lt 0 (queued c')) [ yes h ↦ inl h | no h ↦ inr (omega arith) ])
