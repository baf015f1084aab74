-- ===== src/PartitionProducer/Timeouts.antt =====
-- Which items time out in pulsar-client-go/pulsar/producer_partition.go, and what the timer is set to.
use pr.Base.{
  List, [], ap, arith, false, if◌then◌else◌, length, ltb, refl, some, suc, zero, ℕ, ◌+◌, ◌-◌, ◌<◌,
  ◌==◌, ◌∷◌, ◌≡◌,
}
use pr.PartitionProducer.{
  Producer, SendRequest, SendError, PendingItem, done, done_all, failed, send_timeout,
  is_closing_or_closed,
}
use pr.PartitionProducer.Handlers.{item_done, fail_item, fail_due, fail_timeout_messages}

done_all-pending :
    (p : Producer) (srs : List SendRequest) (e : SendError) → (done_all p srs e).pending ≡ p.pending
unfolding done_all done
done_all-pending p [] e = refl
done_all-pending p (sr ∷ srs) e = done_all-pending (done p sr (failed e)) srs e

pub fail_item-pending :
    (p : Producer) (it : PendingItem) (e : SendError) → (fail_item p it e).pending ≡ p.pending
unfolding fail_item item_done
fail_item-pending p it e = ground (arith, done_all-pending p it.send_requests e)

-- The items from the first on that is not due.
abbrev pub drop_due : (send_timeout now : ℕ) → List PendingItem → List PendingItem
drop_due limit now [] = []
drop_due limit now (it ∷ its) =
    if ltb now (it.created_at + limit) then it ∷ its else drop_due limit now its

fail_due-drop_due :
    (limit now : ℕ) (its : List PendingItem) (left : ℕ) (p : Producer)
    → p.pending ≡ its
    → left ≡ length its
    → 0 < left
    → ((fail_due limit now left p).0.pending ≡ drop_due limit now its)
      × ((fail_due limit now left p).1 ≡ some limit)
unfolding fail_due
fail_due-drop_due limit now its zero p k l h = absurd (omega arith)
fail_due-drop_due limit now [] (suc left) p k l h = absurd (omega arith)
fail_due-drop_due limit now (it ∷ []) (suc left) p k l h =
    let e : left ≡ 0 = omega arith in
    ground (arith, k, e, fail_item-pending (record p { pending = [] }) it send_timeout)
fail_due-drop_due limit now (it ∷ it' ∷ its) (suc left) p k l h =
    let p' = fail_item (record p { pending = it' ∷ its }) it send_timeout in
    let n : (left == 0) ≡ false = ground arith in
    let ih =
      fail_due-drop_due limit now (it' ∷ its) left p'
        (fail_item-pending (record p { pending = it' ∷ its }) it send_timeout) (omega arith)
        (omega arith) in
    ground (arith, k, n, ih)

-- What is left of the oldest item's time, or the whole if it is over or there is none.
abbrev pub next_timer : (send_timeout now : ℕ) → List PendingItem → ℕ
next_timer limit now [] = limit
next_timer limit now (it ∷ its) =
    if ltb now (it.created_at + limit) then it.created_at + limit - now else limit

timeouts_list :
    (limit now : ℕ) (p : Producer) (its : List PendingItem)
    → p.pending ≡ its
    → is_closing_or_closed p.state ≡ false
    → ((fail_timeout_messages limit now p).0.pending ≡ drop_due limit now its)
      × ((fail_timeout_messages limit now p).1 ≡ some (next_timer limit now its))
unfolding fail_timeout_messages
timeouts_list limit now p [] k o = ground arith
timeouts_list limit now p (it ∷ its) k o =
    let n : length p.pending ≡ length (it ∷ its) = ap length k in
    let due = fail_due-drop_due limit now (it ∷ its) (length p.pending) p k n (omega arith) in
    ground (arith, due)

-- When the timer fires on a producer that is open, exactly the items at the front of the queue whose
-- time is over leave it; and the timer is set again: to what the oldest item has left, or to the
-- whole timeout if the queue was empty or the oldest item was over its time, also when the next item
-- has less left than that.
pub fail_timeout_messages-drop_due :
    (limit now : ℕ) (p : Producer)
    → is_closing_or_closed p.state ≡ false
    → ((fail_timeout_messages limit now p).0.pending ≡ drop_due limit now p.pending)
      × ((fail_timeout_messages limit now p).1 ≡ some (next_timer limit now p.pending))
fail_timeout_messages-drop_due limit now p o = timeouts_list limit now p p.pending refl o
