-- ===== src/PartitionProducer/Settle.antt =====
-- Receipts, timeouts, failures, flushes and the close of pulsar-client-go/pulsar/
-- producer_partition.go, and the balance of a producer.
use pr.Base.{
  List, Option, [], ap, arith, if_both, if◌then◌else◌, length, ltb, none, refl, some, suc, zero, ℕ,
  ◌++◌, ◌+◌, ◌-◌, ◌==◌, ◌∷◌, ◌≡◌,
}
use pr.PartitionProducer.{
  Producer, ProducerOptions, SendRequest, SendError, PendingItem, Builder, sent, topic_not_found,
  topic_terminated, quota_exceeded, producer_fenced, send_timeout, closing, is_closing_or_closed,
}
use pr.PartitionProducer.Handlers.{
  item_done, receive_all, received_send_receipt, fail_item, fail_items, fail_pending_messages,
  may_close, fail_due, fail_timeout_messages, do_close, send_from_channel, add_flush_to_last,
  wait_for_last, clear_pending_send_requests, internal_flush, reconnect_failed,
}
use pr.PartitionProducer.Weights.{load, load_items, load-append, IsBalanced}
use pr.PartitionProducer.Balance.{
  rebalance, done-IsBalanced, done_all-IsBalanced, internal_flush_current_batch-IsBalanced,
  internal_send-IsBalanced,
}

item_done-IsBalanced :
    (p : Producer) (it : PendingItem) (e : Option SendError) (hand : List SendRequest)
    → IsBalanced p hand
    → IsBalanced (item_done p it e) hand
unfolding item_done
item_done-IsBalanced p it e hand v =
    if_both (λ x. IsBalanced x hand) it.is_done _ _ v
      (rebalance p _ hand hand refl refl refl refl (λ w. refl) v)

receive_all-IsBalanced :
    (q l n size idx : ℕ) (p : Producer) (srs hand : List SendRequest)
    → IsBalanced p (srs ++ hand)
    → IsBalanced (receive_all q l n size idx p srs) hand
unfolding receive_all
receive_all-IsBalanced q l n size idx p [] hand v = v
receive_all-IsBalanced q l n size idx p (sr ∷ srs) hand v =
    receive_all-IsBalanced q l n size (idx + 1) _ srs hand (
      done-IsBalanced (record p { last_sequence_id = q }) sr (srs ++ hand) (sent l n idx size)
        (rebalance p _ (sr ∷ srs ++ hand) (sr ∷ srs ++ hand) refl refl refl refl (λ w. refl) v))

-- The requests of the oldest item, taken in hand.
take_item :
    (p : Producer) (it : PendingItem) (rest : List PendingItem) (hand : List SendRequest)
    → p.pending ≡ it ∷ rest
    → IsBalanced p hand
    → IsBalanced (record p { pending = rest }) (it.send_requests ++ hand)
take_item p it rest hand e v =
    rebalance p (record p { pending = rest }) hand (it.send_requests ++ hand) refl refl refl refl
      (λ w. omega (arith, load-append w it.send_requests hand, ap (load_items w) e)) v

receipt_list :
    (q l n : ℕ) (p : Producer) (its : List PendingItem)
    → p.pending ≡ its
    → IsBalanced p []
    → IsBalanced (received_send_receipt q l n (record p { pending = its })) []
unfolding received_send_receipt
receipt_list q l n p [] e v =
    rebalance p _ [] [] refl refl refl refl (λ w. omega (arith, ap (load_items w) e)) v
receipt_list q l n p (it ∷ rest) e v =
    let same =
      rebalance p (record p { pending = it ∷ rest }) [] [] refl refl refl refl
        (λ w. omega (arith, ap (load_items w) e)) v in
    if_both (λ x. IsBalanced x []) (ltb it.sequence_id q) _ _
      (rebalance _ _ [] [] refl refl refl refl (λ w. refl) same)
      (if_both (λ x. IsBalanced x []) (ltb q it.sequence_id) _ _ same
        (item_done-IsBalanced _ it none [] (
          receive_all-IsBalanced it.sequence_id l n (length it.send_requests) 0
            (record p { pending = rest }) it.send_requests [] (take_item p it rest [] e v))))

pub received_send_receipt-IsBalanced :
    (q l n : ℕ) (p : Producer) → IsBalanced p [] → IsBalanced (received_send_receipt q l n p) []
received_send_receipt-IsBalanced q l n p v = receipt_list q l n p p.pending refl v

fail_item-IsBalanced :
    (p : Producer) (it : PendingItem) (rest : List PendingItem) (e : SendError)
    → p.pending ≡ it ∷ rest
    → IsBalanced p []
    → IsBalanced (fail_item (record p { pending = rest }) it e) []
unfolding fail_item
fail_item-IsBalanced p it rest e k v =
    item_done-IsBalanced _ it (some e) []
      (done_all-IsBalanced _ it.send_requests [] e (take_item p it rest [] k v))

fail_items-IsBalanced :
    (left : ℕ) (p : Producer) (its : List PendingItem) (e : SendError)
    → p.pending ≡ its
    → IsBalanced p []
    → IsBalanced (fail_items left p e) []
unfolding fail_items
fail_items-IsBalanced zero p its e k v = v
fail_items-IsBalanced (suc left) p [] e k v = rw (k, fail_items) v
fail_items-IsBalanced (suc left) p (it ∷ rest) e k v =
    rw (k, fail_items)
      (fail_items-IsBalanced left _ _ e refl (fail_item-IsBalanced p it rest e k v))

-- With the time that the timer is set to.
abbrev IsSettled : Producer × Option ℕ → Type 0
IsSettled x = IsBalanced x.0 []

fail_due-IsBalanced :
    (limit now left : ℕ) (p : Producer) (its : List PendingItem)
    → p.pending ≡ its
    → IsBalanced p []
    → IsBalanced (fail_due limit now left p).0 []
unfolding fail_due
fail_due-IsBalanced limit now zero p its k v = v
fail_due-IsBalanced limit now (suc left) p [] k v = rw (k, fail_due) v
fail_due-IsBalanced limit now (suc left) p (it ∷ rest) k v =
    let v' = fail_item-IsBalanced p it rest send_timeout k v in
    rw (k, fail_due)
      (if_both IsSettled (ltb now (it.created_at + limit)) _ _ v
        (if_both IsSettled (left == 0) _ _ v' (fail_due-IsBalanced limit now left _ _ refl v')))

timer_list :
    (limit now : ℕ) (p : Producer) (its : List PendingItem)
    → IsBalanced p []
    → IsSettled (fail_due limit now (length p.pending) p)
    → IsSettled (elim its [
      | [] ↦ (p, some limit)
      | it ∷ rest ↦
          if ltb now (it.created_at + limit)
          then (p, some (it.created_at + limit - now))
          else fail_due limit now (length p.pending) p
    ])
timer_list limit now p [] v due = v
timer_list limit now p (it ∷ rest) v due =
    if_both IsSettled (ltb now (it.created_at + limit)) _ _ v due

pub fail_timeout_messages-IsBalanced :
    (limit now : ℕ) (p : Producer)
    → IsBalanced p []
    → IsBalanced (fail_timeout_messages limit now p).0 []
unfolding fail_timeout_messages
fail_timeout_messages-IsBalanced limit now p v =
    let due = fail_due-IsBalanced limit now (length p.pending) p p.pending refl v in
    if_both IsSettled (is_closing_or_closed p.state) _ _ v (timer_list limit now p p.pending v due)

pub do_close-IsBalanced :
    (p : Producer) (e : SendError) → IsBalanced p [] → IsBalanced (do_close p e) []
unfolding do_close fail_pending_messages
do_close-IsBalanced p e v =
    if_both (λ x. IsBalanced x []) (may_close p.state) _ _
      (rebalance _ _ [] [] refl refl refl refl (λ w. refl)
        (fail_items-IsBalanced (length p.pending) (record p { state = closing }) p.pending e refl
          (rebalance p _ [] [] refl refl refl refl (λ w. refl) v)))
      v

pub send_from_channel-IsBalanced :
    (b : Builder) (now n : ℕ) (p : Producer) (srs : List SendRequest)
    → p.data_chan ≡ srs
    → IsBalanced p []
    → IsBalanced (send_from_channel b now n p) []
unfolding send_from_channel
send_from_channel-IsBalanced b now zero p srs k v = v
send_from_channel-IsBalanced b now (suc n) p [] k v = rw (k, send_from_channel) v
send_from_channel-IsBalanced b now (suc n) p (sr ∷ rest) k v =
    let v' =
      internal_send-IsBalanced b now (record p { data_chan = rest }) sr []
        (rebalance p _ [] (sr ∷ []) refl refl refl refl (λ w. omega (arith, ap (load w) k)) v) in
    rw (k, send_from_channel) (send_from_channel-IsBalanced b now n _ _ refl v')

load_items-add_flush :
    (w : SendRequest → ℕ) (f : ℕ) (its : List PendingItem)
    → load_items w (add_flush_to_last f its) ≡ load_items w its
load_items-add_flush w f [] = refl
load_items-add_flush w f (it ∷ []) = refl
load_items-add_flush w f (it ∷ it' ∷ its) =
    ap (λ n. load w it.send_requests + n) (load_items-add_flush w f (it' ∷ its))

wait_for_last-IsBalanced :
    (f : ℕ) (p : Producer) (its : List PendingItem)
    → p.pending ≡ its
    → IsBalanced p []
    → IsBalanced (wait_for_last f p) []
unfolding wait_for_last
wait_for_last-IsBalanced f p [] k v =
    rw k (rebalance p _ [] [] refl refl refl refl (λ w. omega (arith, ap (load_items w) k)) v)
wait_for_last-IsBalanced f p (it ∷ its) k v = rw k (
    rebalance p _ [] [] refl refl refl refl
      (λ w. omega (arith, ap (load_items w) k, load_items-add_flush w f (it ∷ its))) v)

pub internal_flush-IsBalanced :
    (o : ProducerOptions) (b : Builder) (now : ℕ) (p : Producer) (f : ℕ)
    → IsBalanced p []
    → IsBalanced (internal_flush o b now p f) []
unfolding internal_flush clear_pending_send_requests
internal_flush-IsBalanced o b now p f v =
    let v' = send_from_channel-IsBalanced b now (length p.data_chan) p p.data_chan refl v in
    wait_for_last-IsBalanced f _ _ refl (
      if_both (λ x. IsBalanced x []) o.disable_batching _ _ v'
        (internal_flush_current_batch-IsBalanced b now _ [] v'))

pub reconnect_failed-IsBalanced :
    (p : Producer) (e : SendError) → IsBalanced p [] → IsBalanced (reconnect_failed p e) []
unfolding reconnect_failed fail_pending_messages
reconnect_failed-IsBalanced p topic_not_found v = do_close-IsBalanced p topic_not_found v
reconnect_failed-IsBalanced p topic_terminated v = do_close-IsBalanced p topic_terminated v
reconnect_failed-IsBalanced p quota_exceeded v =
    fail_items-IsBalanced (length p.pending) p p.pending quota_exceeded refl v
reconnect_failed-IsBalanced p producer_fenced v = do_close-IsBalanced p producer_fenced v
reconnect_failed-IsBalanced p _ v = v
