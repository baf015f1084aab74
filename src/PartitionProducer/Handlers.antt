-- ===== src/PartitionProducer/Handlers.antt =====
-- Receipts, timeouts, flushes and the close of pulsar-client-go/pulsar/producer_partition.go, and
-- all that happens to a producer as events. Each method runs as one step: that a receipt peeks and
-- polls without a lock while the timer polls is in Overlap.
use pr.Base.{
  Bool, List, Option, [], false, if◌then◌else◌, length, ltb, none, some, suc, true, zero, ℕ, ◌++◌,
  ◌+◌, ◌-◌, ◌==◌, ◌∷◌,
}
use pr.PartitionProducer.{
  Producer, ProducerOptions, ProducerState, SendRequest, SendError, PendingItem, Builder, sent,
  done, done_all, is_closing_or_closed, internal_send, internal_flush_current_batch, ready,
  connecting, closing, closed, send_timeout, producer_closed, topic_not_found, topic_terminated,
  quota_exceeded, producer_fenced,
}
use pr.PartitionProducer.Async.{ProducerMessage, Surroundings, internal_send_async}

abbrev pub flush_all : List ℕ → Option SendError → List (ℕ × Option SendError)
flush_all [] e = []
flush_all (f ∷ fs) e = (f, e) ∷ flush_all fs e

-- `pi.done` of an item that left the queue: its flush callbacks run, once.
unfoldable pub item_done : Producer → PendingItem → Option SendError → Producer
item_done p it e =
    if it.is_done then p else record p { flushes = p.flushes ++ flush_all it.flush_callbacks e }

-- The requests of an item that the broker has stored, by their index in the batch.
unfoldable pub receive_all :
    (sequence_id ledger entry batch_size : ℕ) → ℕ → Producer → List SendRequest → Producer
unfolding done
receive_all q ledger entry size idx p [] = p
receive_all q ledger entry size idx p (sr ∷ srs) =
    receive_all q ledger entry size (idx + 1)
      (done (record p { last_sequence_id = q }) sr (sent ledger entry idx size)) srs

unfoldable pub received_send_receipt : (sequence_id ledger entry : ℕ) → Producer → Producer
unfolding receive_all item_done
received_send_receipt q ledger entry p = elim p.pending [
  | [] ↦ p
  | it ∷ rest ↦
      if ltb it.sequence_id q
      then record p { connection_closed = true }
      else if ltb q it.sequence_id
      then p
      else item_done
          (receive_all it.sequence_id ledger entry (length it.send_requests) 0
            (record p { pending = rest }) it.send_requests)
          it none
]

-- An item that was taken off the queue fails with all its requests.
unfoldable pub fail_item : Producer → PendingItem → SendError → Producer
unfolding done_all item_done
fail_item p it e = item_done (done_all p it.send_requests e) it (some e)

unfoldable pub fail_items : ℕ → Producer → SendError → Producer
unfolding fail_item
fail_items zero p e = p
fail_items (suc left) p e = elim p.pending [
  | [] ↦ p
  | it ∷ rest ↦ fail_items left (fail_item (record p { pending = rest }) it e) e
]

unfoldable pub fail_pending_messages : Producer → SendError → Producer
unfolding fail_items
fail_pending_messages p e = fail_items (length p.pending) p e

-- The view's items from the oldest, until one is not due. Also what the timer is set to, if it is.
unfoldable pub fail_due : (send_timeout now : ℕ) → ℕ → Producer → Producer × Option ℕ
unfolding fail_item
fail_due timeout now zero p = (p, none)
fail_due timeout now (suc left) p = elim p.pending [
  | [] ↦ (p, some timeout)
  | it ∷ rest ↦
      let p' = fail_item (record p { pending = rest }) it send_timeout in
      let more = fail_due timeout now left p' in
      if ltb now (it.created_at + timeout)
      then (p, some timeout)
      else if left == 0
      then (p', some timeout)
      else more
]

-- One round of `failTimeoutMessages` at a tick; without a new time the loop has returned.
unfoldable pub fail_timeout_messages : (send_timeout now : ℕ) → Producer → Producer × Option ℕ
unfolding fail_due
fail_timeout_messages timeout now p =
    if is_closing_or_closed p.state then (p, none) else elim p.pending [
      | [] ↦ (p, some timeout)
      | it ∷ rest ↦
          if ltb now (it.created_at + timeout)
          then (p, some (it.created_at + timeout - now))
          else fail_due timeout now (length p.pending) p
    ]

abbrev pub may_close : ProducerState → Bool
may_close ready = true
may_close connecting = true
may_close _ = false

-- The request to the broker has no effect here, whatever it returns.
unfoldable pub do_close : Producer → SendError → Producer
unfolding fail_pending_messages
do_close p reason =
    if may_close p.state
    then record (fail_pending_messages (record p { state = closing }) reason) { state = closed }
    else p

module _ (b : Builder) (now : ℕ) where
  -- So many requests of the channel.
  unfoldable pub send_from_channel : ℕ → Producer → Producer
  unfolding internal_send
  send_from_channel zero p = p
  send_from_channel (suc n) p = elim p.data_chan [
    | [] ↦ p
    | sr ∷ rest ↦ send_from_channel n (internal_send b now (record p { data_chan = rest }) sr)
  ]

  unfoldable pub clear_pending_send_requests : Producer → Producer
  unfolding send_from_channel
  clear_pending_send_requests p = send_from_channel (length p.data_chan) p

abbrev pub add_flush_to_last : ℕ → List PendingItem → List PendingItem
add_flush_to_last f [] = []
add_flush_to_last f (it ∷ []) = record it { flush_callbacks = it.flush_callbacks ++ (f ∷ []) } ∷ []
add_flush_to_last f (it ∷ it' ∷ its) = it ∷ add_flush_to_last f (it' ∷ its)

-- An item in the queue is never done here, since one that leaves it is done at once.
unfoldable pub wait_for_last : ℕ → Producer → Producer
wait_for_last f p = elim p.pending [
  | [] ↦ record p { flushes = p.flushes ++ ((f, none) ∷ []) }
  | it ∷ its ↦ record p { pending = add_flush_to_last f (it ∷ its) }
]

unfoldable pub internal_flush : ProducerOptions → Builder → ℕ → Producer → ℕ → Producer
unfolding clear_pending_send_requests internal_flush_current_batch wait_for_last
internal_flush o b now p f =
    let p' = clear_pending_send_requests b now p in
    wait_for_last f (if o.disable_batching then p' else internal_flush_current_batch b now p')

abbrev pub sequence_ids : List PendingItem → List ℕ
sequence_ids [] = []
sequence_ids (it ∷ its) = it.sequence_id ∷ sequence_ids its

-- The end of `grabCnx`: the pending items are written again.
unfoldable pub reconnected : Producer → Producer
reconnected p = record p {
  written = p.written ++ sequence_ids p.pending;
  state = elim p.state [ connecting ↦ ready | s ↦ s ];
}

-- A failure that `reconnectToBroker` knows by its message ends or empties the producer.
unfoldable pub reconnect_failed : Producer → SendError → Producer
unfolding do_close fail_pending_messages
reconnect_failed p topic_not_found = do_close p topic_not_found
reconnect_failed p topic_terminated = do_close p topic_terminated
reconnect_failed p quota_exceeded = fail_pending_messages p quota_exceeded
reconnect_failed p producer_fenced = do_close p producer_fenced
reconnect_failed p _ = p

pub data Event : Type 0 where
  send : Surroundings → Option ProducerMessage → Bool → Event
  take_data tick : ℕ → Event
  flush : (now callback : ℕ) → Event
  receipt : (sequence_id ledger entry : ℕ) → Event
  timeout : ℕ → Event
  cancel close reconnect : Event
  reconnect_error : SendError → Event

unfoldable pub step : ProducerOptions → Builder → Producer → Event → Producer
unfolding internal_send_async send_from_channel internal_flush_current_batch internal_flush
    received_send_receipt fail_timeout_messages do_close reconnected reconnect_failed
step o b p (send s msg immediate) = internal_send_async o s p msg immediate
step o b p (take_data now) = send_from_channel b now 1 p
step o b p (tick now) = internal_flush_current_batch b now p
step o b p (flush now f) = internal_flush o b now p f
step o b p (receipt q ledger entry) = received_send_receipt q ledger entry p
step o b p (timeout now) = (fail_timeout_messages o.send_timeout now p).0
step o b p cancel = record p { ctx_done = true }
step o b p close = do_close p producer_closed
step o b p reconnect = reconnected p
step o b p (reconnect_error e) = reconnect_failed p e

unfoldable pub run : ProducerOptions → Builder → Producer → List Event → Producer
unfolding step
run o b p [] = p
run o b p (e ∷ es) = run o b (step o b p e) es

abbrev pub new_producer : ProducerState → ℕ → Producer
new_producer state mem_limit = record {
  state = state;
  ctx_done = false;
  permits = 0;
  mem_limit = mem_limit;
  used_mem = 0;
  data_chan = [];
  batch = [];
  pending = [];
  callbacks = [];
  txn_ends = [];
  flushes = [];
  written = [];
  last_sequence_id = 0;
  connection_closed = false;
  issued = 0;
}
