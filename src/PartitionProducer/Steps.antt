-- ===== src/PartitionProducer/Steps.antt =====
-- The events of a producer of pulsar-client-go/pulsar/producer_partition.go, and its balance.
use pr.Base.{[], false, refl, ◌≡◌}
use pr.PartitionProducer.{Producer, ProducerOptions, Builder, producer_closed}
use pr.PartitionProducer.Async.{validate_msg}
use pr.PartitionProducer.Handlers.{
  reconnected, Event, send, take_data, tick, flush, receipt, timeout, cancel, close, reconnect,
  reconnect_error, step,
}
use pr.PartitionProducer.Weights.{IsBalanced}
use pr.PartitionProducer.Balance.{rebalance, internal_flush_current_batch-IsBalanced}
use pr.PartitionProducer.Settle.{
  received_send_receipt-IsBalanced, fail_timeout_messages-IsBalanced, do_close-IsBalanced,
  send_from_channel-IsBalanced, internal_flush-IsBalanced, reconnect_failed-IsBalanced,
}
use pr.PartitionProducer.Admit.{internal_send_async-IsBalanced}

-- Every event keeps the balance of a producer that does not chunk.
pub step-IsBalanced :
    (o : ProducerOptions) (b : Builder) (p : Producer) (e : Event)
    → o.enable_chunking ≡ false
    → IsBalanced p []
    → IsBalanced (step o b p e) []
unfolding step reconnected
step-IsBalanced o b p (send s msg immediate) c v =
    internal_send_async-IsBalanced o s p msg immediate (validate_msg o msg) c refl v
step-IsBalanced o b p (take_data now) c v =
    send_from_channel-IsBalanced b now 1 p p.data_chan refl v
step-IsBalanced o b p (tick now) c v = internal_flush_current_batch-IsBalanced b now p [] v
step-IsBalanced o b p (flush now f) c v = internal_flush-IsBalanced o b now p f v
step-IsBalanced o b p (receipt q ledger entry) c v =
    received_send_receipt-IsBalanced q ledger entry p v
step-IsBalanced o b p (timeout now) c v = fail_timeout_messages-IsBalanced o.send_timeout now p v
step-IsBalanced o b p cancel c v = rebalance p _ [] [] refl refl refl refl (λ w. refl) v
step-IsBalanced o b p close c v = do_close-IsBalanced p producer_closed v
step-IsBalanced o b p reconnect c v = rebalance p _ [] [] refl refl refl refl (λ w. refl) v
step-IsBalanced o b p (reconnect_error e) c v = reconnect_failed-IsBalanced p e v
