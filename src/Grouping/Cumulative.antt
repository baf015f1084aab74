-- ===== src/Grouping/Cumulative.antt =====
-- Cumulative acknowledgements and the flushes of pulsar-client-go/pulsar/ack_grouping_tracker.go.
use pr.Base.{[], append-nil, arith, if◌then◌else◌, true, ◌++◌, ◌∷◌, ◌≡◌, ◌⊎◌}
use pr.Base.Int.{pos, negsuc}
use pr.Bits.{BitSets}
use pr.Message.{MessageId, message_id_compare}
use pr.Message.Order.{message_id_compare_trans, message_id_compare-swap, message_id_compare-cases}
use pr.Grouping.{
  TimedTracker, ack_cumulative, add_cumulative, try_update_cumulative, is_duplicate, flush,
  send_pending,
}

module _ (bs : BitSets) where
  -- After a cumulative acknowledgement every id that is not after it is a duplicate, and so is every
  -- id that was one before it, by an earlier cumulative acknowledgement or as pending.
  pub add_cumulative-covers :
      (t : TimedTracker bs) (id x : MessageId)
      → (message_id_compare x id ≡ negsuc 0) ⊎ (message_id_compare x id ≡ pos 0)
      → is_duplicate bs (add_cumulative bs t id).0 x ≡ true
  unfolding add_cumulative try_update_cumulative is_duplicate
  add_cumulative-covers t id x h = ground (
    arith,
    message_id_compare-swap x id,
    message_id_compare-cases t.last_cumulative_ack x,
    message_id_compare-cases t.last_cumulative_ack id,
    message_id_compare_trans t.last_cumulative_ack x id,
  )

  pub add_cumulative-keeps :
      (t : TimedTracker bs) (id x : MessageId)
      → is_duplicate bs t x ≡ true
      → is_duplicate bs (add_cumulative bs t id).0 x ≡ true
  unfolding add_cumulative try_update_cumulative is_duplicate
  add_cumulative-keeps t id x h = ground (
    arith,
    message_id_compare-cases t.last_cumulative_ack x,
    message_id_compare-cases t.last_cumulative_ack id,
    message_id_compare-cases id x,
    message_id_compare_trans t.last_cumulative_ack id x,
  )

  -- A flush sends all that is pending, and the cumulative acknowledgement if one is due; then
  -- nothing is left, so a second flush sends nothing and changes nothing.
  pub flush-twice :
      (t : TimedTracker bs)
      → ((flush bs t).1
          ≡ send_pending bs t.pending_acks
            ++ (if t.cumulative_ack_required
                then ack_cumulative t.last_cumulative_ack ∷ []
                else []))
        × (flush bs (flush bs t).0 ≡ ((flush bs t).0, []))
        × ((flush bs t).0.last_cumulative_ack ≡ t.last_cumulative_ack)
  unfolding flush
  flush-twice t = ground (arith, append-nil (send_pending bs t.pending_acks))
