-- ===== src/Grouping/Tests.antt =====
-- The theorems on pulsar-client-go/pulsar/ack_grouping_tracker.go at concrete inputs.
use pr.Base.{List, [], arith, false, inl, inr, length, refl, true, ℕ, ◌<◌, ◌∷◌, ◌≡◌, ◌≤◌, ◌⊎◌}
use pr.Base.Int.{ℤ, pos, negsuc}
use pr.Bits.Members.{member_sets}
use pr.Message.{MessageId, new_message_id, message_id_compare, earliest_message_id}
use pr.Grouping.{
  TimedTracker, new_position, find, is_marked, add, add_cumulative, is_duplicate, flush,
  add_msg_id_to_pending_acks, ack_list, to_msg_id_data_list,
}
use pr.Grouping.Pending.{is_acked, add_all, is_acked-add_all, add-acknowledges}
use pr.Grouping.Cumulative.{add_cumulative-covers, add_cumulative-keeps, flush-twice}

abbrev id : ℕ → ℤ → MessageId
id e b = new_message_id (pos 1) (pos e) b (pos 0) (pos 3)

abbrev tracker : TimedTracker member_sets
tracker = record {
  max_num_acks = 2;
  pending_acks = [];
  last_cumulative_ack = earliest_message_id;
  cumulative_ack_required = false;
  has_ticker = true;
  closed = false;
}

-- Message 1 of entry 5, and the whole of entry 6.
abbrev some_ids : List MessageId
some_ids = id 5 (pos 1) ∷ id 6 (negsuc 0) ∷ []

is_acked-add_all_example :
    is_acked member_sets (add_all member_sets [] some_ids) (new_position (id 5 (pos 0))) 2 ≡ false
unfolding find
is_acked-add_all_example =
    is_acked-add_all member_sets [] some_ids (new_position (id 5 (pos 0))) 2
      (inr (inr (omega arith)), (inl refl, tt))

add-acknowledges_example :
    let (t', sent) = add member_sets tracker (id 5 (pos 1)) in
    let m = add_msg_id_to_pending_acks member_sets [] (id 5 (pos 1)) in
    (is_marked member_sets (pos 1) (find (new_position (id 5 (pos 1))) m) ≡ true)
    × (((sent ≡ [])
          × (t'.pending_acks ≡ m)
          × (length m < 2)
          × (is_duplicate member_sets t' (id 5 (pos 1)) ≡ true))
        ⊎ ((sent ≡ ack_list (to_msg_id_data_list member_sets m) ∷ [])
            × (t'.pending_acks ≡ [])
            × (2 ≤ length m)))
add-acknowledges_example =
    add-acknowledges member_sets tracker (id 5 (pos 1)) (inl (omega arith, omega arith))

add_cumulative-covers_example :
    is_duplicate member_sets (add_cumulative member_sets tracker (id 5 (negsuc 0))).0 (id 5 (pos 2))
    ≡ true
unfolding message_id_compare
add_cumulative-covers_example =
    add_cumulative-covers member_sets tracker (id 5 (negsuc 0)) (id 5 (pos 2)) (inl refl)

abbrev acked_to_five : TimedTracker member_sets
acked_to_five = record tracker { last_cumulative_ack = id 5 (negsuc 0) }

add_cumulative-keeps_example :
    is_duplicate member_sets
      (add_cumulative member_sets acked_to_five (id 9 (negsuc 0))).0
      (id 5 (pos 0))
    ≡ true
unfolding is_duplicate message_id_compare
add_cumulative-keeps_example =
    add_cumulative-keeps member_sets acked_to_five (id 9 (negsuc 0)) (id 5 (pos 0)) refl

flush-twice_example :
    ((flush member_sets tracker).1 ≡ [])
    × (flush member_sets (flush member_sets tracker).0 ≡ ((flush member_sets tracker).0, []))
    × ((flush member_sets tracker).0.last_cumulative_ack ≡ earliest_message_id)
flush-twice_example = flush-twice member_sets tracker
