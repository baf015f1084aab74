-- ===== src/Message/Tests.antt =====
-- The theorems on message ids and batches of pulsar-client-go/pulsar at concrete inputs.
use pr.Base.{[], arith, false, if◌then◌else◌, inl, refl, true, ℕ, ◌∷◌, ◌≡◌, ◌⊎◌}
use pr.Base.Int.{ℤ, pos, negsuc}
use pr.Bits.Members.{member_sets}
use pr.Message.{MessageId, new_message_id, greater, equal, message_id_compare}
use pr.Message.Order.{
  greater_trans, greater-trichotomy, message_id_compare_trans, message_id_compare-swap,
  message_id_compare-greater, message_id_compare-not_greater,
}
use pr.Message.Tracker.{new_ack_tracker, completed}
use pr.Message.Tracker.Complete.{single, upto, ack_all, completed-ack_all}

abbrev id : ℕ → ℤ → MessageId
id e b = new_message_id (pos 1) (pos e) b (pos 0) (pos 10)

greater_trans_example : greater (id 3 (pos 0)) (id 2 (pos 4)) ≡ true
unfolding greater
greater_trans_example = greater_trans (id 3 (pos 0)) (id 2 (pos 5)) (id 2 (pos 4)) refl refl

greater-trichotomy_example :
    ((equal (id 2 (pos 5)) (id 2 (pos 5)) ≡ true)
      × (greater (id 2 (pos 5)) (id 2 (pos 5)) ≡ false)
      × (greater (id 2 (pos 5)) (id 2 (pos 5)) ≡ false))
    ⊎ ((equal (id 2 (pos 5)) (id 2 (pos 5)) ≡ false)
        × (greater (id 2 (pos 5)) (id 2 (pos 5)) ≡ true)
        × (greater (id 2 (pos 5)) (id 2 (pos 5)) ≡ false))
    ⊎ ((equal (id 2 (pos 5)) (id 2 (pos 5)) ≡ false)
        × (greater (id 2 (pos 5)) (id 2 (pos 5)) ≡ false)
        × (greater (id 2 (pos 5)) (id 2 (pos 5)) ≡ true))
greater-trichotomy_example = greater-trichotomy (id 2 (pos 5)) (id 2 (pos 5))

message_id_compare_trans_example : message_id_compare (id 2 (pos 4)) (id 3 (pos 0)) ≡ negsuc 0
unfolding message_id_compare
message_id_compare_trans_example =
    message_id_compare_trans (id 2 (pos 4)) (id 2 (negsuc 0)) (id 3 (pos 0)) refl (inl refl)

message_id_compare-swap_example : message_id_compare (id 2 (negsuc 0)) (id 2 (pos 4)) ≡ pos 1
unfolding message_id_compare
message_id_compare-swap_example = message_id_compare-swap (id 2 (pos 4)) (id 2 (negsuc 0))

message_id_compare-greater_example : message_id_compare (id 2 (pos 5)) (id 2 (pos 4)) ≡ (
    if greater (id 2 (pos 5)) (id 2 (pos 4))
    then pos 1
    else if greater (id 2 (pos 4)) (id 2 (pos 5))
    then negsuc 0
    else pos 0)
message_id_compare-greater_example =
    message_id_compare-greater (id 2 (pos 5)) (id 2 (pos 4)) (inl (omega arith, omega arith))

message_id_compare-not_greater_example :
    (message_id_compare (id 2 (negsuc 0)) (id 2 (pos 4)) ≡ pos 1)
    × (greater (id 2 (pos 4)) (id 2 (negsuc 0)) ≡ true)
message_id_compare-not_greater_example =
    message_id_compare-not_greater (id 2 (negsuc 0)) (id 2 (pos 4)) refl refl refl (omega arith)

-- Message 1 of a batch of three is still missing.
completed-ack_all_example :
    completed member_sets (
      ack_all member_sets
        (new_ack_tracker member_sets 3)
        (single (pos 2) ∷ upto (pos 0) ∷ single (pos 2) ∷ []))
    ≡ false
completed-ack_all_example =
    completed-ack_all member_sets 3 (single (pos 2) ∷ upto (pos 0) ∷ single (pos 2) ∷ [])
