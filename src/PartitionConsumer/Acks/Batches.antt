-- ===== src/PartitionConsumer/Acks/Batches.antt =====
-- Acknowledging the messages of a batch, in pulsar-client-go/pulsar/consumer_partition.go.
use pr.Base.{
  Bool, List, Option, [], ap, arith, false, if◌then◌else◌, inr, none, refl, some, sym, true, ℕ,
  ◌++◌, ◌∙◌, ◌∷◌, ◌≡◌,
}
use pr.Base.Int.{pos}
use pr.Bits.{BitSets}
use pr.Message.{MessageId}
use pr.Message.Tracker.{AckTracker, new_ack_tracker, ack, ack_cumulative, completed}
use pr.Message.Tracker.Complete.{Ack, single, upto, all_covered, ack_by, ack_all, completed-ack_all}
use pr.PartitionConsumer.{ConsumerState, is_open}
use pr.PartitionConsumer.Acks.{
  up_to, before, SubscriptionType, is_allow_ack_cumulative, entry_id_of, prev, ack_tracked,
  ack_cumulative_tracked, ack_id_common, internal_ack_id_cumulative,
}

module _ (bs : BitSets) where
  ack_all-append :
      (t : AckTracker bs) (xs ys : List Ack)
      → ack_all bs t (xs ++ ys) ≡ ack_all bs (ack_all bs t xs) ys
  ack_all-append t [] ys = refl
  ack_all-append t (x ∷ xs) ys = ack_all-append (ack_by bs t x) xs ys

  -- After any acknowledgements of messages of the batch, one more.
  one_more :
      (n : ℕ) (acks : List Ack) (a : Ack)
      → completed bs (ack_by bs (ack_all bs (new_ack_tracker bs n) acks) a)
        ≡ all_covered n (acks ++ (a ∷ []))
  one_more n acks a =
      ap (completed bs) (sym (ack_all-append (new_ack_tracker bs n) acks (a ∷ [])))
      ∙ completed-ack_all bs n (acks ++ (a ∷ []))

-- On an open consumer that does not acknowledge within batches, after any acknowledgements of messages
-- of a batch of `n`, the acknowledgement of one of its messages sends the whole entry if each
-- of the `n` messages is acknowledged now, and nothing else.
pub ack_id_common-completes :
    (bs : BitSets) (state : ConsumerState) (n i : ℕ) (acks : List Ack) (id : MessageId)
    → is_open state ≡ true
    → id.batch_idx ≡ pos i
    → (t : Option (AckTracker bs)) × (ack_id_common bs state false id
          (some (ack_all bs (new_ack_tracker bs n) acks))
        ≡ inr (
          t,
          if all_covered n (acks ++ (single (pos i) ∷ [])) then some (entry_id_of id) else none,
        ))
unfolding ack_id_common ack_tracked ack
ack_id_common-completes bs state n i acks id live at =
    let t = ack_all bs (new_ack_tracker bs n) acks in
    let e = one_more bs n acks (single (pos i)) in
    (some (ack bs t (pos i)).0, ground (arith, live, at, e))

-- On an open consumer that does not acknowledge within batches and whose subscription allows cumulative
-- acknowledgements, after any acknowledgements of messages of a batch of `n`, a cumulative one of
-- one of its messages sends the message's id if each of the `n` messages is acknowledged now, else the
-- id of the entry before, unless the batch is marked that this was sent; and then it is marked so.
pub internal_ack_id_cumulative-completes :
    (bs : BitSets) (state : ConsumerState) (kind : SubscriptionType) (n i : ℕ) (acks : List Ack)
    (sent : Bool) (id : MessageId)
    → is_open state ≡ true
    → is_allow_ack_cumulative kind ≡ true
    → id.batch_idx ≡ pos i
    → let t = record (ack_all bs (new_ack_tracker bs n) acks) { prev_batch_acked = sent } in
      let all = all_covered n (acks ++ (upto (pos i) ∷ [])) in
      (t' : AckTracker bs) × (internal_ack_id_cumulative bs state kind false id (some t)
        ≡ inr (
          some t',
          if all then some (up_to id) else if sent then none else some (before (prev id)),
        ))
      × (t'.prev_batch_acked ≡ (if all then sent else true))
unfolding internal_ack_id_cumulative ack_cumulative_tracked ack_cumulative
internal_ack_id_cumulative-completes bs state kind n i acks sent id live allowed at =
    let t = record (ack_all bs (new_ack_tracker bs n) acks) { prev_batch_acked = sent } in
    let u = (ack_cumulative bs t (pos i)).0 in
    let all = all_covered n (acks ++ (upto (pos i) ∷ [])) in
    let e = one_more bs n acks (upto (pos i)) in
    (
      if all then u else record u { prev_batch_acked = true },
      ground (arith, live, allowed, at, e),
      ground (arith, live, allowed, at, e),
    )
