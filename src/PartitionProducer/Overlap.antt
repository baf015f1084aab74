-- ===== src/PartitionProducer/Overlap.antt =====
-- A receipt and the timer at the same time, in pulsar-client-go/pulsar/producer_partition.go:
-- ReceivedSendReceipt looks at the oldest item and polls later, with no lock that keeps
-- failTimeoutMessages from polling in between.
use pr.Base.{
  List, Option, [], ap, arith, if_both, length, none, refl, some, true, ℕ, ◌+◌, ◌∙◌, ◌∷◌, ◌≡◌,
}
use pr.PartitionProducer.{
  Producer, SendRequest, SendError, PendingItem, Outcome, done, done_all, failed, sent,
  send_timeout,
}
use pr.PartitionProducer.Handlers.{item_done, receive_all, received_send_receipt, fail_item}
use pr.PartitionProducer.Weights.{load, id_weight, calls, calls-append}

-- `Poll`, whose item is not looked at.
abbrev pub polled : List PendingItem → List PendingItem
polled [] = []
polled (it ∷ its) = its

-- ReceivedSendReceipt from its poll on, when it has looked at this item and its number is the
-- receipt's.
unfoldable pub finish_receipt : (ledger entry : ℕ) → PendingItem → Producer → Producer
unfolding receive_all item_done
finish_receipt ledger entry it p =
    item_done
      (receive_all it.sequence_id ledger entry (length it.send_requests) 0
        (record p { pending = polled p.pending }) it.send_requests)
      it none

-- With nothing in between, this is the receipt.
pub finish_receipt-received_send_receipt :
    (q ledger entry : ℕ) (p : Producer) (it : PendingItem) (rest : List PendingItem)
    → p.pending ≡ it ∷ rest
    → it.sequence_id ≡ q
    → received_send_receipt q ledger entry p ≡ finish_receipt ledger entry it p
unfolding received_send_receipt finish_receipt
finish_receipt-received_send_receipt q ledger entry p it rest e n = ground (arith, e, n)

-- A step that leaves the queue and the callback of call `i` alone.
record IsApart (i : ℕ) (p q : Producer) : Type 0 where
  pending : q.pending ≡ p.pending
  calls_of : calls i q.callbacks ≡ calls i p.callbacks

done-IsApart :
    (i : ℕ) (p : Producer) (sr : SendRequest) (r : Outcome)
    → id_weight i sr ≡ 0
    → IsApart i p (done p sr r)
unfolding done
done-IsApart i p sr r n = record {
  pending = refl;
  calls_of = ground (arith, n, calls-append i p.callbacks ((sr.id, r) ∷ []));
}

done_all-IsApart :
    (i : ℕ) (p : Producer) (srs : List SendRequest) (e : SendError)
    → load (id_weight i) srs ≡ 0
    → IsApart i p (done_all p srs e)
unfolding done_all
done_all-IsApart i p [] e n = record { pending = refl; calls_of = refl }
done_all-IsApart i p (sr ∷ srs) e n =
    let a = done-IsApart i p sr (failed e) (omega (arith, n)) in
    let b = done_all-IsApart i (done p sr (failed e)) srs e (omega (arith, n)) in
    record { pending = b.pending ∙ a.pending; calls_of = b.calls_of ∙ a.calls_of }

receive_all-IsApart :
    (i q ledger entry size idx : ℕ) (p : Producer) (srs : List SendRequest)
    → load (id_weight i) srs ≡ 0
    → IsApart i p (receive_all q ledger entry size idx p srs)
unfolding receive_all
receive_all-IsApart i q ledger entry size idx p [] n = record { pending = refl; calls_of = refl }
receive_all-IsApart i q ledger entry size idx p (sr ∷ srs) n =
    let p' = record p { last_sequence_id = q } in
    let r = sent ledger entry idx size in
    let a = done-IsApart i p' sr r (omega (arith, n)) in
    let b =
      receive_all-IsApart i q ledger entry size (idx + 1) (done p' sr r) srs (omega (arith, n)) in
    record { pending = b.pending ∙ a.pending; calls_of = b.calls_of ∙ a.calls_of }

item_done-IsApart :
    (i : ℕ) (p : Producer) (it : PendingItem) (e : Option SendError)
    → IsApart i p (item_done p it e)
unfolding item_done
item_done-IsApart i p it e =
    if_both (IsApart i p) it.is_done p _ (record { pending = refl; calls_of = refl })
      (record { pending = refl; calls_of = refl })

-- If the timer takes and fails the item that a receipt has looked at, before the receipt polls, then
-- the poll takes the next item off the queue, and no callback of a call that is not of the first
-- item has run: those of the next item never will.
pub finish_receipt-drops_next :
    (ledger entry i : ℕ) (p : Producer) (it next : PendingItem) (rest : List PendingItem)
    → p.pending ≡ it ∷ next ∷ rest
    → load (id_weight i) it.send_requests ≡ 0
    → let failed_first = fail_item (record p { pending = polled p.pending }) it send_timeout in
      let q = finish_receipt ledger entry (record it { is_done = true }) failed_first in
      (q.pending ≡ rest) × (calls i q.callbacks ≡ calls i p.callbacks)
unfolding finish_receipt fail_item
finish_receipt-drops_next ledger entry i p it next rest e n =
    let p0 = record p { pending = polled p.pending } in
    let srs = it.send_requests in
    let a = done_all-IsApart i p0 srs send_timeout n in
    let b = item_done-IsApart i (done_all p0 srs send_timeout) it (some send_timeout) in
    let p1 = fail_item p0 it send_timeout in
    let p2 = record p1 { pending = polled p1.pending } in
    let c = receive_all-IsApart i it.sequence_id ledger entry (length srs) 0 p2 srs n in
    let d =
      item_done-IsApart i (receive_all it.sequence_id ledger entry (length srs) 0 p2 srs)
        (record it { is_done = true }) none in
    (
      d.pending ∙ c.pending ∙ ap polled (b.pending ∙ a.pending) ∙ ap (λ l. polled (polled l)) e,
      d.calls_of ∙ c.calls_of ∙ b.calls_of ∙ a.calls_of,
    )
