-- ===== src/Consumer/Ledger.antt =====
-- No message is lost, acknowledged twice, or out of order in cmd/consumer/main.go.
use pr.Base.{
  Bool, List, [], ap, append-nil, append_assoc, arith, false, length, refl, sym, true, ℕ, ◌++◌, ◌+◌,
  ◌∷◌, ◌≡◌,
}
use pr.Message.{Message, MessageId, release_payload}
use pr.Metrics.{Reading}
use pr.Consumer.{
  BatchProcessor, add, kept, ids, process, Event, interrupted, done, timed_out, received, Outcome,
  stopped, running, process_now, take_message, consume_loop, finish, consume,
}

-- The ids that were handed to the processor: acknowledged, then pending.
abbrev pub ledger : BatchProcessor → List MessageId
ledger bp = bp.acked ++ ids bp.messages

abbrev pub received_ids : List Event → List MessageId
received_ids [] = []
received_ids (interrupted ∷ es) = received_ids es
received_ids (done ∷ es) = received_ids es
received_ids (timed_out ∷ es) = received_ids es
received_ids (received m ∷ es) = m.msg_id ∷ received_ids es

ids-append : (xs ys : List Message) → ids (xs ++ ys) ≡ ids xs ++ ids ys
ids-append [] ys = refl
ids-append (x ∷ xs) ys = ap (◌∷◌ x.msg_id) (ids-append xs ys)

kept-msg_id : (b : Bool) (m : Message) → (kept b m).msg_id ≡ m.msg_id
unfolding release_payload
kept-msg_id true m = refl
kept-msg_id false m = refl

pub ledger-add :
    (bp : BatchProcessor) (m : Message) → ledger (add bp m).0 ≡ ledger bp ++ m.msg_id ∷ []
unfolding add
ledger-add bp m =
    rw (ids-append bp.messages (kept bp.release m ∷ []), kept-msg_id bp.release m)
      (sym (append_assoc bp.acked (ids bp.messages) (m.msg_id ∷ [])))

ledger-process :
    (bp : BatchProcessor) (before after : Reading) → ledger (process bp before after) ≡ ledger bp
unfolding process
ledger-process bp before after = ground (arith, append-nil (bp.acked ++ ids bp.messages))

pub ledger-process_now :
    (r : ℕ → Reading) (k : ℕ) (bp : BatchProcessor) → ledger (process_now r k bp) ≡ ledger bp
unfolding process_now
ledger-process_now r k bp =
    ledger-process bp (r (length bp.monitor.stats)) (r (length bp.monitor.stats + 1))

module _ (r : ℕ → Reading) (k : ℕ) where
  ledger-take_message :
      (bp : BatchProcessor) (m : Message)
      → ledger (take_message r k bp m).0 ≡ ledger bp ++ m.msg_id ∷ []
  unfolding take_message
  ledger-take_message bp m = ground (arith, ledger-add bp m, ledger-process_now r k (add bp m).0)

  ledger-finish : (bp : BatchProcessor) → ledger (finish r k bp) ≡ ledger bp
  unfolding finish
  ledger-finish bp = ground (arith, ledger-process_now r k bp)

  -- The processor of an outcome, and the ids that it has not been handed.
  abbrev pub accounted : Outcome → List MessageId
  accounted (stopped bp rest) = ledger bp ++ received_ids rest
  accounted (running bp) = ledger bp

  accounted-consume_loop :
      (bp : BatchProcessor) (es : List Event)
      → accounted (consume_loop r k bp es) ≡ ledger bp ++ received_ids es
  unfolding consume_loop
  accounted-consume_loop bp [] = sym (append-nil (ledger bp))
  accounted-consume_loop bp (interrupted ∷ es) = refl
  accounted-consume_loop bp (done ∷ es) = refl
  accounted-consume_loop bp (timed_out ∷ es) =
      ground (arith, accounted-consume_loop bp es, ledger-process_now r k bp)
  accounted-consume_loop bp (received m ∷ es) = ground (
    arith,
    accounted-consume_loop (take_message r k bp m).0 es,
    ledger-take_message bp m,
    append_assoc (ledger bp) (m.msg_id ∷ []) (received_ids es),
  )

  -- Whatever the events are, the ids that the consumer acknowledged, then those pending, then those
  -- of the messages not read, are the ids from before and those of all messages, in order: none is
  -- lost, made up, acknowledged twice or out of order.
  pub accounted-consume :
      (bp : BatchProcessor) (es : List Event)
      → accounted (consume r k bp es) ≡ ledger bp ++ received_ids es
  unfolding consume
  accounted-consume bp es = finishes (consume_loop r k bp es) (accounted-consume_loop bp es)
    where
      finishes :
          (o : Outcome)
          → accounted o ≡ ledger bp ++ received_ids es
          → accounted (elim o [
            | stopped bp' rest ↦ stopped (finish r k bp') rest
            | running bp' ↦ running bp'
          ])
            ≡ ledger bp ++ received_ids es
      finishes (stopped b rest) e = rw (ledger-finish b) e
      finishes (running b) e = e
