-- ===== src/Transaction/Ends.antt =====
-- How a transaction of pulsar-client-go/pulsar/transaction_impl.go ends.
use pr.Base.{
  List, [], ap, append-nil, append_assoc, arith, false, refl, subst, sym, true, ◌++◌, ◌∙◌, ◌∷◌, ◌≡◌,
}
use pr.Transaction.{
  Transaction, Action, commit, abort, done, retryable, nobody, waits, sends, Result, failed,
  invalid_status, context_error, Event, expires, begins, takes, cancels, waited, answers, registers,
  registered, gives_up, ends, is_txn_open, txn_open, txn_error, txn_committed, expire, begin,
  take_value, cancel, wait_over, answered, register_send_or_ack_op, register_value, register_over,
  end_send_or_ack_op, step, run,
}

-- The calls of Commit and Abort, each with this result.
abbrev pub refused : List Event → List (Action × Result)
refused [] = []
refused (begins a ∷ es) = (a, invalid_status) ∷ refused es
refused (e ∷ es) = refused es

-- A transaction that is not open, and in which neither Commit nor Abort is under way.
record IsShut (t : Transaction) : Type 0 where
  closed : is_txn_open t.state ≡ false
  idle : t.ending ≡ nobody

-- A step leaves it so, and adds to the results what is refused.
record IsShutStep (t : Transaction) (added : List (Action × Result)) (t' : Transaction)
    : Type 0 where
  shut : IsShut t'
  results : t'.results ≡ t.results ++ added

unchanged : (t : Transaction) → IsShut t → IsShutStep t [] t
unchanged t s = record { shut = s; results = sym (append-nil t.results) }

same : (t t' : Transaction) → IsShut t → t' ≡ t → IsShutStep t [] t'
same t t' s e = subst (IsShutStep t []) (sym e) (unchanged t s)

step-IsShut : (t : Transaction) (e : Event) → IsShut t → IsShutStep t (refused (e ∷ [])) (step t e)
unfolding step expire begin take_value cancel wait_over answered register_send_or_ack_op
    register_value register_over end_send_or_ack_op
step-IsShut t expires s = record {
  shut = record { closed = ground (arith, s.closed); idle = ground (arith, s.idle) };
  results = ground (arith, append-nil t.results);
}
step-IsShut t (begins a) s = record {
  shut = record { closed = ground (arith, s.closed); idle = ground (arith, s.closed, s.idle) };
  results = ground (arith, s.closed);
}
step-IsShut t takes s = same t (take_value t) s (ground (arith, s.idle))
step-IsShut t cancels s = same t (cancel t) s (ground (arith, s.idle))
step-IsShut t waited s = same t (wait_over t) s (ground (arith, s.idle))
step-IsShut t (answers r) s = same t (answered r t) s (ground (arith, s.idle))
step-IsShut t registers s = record {
  shut = record { closed = ground (arith, s.closed); idle = ground (arith, s.idle) };
  results = ground (arith, append-nil t.results);
}
step-IsShut t registered s = record {
  shut = record { closed = ground (arith, s.closed); idle = ground (arith, s.idle) };
  results = ground (arith, append-nil t.results);
}
step-IsShut t gives_up s = record {
  shut = record { closed = ground (arith, s.closed); idle = ground (arith, s.idle) };
  results = ground (arith, append-nil t.results);
}
step-IsShut t (ends err) s = record {
  shut = record { closed = ground (arith, s.closed); idle = ground (arith, s.idle) };
  results = ground (arith, append-nil t.results);
}

refused-cons : (e : Event) (es : List Event) → refused (e ∷ []) ++ refused es ≡ refused (e ∷ es)
refused-cons (begins a) es = refl
refused-cons expires es = refl
refused-cons takes es = refl
refused-cons cancels es = refl
refused-cons waited es = refl
refused-cons (answers r) es = refl
refused-cons registers es = refl
refused-cons registered es = refl
refused-cons gives_up es = refl
refused-cons (ends err) es = refl

run-IsShut : (t : Transaction) (es : List Event) → IsShut t → IsShutStep t (refused es) (run t es)
unfolding run
run-IsShut t [] s = unchanged t s
run-IsShut t (e ∷ es) s =
    let v = step-IsShut t e s in
    let u = run-IsShut (step t e) es v.shut in
    record {
      shut = u.shut;
      results =
          u.results
          ∙ ap (λ l. l ++ refused es) v.results
          ∙ append_assoc t.results (refused (e ∷ [])) (refused es)
          ∙ ap (λ l. t.results ++ l) (refused-cons e es);
    }

-- When the coordinator answers Commit or Abort with an error that could be retried, the call returns
-- the error, and whatever happens afterwards, the transaction is never open again, and every
-- later call of Commit or Abort returns InvalidStatus.
pub answered-never_again :
    (t : Transaction) (a : Action) (es : List Event)
    → t.ending ≡ sends a
    → is_txn_open t.state ≡ false
    → let t' = run (answered retryable t) es in
      (is_txn_open t'.state ≡ false) × (t'.results ≡ t.results ++ ((a, failed) ∷ refused es))
unfolding answered
answered-never_again t a es e c =
    let t1 = answered retryable t in
    let s : IsShut t1 = record { closed = ground (arith, e, c); idle = ground (arith, e) } in
    let r : t1.results ≡ t.results ++ ((a, failed) ∷ []) = ground (arith, e) in
    let v = run-IsShut t1 es s in
    (
      v.shut.closed,
      v.results
          ∙ ap (λ l. l ++ refused es) r
          ∙ append_assoc t.results ((a, failed) ∷ []) (refused es),
    )

-- If the timeout comes while Commit or Abort of an open transaction waits for the operations, and
-- the call's context is then done, the transaction is open again and its timeout does not come
-- any more.
pub cancel-never_expires :
    (t : Transaction) (a : Action)
    → t.state ≡ txn_open
    → t.armed ≡ true
    → let t' = cancel (expire (begin a t)) in
      (t'.state ≡ txn_open)
      × (t'.results ≡ t.results ++ ((a, context_error) ∷ []))
      × (expire t' ≡ t')
unfolding cancel expire begin
cancel-never_expires t commit o h =
    (ground (arith, o, h), ground (arith, o, h), ground (arith, o, h))
cancel-never_expires t abort o h =
    (ground (arith, o, h), ground (arith, o, h), ground (arith, o, h))

-- An operation that fails, the last one that Commit waits for, sets the state to TxnError, and yet
-- Commit goes on to ask the coordinator, and the transaction is committed if it agrees.
pub end_send_or_ack_op-commits :
    (t : Transaction)
    → t.ending ≡ waits commit
    → t.ops_count ≡ 1
    → t.active ≡ 1
    → let t1 = end_send_or_ack_op true t in
      let t2 = take_value t1 in
      (t1.state ≡ txn_error)
      × (t2.ending ≡ sends commit)
      × ((answered done t2).state ≡ txn_committed)
unfolding end_send_or_ack_op take_value answered
end_send_or_ack_op-commits t w c a =
    (ground (arith, c, a), ground (arith, w, c, a), ground (arith, w, c, a))
