-- ===== src/Transaction/Quiescence.antt =====
-- What holds while the coordinator ends a transaction of
-- pulsar-client-go/pulsar/transaction_impl.go.
use pr.Base.{
  Bool, List, [], ap, arith, false, if◌then◌else◌, inl, inr, length, ltb, refl, subst, true, ℕ, ◌+◌,
  ◌-◌, ◌<◌, ◌^◌, ◌∷◌, ◌≡◌, ◌≤◌, ◌⊎◌,
}
use pr.Transaction.{
  TxnState, Transaction, Action, Answer, done, fatal, retryable, Ending, nobody, waits, sends,
  Event, expires, begins, takes, cancels, waited, answers, registers, registered, gives_up, ends,
  Result, ended, failed, context_error, timeout_error, returns, finished, txn_timeout, txn_error,
  is_txn_open, new_transaction, take_value, cancel, wait_over, answered, step, run, txn_open,
}
use pr.Transaction.Tokens.{
  bit, sending, occupied, IsTokened, expire-IsTokened, begin-IsTokened, register-IsTokened,
  register_value-IsTokened, register_over-IsTokened, end-IsTokened,
}

-- The steps of Commit and Abort behind the wait.
module _ (n : ℕ) (t : Transaction) (small : n < 2 ^ 31) where
  nothing : IsTokened n t → IsTokened (n + 1) t
  nothing v = record {
    count = v.count;
    bounded = omega (arith, v.bounded);
    one = v.one;
    alone = v.alone;
    single = v.single;
    held = v.held;
    ender = v.ender;
  }

  -- What a step of Commit or Abort may change.
  goes_on :
      (flow : ℕ) (state : TxnState) (ending : Ending) (results : List (Action × Result))
      (spent : Bool)
      → flow + sending ending + bit spent ≡ t.ops_flow + sending t.ending + bit t.spent
      → (occupied ending ≡ 0) ⊎ (is_txn_open state ≡ false)
      → IsTokened n t
      → IsTokened (n + 1) (record t {
        ops_flow = flow;
        state = state;
        ending = ending;
        results = results;
        spent = spent;
      })
  goes_on flow state ending results spent e d v = record {
    count = v.count;
    bounded = omega (arith, v.bounded);
    one = omega (arith, e, v.one);
    alone = v.alone;
    single = v.single;
    held = v.held;
    ender = d;
  }

  take_by :
      (e : Ending)
      → t.ending ≡ e
      → IsTokened n t
      → IsTokened (n + 1) (elim e [
        | waits a ↦
            if ltb 0 t.ops_flow then record t { ops_flow = t.ops_flow - 1; ending = sends a } else t
        | _ ↦ t
      ])
  take_by nobody e v = nothing v
  take_by (waits a) e v =
      let d = record t { ops_flow = t.ops_flow - 1; ending = sends a } in
      elim (ltb 0 t.ops_flow)
          as (λ x. x ≡ ltb 0 t.ops_flow → IsTokened (n + 1) (if x then d else t)) [
            | true ↦ λ h.
                goes_on (t.ops_flow - 1) t.state (sends a) t.results t.spent
                  (ground (arith, h, ap sending e)) (ground (arith, v.ender, ap occupied e)) v
            | false ↦ λ h. nothing v
          ]
        refl
  take_by (sends a) e v = nothing v

  cancel_by :
      (e : Ending)
      → t.ending ≡ e
      → IsTokened n t
      → IsTokened
          (n + 1)
          (elim e [ waits a ↦ returns (record t { state = txn_open }) a context_error | _ ↦ t ])
  cancel_by nobody e v = nothing v
  cancel_by (waits a) e v =
      goes_on t.ops_flow txn_open nobody _ t.spent (omega (arith, ap sending e)) (inl refl) v
  cancel_by (sends a) e v = nothing v

  wait_over_by :
      (e : Ending)
      → t.ending ≡ e
      → IsTokened n t
      → IsTokened
          (n + 1)
          (elim e [ waits a ↦ returns (record t { state = txn_timeout }) a timeout_error | _ ↦ t ])
  wait_over_by nobody e v = nothing v
  wait_over_by (waits a) e v =
      goes_on t.ops_flow txn_timeout nobody _ t.spent (omega (arith, ap sending e)) (inl refl) v
  wait_over_by (sends a) e v = nothing v

  answered_by :
      (e : Ending) (r : Answer)
      → t.ending ≡ e
      → IsTokened n t
      → IsTokened (n + 1) (elim e [
        | sends a ↦ elim r [
          | done ↦ returns (record t { state = finished a; spent = true }) a ended
          | fatal ↦ returns (record t { state = txn_error; spent = true }) a failed
          | retryable ↦ returns (record t { ops_flow = t.ops_flow + 1 }) a failed
        ]
        | _ ↦ t
      ])
  answered_by nobody r e v = nothing v
  answered_by (waits a) r e v = nothing v
  answered_by (sends a) done e v =
      goes_on t.ops_flow (finished a) nobody _ true (ground (arith, ap sending e, v.one)) (inl refl)
        v
  answered_by (sends a) fatal e v =
      goes_on t.ops_flow txn_error nobody _ true (ground (arith, ap sending e, v.one)) (inl refl) v
  answered_by (sends a) retryable e v =
      goes_on (t.ops_flow + 1) t.state nobody _ t.spent (omega (arith, ap sending e)) (inl refl) v

step-IsTokened :
    (n : ℕ) (t : Transaction) (e : Event)
    → n < 2 ^ 31
    → IsTokened n t
    → IsTokened (n + 1) (step t e)
unfolding step take_value cancel wait_over answered
step-IsTokened n t expires s v = expire-IsTokened n t s v
step-IsTokened n t (begins a) s v = begin-IsTokened n t s v a
step-IsTokened n t takes s v = take_by n t s t.ending refl v
step-IsTokened n t cancels s v = cancel_by n t s t.ending refl v
step-IsTokened n t waited s v = wait_over_by n t s t.ending refl v
step-IsTokened n t (answers r) s v = answered_by n t s t.ending r refl v
step-IsTokened n t registers s v = register-IsTokened n t s v
step-IsTokened n t registered s v = register_value-IsTokened n t s v
step-IsTokened n t gives_up s v = register_over-IsTokened n t s v
step-IsTokened n t (ends err) s v = end-IsTokened n t s v err

run_keeps :
    (n : ℕ) (t : Transaction) (es : List Event)
    → n + length es < 2 ^ 31
    → IsTokened n t
    → IsTokened (n + length es) (run t es)
unfolding run
run_keeps n t [] s v = subst (λ k. IsTokened k t) (omega arith) v
run_keeps n t (e ∷ es) s v =
    subst (λ k. IsTokened k (run (step t e) es)) (omega arith)
      (run_keeps (n + 1) (step t e) es (omega arith) (step-IsTokened n t e (omega arith) v))

ending_by :
    {n : ℕ} {t : Transaction} (e : Ending)
    → t.ending ≡ e
    → IsTokened n t
    → (sending t.ending ≡ 0)
      ⊎ ((t.ops_flow ≡ 0)
          × (is_txn_open t.state ≡ false)
          × ((t.active ≡ 0) ⊎ (0 < t.waiting + t.given_up)))
ending_by nobody e v = inl (ap sending e)
ending_by (waits a) e v = inl (ap sending e)
ending_by (sends a) e v =
    let s = ap sending e in
    let o = ap occupied e in
    inr (omega (arith, s, v.one), ground (arith, o, v.ender), ground (arith, s, v.one, v.held))

-- Whatever fewer than 2 ^ 31 steps a new transaction takes: the channel, which has room for one
-- value, never holds more, so that no write to it waits; and while the coordinator is asked to end
-- the transaction, the channel is empty, the transaction is not open, and no operation is active, unless
-- one waits for the value or gave up waiting for it.
pub run-quiesces :
    (es : List Event)
    → length es < 2 ^ 31
    → let t = run new_transaction es in
      (t.ops_flow ≤ 1)
      × ((sending t.ending ≡ 0)
          ⊎ ((t.ops_flow ≡ 0)
              × (is_txn_open t.state ≡ false)
              × ((t.active ≡ 0) ⊎ (0 < t.waiting + t.given_up))))
run-quiesces es small =
    let start : IsTokened 0 new_transaction = record {
      count = refl;
      bounded = omega arith;
      one = refl;
      alone = inl refl;
      single = omega arith;
      held = inl refl;
      ender = inl refl;
    } in
    let t = run new_transaction es in
    let v = run_keeps 0 new_transaction es (omega arith) start in
    (omega (arith, v.one), ending_by t.ending refl v)
