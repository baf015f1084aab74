-- ===== src/Transaction/Tests.antt =====
-- Runs of a transaction of pulsar-client-go/pulsar/transaction_impl.go.
use pr.Base.{List, [], arith, false, refl, true, ◌+◌, ◌<◌, ◌∷◌, ◌≡◌, ◌≤◌, ◌⊎◌}
use pr.Transaction.{
  Transaction, Event, commit, abort, done, retryable, waits, sends, ended, failed, invalid_status,
  context_error, begins, takes, answers, registers, registered, ends, new_transaction, run,
  is_txn_open, txn_open, txn_error, txn_committed, txn_committing, answered, begin, cancel, expire,
  end_send_or_ack_op, take_value,
}
use pr.Transaction.Tokens.{sending}
use pr.Transaction.Quiescence.{run-quiesces}
use pr.Transaction.Ends.{answered-never_again, cancel-never_expires, end_send_or_ack_op-commits}

-- Two operations, of which the last to end lets Commit go on.
abbrev script : List Event
script =
    registers
    ∷ registered
    ∷ registers
    ∷ begins commit
    ∷ takes
    ∷ ends false
    ∷ ends false
    ∷ takes
    ∷ answers done
    ∷ []

script-results : (run new_transaction script).results ≡ (commit, ended) ∷ []
unfolding run
script-results = refl

run-quiesces_example :
    let t = run new_transaction script in
    (t.ops_flow ≤ 1)
    × ((sending t.ending ≡ 0)
        ⊎ ((t.ops_flow ≡ 0)
            × (is_txn_open t.state ≡ false)
            × ((t.active ≡ 0) ⊎ (0 < t.waiting + t.given_up))))
run-quiesces_example = run-quiesces script (omega arith)

-- The coordinator is asked to commit.
abbrev asked : Transaction
asked = record new_transaction { state = txn_committing; ops_flow = 0; ending = sends commit }

answered-never_again_example :
    let t = run (answered retryable asked) (begins commit ∷ begins abort ∷ []) in
    (is_txn_open t.state ≡ false)
    × (t.results ≡ (commit, failed) ∷ (commit, invalid_status) ∷ (abort, invalid_status) ∷ [])
answered-never_again_example =
    answered-never_again asked commit (begins commit ∷ begins abort ∷ []) refl refl

cancel-never_expires_example :
    let t = cancel (expire (begin abort new_transaction)) in
    (t.state ≡ txn_open) × (t.results ≡ (abort, context_error) ∷ []) × (expire t ≡ t)
cancel-never_expires_example = cancel-never_expires new_transaction abort refl refl

-- Commit waits for one operation.
abbrev pending : Transaction
pending = record new_transaction {
  state = txn_committing;
  ops_flow = 0;
  ops_count = 1;
  ending = waits commit;
  active = 1;
  holds = true;
}

end_send_or_ack_op-commits_example :
    let t = end_send_or_ack_op true pending in
    (t.state ≡ txn_error)
    × ((take_value t).ending ≡ sends commit)
    × ((answered done (take_value t)).state ≡ txn_committed)
end_send_or_ack_op-commits_example = end_send_or_ack_op-commits pending refl refl refl
