-- ===== src/Transaction.antt =====
-- pulsar-client-go/pulsar/transaction_impl.go: a transaction. The goroutines that call its methods
-- go on at events: each event is one atomic step of one of them. Topics and subscriptions are strings
-- that are only compared: natural numbers here.
pub mod Tokens
pub mod Quiescence
pub mod Ends
mod Tests
use pr.Base.{
  Bool, List, [], add32, false, if◌then◌else◌, ltb, sub32, true, ℕ, ◌&&◌, ◌++◌, ◌+◌, ◌-◌, ◌==◌, ◌∷◌,
}

pub data TxnState : Type 0 where
  txn_open txn_committing txn_aborting txn_committed txn_aborted txn_timeout txn_error : TxnState

pub data Action : Type 0 where
  commit abort : Action

-- Where the one call of Commit or Abort is that got past its first test.
pub data Ending : Type 0 where
  nobody : Ending
  waits : Action → Ending
  sends : Action → Ending

-- What the coordinator answers: `fatal` is TransactionNoFoundError or InvalidStatus.
pub data Answer : Type 0 where
  done fatal retryable : Answer

pub data Result : Type 0 where
  ended invalid_status context_error timeout_error failed : Result

-- `ops_count` is an int32 word, `ops_flow` the number of values in the channel. `armed`: the goroutine
-- with the timeout is still there. `waiting` calls of registerSendOrAckOp wait for a value, `active`
-- operations are registered and have not ended, `results` are what Commit and Abort returned. What
-- the code does not keep: `holds`, that the active operations took the value out of the channel,
-- `given_up`, the calls of registerSendOrAckOp that timed out, and `spent`, that the transaction ended
-- with the value.
pub record Transaction : Type 0 where
  pub state : TxnState
  pub ops_flow : ℕ
  pub ops_count : ℕ
  pub armed : Bool
  pub ending : Ending
  pub waiting : ℕ
  pub active : ℕ
  pub results : List (Action × Result)
  pub holds : Bool
  pub given_up : ℕ
  pub spent : Bool

abbrev pub new_transaction : Transaction
new_transaction = record {
  state = txn_open;
  ops_flow = 1;
  ops_count = 0;
  armed = true;
  ending = nobody;
  waiting = 0;
  active = 0;
  results = [];
  holds = false;
  given_up = 0;
  spent = false;
}

abbrev pub is_txn_open : TxnState → Bool
is_txn_open txn_open = true
is_txn_open _ = false

-- The goroutine of newTransaction.
unfoldable pub expire : Transaction → Transaction
expire t =
    if t.armed
    then record t { armed = false; state = if is_txn_open t.state then txn_timeout else t.state }
    else t

abbrev pub entered : Action → TxnState
entered commit = txn_committing
entered abort = txn_aborting

abbrev pub finished : Action → TxnState
finished commit = txn_committed
finished abort = txn_aborted

abbrev pub returns : Transaction → Action → Result → Transaction
returns t a r = record t { ending = nobody; results = t.results ++ ((a, r) ∷ []) }

-- Commit and Abort, up to the wait.
unfoldable pub begin : Action → Transaction → Transaction
begin a t =
    if is_txn_open t.state
    then record t { state = entered a; ending = waits a }
    else record t { results = t.results ++ ((a, invalid_status) ∷ []) }

-- The wait of Commit and Abort gets a value.
unfoldable pub take_value : Transaction → Transaction
take_value t = elim t.ending [
  | waits a ↦
      if ltb 0 t.ops_flow then record t { ops_flow = t.ops_flow - 1; ending = sends a } else t
  | _ ↦ t
]

-- The context is done.
unfoldable pub cancel : Transaction → Transaction
cancel t = elim t.ending [
  | waits a ↦ returns (record t { state = txn_open }) a context_error
  | _ ↦ t
]

-- The wait is over after the operation's timeout.
unfoldable pub wait_over : Transaction → Transaction
wait_over t = elim t.ending [
  | waits a ↦ returns (record t { state = txn_timeout }) a timeout_error
  | _ ↦ t
]

-- The coordinator answers.
unfoldable pub answered : Answer → Transaction → Transaction
answered r t = elim t.ending [
  | sends a ↦ elim r [
    | done ↦ returns (record t { state = finished a; spent = true }) a ended
    | fatal ↦ returns (record t { state = txn_error; spent = true }) a failed
    | retryable ↦ returns (record t { ops_flow = t.ops_flow + 1 }) a failed
  ]
  | _ ↦ t
]

-- registerSendOrAckOp, up to the wait of the first operation.
unfoldable pub register_send_or_ack_op : Transaction → Transaction
register_send_or_ack_op t =
    let n = add32 t.ops_count 1 in
    if n == 1
    then record t { ops_count = n; waiting = t.waiting + 1 }
    else record t { ops_count = n; active = t.active + 1 }

-- Its wait gets a value.
unfoldable pub register_value : Transaction → Transaction
register_value t =
    if ltb 0 t.waiting && ltb 0 t.ops_flow
    then record t {
      ops_flow = t.ops_flow - 1;
      waiting = t.waiting - 1;
      active = t.active + 1;
      holds = true;
    }
    else t

-- Its wait is over after the operation's timeout.
unfoldable pub register_over : Transaction → Transaction
register_over t =
    if ltb 0 t.waiting then record t { waiting = t.waiting - 1; given_up = t.given_up + 1 } else t

-- endSendOrAckOp of an active operation, with or without an error.
unfoldable pub end_send_or_ack_op : Bool → Transaction → Transaction
end_send_or_ack_op err t =
    let n = sub32 t.ops_count 1 in
    let t' = record t {
      state = if err then txn_error else t.state;
      ops_count = n;
      active = t.active - 1;
    } in
    if ltb 0 t.active
    then (if n == 0 then record t' { ops_flow = t.ops_flow + 1; holds = false } else t')
    else t

pub data Event : Type 0 where
  expires : Event
  begins : Action → Event
  takes : Event
  cancels : Event
  waited : Event
  answers : Answer → Event
  registers : Event
  registered : Event
  gives_up : Event
  ends : Bool → Event

unfoldable pub step : Transaction → Event → Transaction
unfolding expire begin take_value cancel wait_over answered register_send_or_ack_op register_value
    register_over end_send_or_ack_op
step t expires = expire t
step t (begins a) = begin a t
step t takes = take_value t
step t cancels = cancel t
step t waited = wait_over t
step t (answers r) = answered r t
step t registers = register_send_or_ack_op t
step t registered = register_value t
step t gives_up = register_over t
step t (ends err) = end_send_or_ack_op err t

unfoldable pub run : Transaction → List Event → Transaction
unfolding step
run t [] = t
run t (e ∷ es) = run (step t e) es
