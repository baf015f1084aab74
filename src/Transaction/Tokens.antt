-- ===== src/Transaction/Tokens.antt =====
-- The value that goes round in pulsar-client-go/pulsar/transaction_impl.go.
use pr.Base.{Bool, arith, false, if◌then◌else◌, ℕ, ◌+◌, ◌<◌, ◌^◌, ◌≡◌, ◌≤◌, ◌⊎◌}
use pr.Transaction.{
  Transaction, Action, Ending, nobody, sends, is_txn_open, expire, begin, register_send_or_ack_op,
  register_value, register_over, end_send_or_ack_op,
}

abbrev pub bit : Bool → ℕ
bit b = if b then 1 else 0

abbrev pub sending : Ending → ℕ
sending (sends a) = 1
sending _ = 0

-- A call of Commit or Abort is under way.
abbrev pub occupied : Ending → ℕ
occupied nobody = 0
occupied _ = 1

-- One value, which is in the channel, with the active operations, with the call that asks the
-- coordinator, or gone; operations that are counted are active, wait, or gave up waiting.
pub record IsTokened (n : ℕ) (t : Transaction) : Type 0 where
  pub count : t.ops_count ≡ t.active + t.waiting + t.given_up
  pub bounded : t.ops_count ≤ n
  pub one : t.ops_flow + bit t.holds + sending t.ending + bit t.spent ≡ 1
  pub alone : (bit t.holds ≡ 0) ⊎ ((t.waiting + t.given_up ≡ 0) × (0 < t.active))
  pub single : t.waiting + t.given_up ≤ 1
  pub held : (t.active ≡ 0) ⊎ (0 < bit t.holds + t.waiting + t.given_up)
  pub ender : (occupied t.ending ≡ 0) ⊎ (is_txn_open t.state ≡ false)

module _ (n : ℕ) (t : Transaction) (small : n < 2 ^ 31) (v : IsTokened n t) where
  pub expire-IsTokened : IsTokened (n + 1) (expire t)
  unfolding expire
  expire-IsTokened = record {
    count = ground (arith, v.count);
    bounded = ground (arith, v.bounded);
    one = ground (arith, v.one);
    alone = ground (arith, v.alone);
    single = ground (arith, v.single, v.count, v.bounded);
    held = ground (arith, v.held);
    ender = ground (arith, v.ender);
  }

  pub begin-IsTokened : (a : Action) → IsTokened (n + 1) (begin a t)
  unfolding begin
  begin-IsTokened a = record {
    count = ground (arith, v.count);
    bounded = ground (arith, v.bounded);
    one = ground (arith, v.one, v.ender);
    alone = ground (arith, v.alone);
    single = ground (arith, v.single, v.count, v.bounded);
    held = ground (arith, v.held);
    ender = ground (arith, v.ender);
  }

  pub register-IsTokened : IsTokened (n + 1) (register_send_or_ack_op t)
  unfolding register_send_or_ack_op
  register-IsTokened = record {
    count = ground (arith, v.count, v.bounded);
    bounded = ground (arith, v.bounded);
    one = ground (arith, v.one, v.ender);
    alone = ground (arith, v.alone, v.count, v.bounded);
    single = ground (arith, v.single, v.count, v.bounded);
    held = ground (arith, v.held, v.count, v.bounded);
    ender = ground (arith, v.ender);
  }

  pub register_value-IsTokened : IsTokened (n + 1) (register_value t)
  unfolding register_value
  register_value-IsTokened = record {
    count = ground (arith, v.count, v.bounded);
    bounded = ground (arith, v.bounded);
    one = ground (arith, v.one, v.alone);
    alone = ground (arith, v.alone, v.one, v.single);
    single = ground (arith, v.single, v.count, v.bounded);
    held = ground (arith, v.held, v.count, v.bounded);
    ender = ground (arith, v.ender);
  }

  pub register_over-IsTokened : IsTokened (n + 1) (register_over t)
  unfolding register_over
  register_over-IsTokened = record {
    count = ground (arith, v.count, v.bounded);
    bounded = ground (arith, v.bounded);
    one = ground (arith, v.one, v.alone);
    alone = ground (arith, v.alone, v.one, v.single);
    single = ground (arith, v.single, v.count, v.bounded);
    held = ground (arith, v.held, v.count, v.bounded);
    ender = ground (arith, v.ender);
  }

  pub end-IsTokened : (err : Bool) → IsTokened (n + 1) (end_send_or_ack_op err t)
  unfolding end_send_or_ack_op
  end-IsTokened err = record {
    count = ground (arith, v.count, v.bounded);
    bounded = ground (arith, v.bounded, v.count);
    one = ground (arith, v.one, v.alone, v.held, v.count, v.bounded);
    alone = ground (arith, v.alone, v.one, v.count, v.bounded);
    single = ground (arith, v.single, v.count, v.bounded);
    held = ground (arith, v.held, v.count, v.bounded);
    ender = ground (arith, v.ender);
  }
