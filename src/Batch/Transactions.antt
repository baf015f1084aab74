-- ===== src/Batch/Transactions.antt =====
-- The ids of transactions in pulsar-client-go/pulsar/internal/batch_builder.go.
use pr.Base.{Bool, ap, arith, false, length, some, subst, sym, true, ℕ, ◌≡◌, ◌≢◌}
use pr.Buffer.{Buffer}
use pr.Buffer.Fifo.{IsValid}
use pr.Batch.{
  BatchContainer, AddRequest, accepts, has_space, has_same_schema, start_batch, started, add, reset,
  flush,
}
use pr.Batch.Appends.{IsSmall, extended, add-extended}

accepts-flush :
    (fails : Bool) (bc : BatchContainer) (a : AddRequest)
    → bc.num_messages ≢ 0
    → accepts (flush fails bc).0 a ≡ true
unfolding accepts flush reset has_space has_same_schema
accepts-flush fails bc a h = ground arith

started-flush :
    (fails : Bool) (bc : BatchContainer) (generator : ℕ) (a : AddRequest)
    → bc.num_messages ≢ 0
    → a.use_txn ≡ false
    → ((started (flush fails bc).0 generator a).0.cmd_send.txnid_most_bits
        ≡ bc.cmd_send.txnid_most_bits)
      × ((started (flush fails bc).0 generator a).0.cmd_send.txnid_least_bits
          ≡ bc.cmd_send.txnid_least_bits)
unfolding flush reset start_batch
started-flush fails bc generator a h u = ground arith

flush-buffer :
    (fails : Bool) (bc : BatchContainer)
    → bc.num_messages ≢ 0
    → (flush fails bc).0.buffer ≡ record bc.buffer { reader_idx = 0; writer_idx = 0 }
unfolding flush reset
flush-buffer fails bc h = ground arith

cleared-IsValid : (b : Buffer) → IsValid b → IsValid (record b { reader_idx = 0; writer_idx = 0 })
cleared-IsValid b v = omega (arith, v.fits)

-- `Flush` of a container with messages, not near the limit of its valid buffer, leaves the id of a
-- transaction in the command: a message without transaction that is
-- added next is accepted, and its batch still has the id that the batch before had.
pub add-flush_keeps_txn :
    (fails : Bool) (bc : BatchContainer) (generator : ℕ) (a : AddRequest)
    → IsValid bc.buffer
    → bc.num_messages ≢ 0
    → IsSmall bc a
    → a.use_txn ≡ false
    → (bc' : BatchContainer) × (g : ℕ) × (add (flush fails bc).0 generator a ≡ some (bc', g, true))
      × (bc'.cmd_send.txnid_most_bits ≡ bc.cmd_send.txnid_most_bits)
      × (bc'.cmd_send.txnid_least_bits ≡ bc.cmd_send.txnid_least_bits)
add-flush_keeps_txn fails bc generator a v h l u =
    let c = flush-buffer fails bc h in
    let small : IsSmall (flush fails bc).0 a = omega (arith, l, ap (λ x. length x.contents) c) in
    let valid = subst IsValid (sym c) (cleared-IsValid bc.buffer v) in
    let (b, e, v', w) =
      add-extended (flush fails bc).0 generator a valid small (accepts-flush fails bc a h) in
    let (k1, k2) = started-flush fails bc generator a h u in
    (
      extended (started (flush fails bc).0 generator a).0 b a.callback,
      (started (flush fails bc).0 generator a).1,
      e,
      k1,
      k2,
    )
