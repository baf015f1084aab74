-- ===== src/PartitionConsumer/DeadLetters.antt =====
-- pulsar-client-go/pulsar/dlq_router.go: which messages are dead letters, and what becomes of them.
-- The router's producer is an input.
use pr.Base.{
  All, Bool, List, Option, [], arith, false, if◌then◌else◌, leb, none, not, refl, some, subst, sym,
  true, ℕ, ◌++◌, ◌<◌, ◌∷◌, ◌≡◌,
}
use pr.Message.{Message, MessageId, Bytes}
use pr.PartitionConsumer.{Consumer, ConsumerOptions, Event, run}
use pr.PartitionConsumer.Queued.{select, arrivals, waiting}
use pr.PartitionConsumer.Order.{run-arrivals}

-- `max_deliveries` is a uint32.
pub record DlqPolicy : Type 0 where
  pub max_deliveries : ℕ
  pub dead_letter_topic : Bytes

pub data DlqError : Type 0 where
  no_max_deliveries no_topic : DlqError

-- The error, if there is one.
unfoldable pub new_dlq_router : Option DlqPolicy → Option DlqError
new_dlq_router none = none
new_dlq_router (some p) =
    if leb p.max_deliveries 0
    then some no_max_deliveries
    else elim p.dead_letter_topic [ [] ↦ some no_topic | b ∷ bs ↦ none ]

unfoldable pub should_send_to_dlq : Option DlqPolicy → Message → Bool
should_send_to_dlq none m = false
should_send_to_dlq (some p) m = leb p.max_deliveries m.redelivery_count

-- What the router does with a message when its producer has an answer.
pub data Settled : Type 0 where
  acknowledged negatively_acknowledged : MessageId → Settled

abbrev pub settle : Bool → Message → Settled
settle true m = acknowledged m.msg_id
settle false m = negatively_acknowledged m.msg_id

select-All :
    (f : Message → Bool) (P : Message → Type 0) (ms : List Message)
    → ((m : Message) → f m ≡ true → P m)
    → All P (select f ms)
select-All f P [] h = tt
select-All f P (m ∷ ms) h =
    elim (f m) as (λ x. x ≡ f m → All P (if x then m ∷ select f ms else select f ms)) [
      | true ↦ λ e. (h m (sym e), select-All f P ms h)
      | false ↦ λ e. select-All f P ms h
    ]
      refl

All-first : (P : Message → Type 0) (xs ys : List Message) → All P (xs ++ ys) → All P xs
All-first P [] ys h = tt
All-first P (x ∷ xs) ys h = (h.0, All-first P xs ys h.1)

-- A consumer with a policy, in which nothing waits and which gave out nothing, gives the application
-- only messages that were redelivered fewer times than the policy's maximum, whatever comes.
pub run-should_send_to_dlq :
    (o : ConsumerOptions) (p : DlqPolicy) (c : Consumer) (es : List Event)
    → ((m : Message) → o.to_dlq m ≡ should_send_to_dlq (some p) m)
    → waiting c ≡ []
    → c.dispatched ≡ []
    → c.dead ≡ []
    → All (λ m. m.redelivery_count < p.max_deliveries) (run o c es).dispatched
unfolding should_send_to_dlq
run-should_send_to_dlq o p c es by w g d =
    let P : Message → Type 0 = λ m. m.redelivery_count < p.max_deliveries in
    let c' = run o c es in
    let f : Message → Bool = λ m. not (o.to_dlq m) in
    let all = select-All f P (arrivals o es) (λ m e. ground (arith, by m, e)) in
    All-first P c'.dispatched (select f (waiting c'))
      (subst (All P) (sym (run-arrivals o c es w g d).0) all)
