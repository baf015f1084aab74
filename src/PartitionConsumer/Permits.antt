-- ===== src/PartitionConsumer/Permits.antt =====
-- The permits of pulsar-client-go/pulsar/consumer_partition.go, for a queue of a fixed size.
use Prim.Native.Nat.{max}
use pr.Base.{
  Bool, List, Option, [], add32, ap, arith, false, if◌then◌else◌, length, ltb, none, refl, slt32,
  some, true, ℕ, ◌%◌, ◌++◌, ◌+◌, ◌-◌, ◌/◌, ◌<◌, ◌^◌, ◌∙◌, ◌∷◌, ◌≡◌, ◌≤◌,
}
use pr.Message.{Message}
use pr.PartitionConsumer.{
  Consumer, ConsumerOptions, Frame, ready, internal_flow, flow_if_need, add_permits, Event, frame,
  total_length,
}

abbrev pub all_read : List (Option Message) → Bool
all_read [] = true
all_read (none ∷ items) = false
all_read (some m ∷ items) = all_read items

-- The permits that a corrupt frame takes with it: all but one.
abbrev pub lost_by : Frame → ℕ
lost_by f = if all_read f.items then 0 else length f.items - 1

abbrev pub event_loss : Event → ℕ
event_loss (frame f) = lost_by f
event_loss _ = 0

abbrev pub losses : List Event → ℕ
losses [] = 0
losses (e ∷ es) = event_loss e + losses es

-- A frame of at most 2 ^ 30 messages.
abbrev pub IsSmall : Event → Type 0
IsSmall (frame f) = length f.items ≤ 2 ^ 30
IsSmall _ = Unit

abbrev pub sum : List ℕ → ℕ
sum [] = 0
sum (n ∷ ns) = n + sum ns

pub sum-append : (xs ys : List ℕ) → sum (xs ++ ys) ≡ sum xs + sum ys
sum-append [] ys = omega arith
sum-append (x ∷ xs) ys = omega (arith, sum-append xs ys)

pub total_length-append :
    (xs ys : List (List Message)) → total_length (xs ++ ys) ≡ total_length xs + total_length ys
total_length-append [] ys = omega arith
total_length-append (x ∷ xs) ys = omega (arith, total_length-append xs ys)

-- The messages that wait for the application.
abbrev pub queued : Consumer → ℕ
queued c = length c.messages + total_length c.queue_ch

-- A queue of a fixed size, that is not empty.
pub record IsFixed (o : ConsumerOptions) : Type 0 where
  pub fixed : o.auto_receiver_queue_size ≡ false
  pub prefetches : 0 < o.receiver_queue_size
  pub nonempty : 0 < o.max_queue_size
  pub word : o.max_queue_size < 2 ^ 31

-- `owed` are the permits of the messages that are in the hand of the method that runs, `lost` those
-- of corrupt frames.
pub record IsFlowing (o : ConsumerOptions) (lost owed : ℕ) (c : Consumer) : Type 0 where
  pub live : c.state ≡ ready
  pub online : c.connected ≡ true
  pub below : c.permits < max (o.max_queue_size / 2) 1
  pub total : sum c.flows + c.permits + queued c + owed + lost ≡ o.max_queue_size + c.taken

-- What the sums count may move.
pub recount :
    {o : ConsumerOptions} (lost lost' owed owed' : ℕ) (c d : Consumer)
    → d.state ≡ c.state
    → d.connected ≡ c.connected
    → d.permits ≡ c.permits
    → d.flows ≡ c.flows
    → queued d + owed' + lost' + c.taken ≡ queued c + owed + lost + d.taken
    → IsFlowing o lost owed c
    → IsFlowing o lost' owed' d
recount lost lost' owed owed' c d es en ep ef q v = record {
  live = es ∙ v.live;
  online = en ∙ v.online;
  below = omega (arith, ep, v.below);
  total = omega (arith, ep, ap sum ef, q, v.total);
}

module _ (o : ConsumerOptions) (fix : IsFixed o) where
  threshold_small : max (o.max_queue_size / 2) 1 ≤ 2 ^ 30
  threshold_small = omega (arith, fix.word)

  -- The test on words that are small.
  slt32_small : (a b : ℕ) → a < 2 ^ 31 → b < 2 ^ 31 → slt32 a b ≡ ltb a b
  slt32_small a b ha hb =
      let ea : (a + 2 ^ 31) % 2 ^ 32 ≡ a + 2 ^ 31 = omega arith in
      let eb : (b + 2 ^ 31) % 2 ^ 32 ≡ b + 2 ^ 31 = omega arith in rw (ea, eb) (ground arith)

  abbrev give : Consumer → Consumer
  give c = record c { permits = 0; flows = c.flows ++ (c.permits ∷ []) }

  flow_if_need_fixed :
      (c : Consumer)
      → c.state ≡ ready
      → c.connected ≡ true
      → c.permits < 2 ^ 31
      → flow_if_need o c ≡ (if ltb c.permits (max (o.max_queue_size / 2) 1) then c else give c)
  unfolding flow_if_need internal_flow
  flow_if_need_fixed c s n b =
      let e = slt32_small c.permits (max (o.max_queue_size / 2) 1) b (omega (arith, fix.word)) in
      ground (arith, s, n, fix.fixed, e)

  flow_if_need-IsFlowing :
      (lost owed : ℕ) (c : Consumer)
      → c.state ≡ ready
      → c.connected ≡ true
      → c.permits < 2 ^ 31
      → sum c.flows + c.permits + queued c + owed + lost ≡ o.max_queue_size + c.taken
      → IsFlowing o lost owed (flow_if_need o c)
  flow_if_need-IsFlowing lost owed c s n b t = rw (flow_if_need_fixed c s n b) (
      elim (ltb c.permits (max (o.max_queue_size / 2) 1))
          as (λ x.
            x ≡ ltb c.permits (max (o.max_queue_size / 2) 1)
            → IsFlowing o lost owed (if x then c else give c)) [
              | true ↦ λ e. record { live = s; online = n; below = ground arith; total = t }
              | false ↦ λ e. record {
                live = s;
                online = n;
                below = omega arith;
                total = omega (arith, sum-append c.flows (c.permits ∷ []));
              }
            ]
        refl)

  pub add_permits-IsFlowing :
      (lost owed delta : ℕ) (c : Consumer)
      → delta ≤ 2 ^ 30
      → IsFlowing o lost (delta + owed) c
      → IsFlowing o lost owed (add_permits o c delta)
  unfolding add_permits
  add_permits-IsFlowing lost owed delta c d v =
      let e : add32 c.permits delta ≡ c.permits + delta = omega (arith, v.below, fix.word) in
      rw e (
        flow_if_need-IsFlowing lost owed (record c { permits = c.permits + delta }) v.live v.online
          (omega (arith, v.below, fix.word)) (omega (arith, v.total)))
