-- ===== src/PartitionConsumer/Overhang.antt =====
-- The memory of a frame in pulsar-client-go/pulsar/consumer_partition.go, reserved and released.
use pr.Base.{
  Bool, List, [], ap, ap₂, arith, false, if◌then◌else◌, length, refl, replicate, subst, sym, true,
  ◌%◌, ◌++◌, ◌+◌, ◌<◌, ◌^◌, ◌∙◌, ◌∷◌, ◌≡◌,
}
use pr.Message.{Message, size}
use pr.Message.DeadLetter.{dead_letter}
use pr.PartitionConsumer.{
  Consumer, ConsumerOptions, Frame, frame, next, give_out, message_received, take_batch,
  after_dispatch, dispatch, step, run,
}
use pr.PartitionConsumer.Permits.{all_read}
use pr.PartitionConsumer.Queued.{kept, IsSame-refl, after_dispatch-IsSame, receive_from-IsReceived}
use pr.PartitionConsumer.Memory.{
  sizes, totals, overhang, totals_split, receive_from-used_mem, after_dispatch-used_mem,
}

module _ (o : ConsumerOptions) (auto : o.auto_receiver_queue_size ≡ true) (usage_low : Bool) where
  -- Each message that is given out releases its own size.
  give_all :
      (ms : List Message) (c : Consumer)
      → c.messages ≡ ms
      → c.is_seeking ≡ false
      → c.used_mem < 2 ^ 64
      → let c' = run o c (replicate (length ms) (give_out usage_low)) in
        ((c'.used_mem + sizes ms) % 2 ^ 64 ≡ c.used_mem) × (c'.used_mem < 2 ^ 64)
  unfolding run step dispatch
  give_all [] c e s b = (omega arith, b)
  give_all (m ∷ ms) c e s b =
      let d =
        if o.to_dlq m
        then record c { messages = ms; dead = c.dead ++ (dead_letter o.decimal m ∷ []) }
        else record c { messages = ms; dispatched = c.dispatched ++ (m ∷ []) } in
      let one : dispatch o usage_low c ≡ after_dispatch o usage_low d m = ground (arith, e, s) in
      let dm : d.messages ≡ ms = ground arith in
      let ds : d.is_seeking ≡ false = ground (arith, s) in
      let du : d.used_mem ≡ c.used_mem = ground arith in
      let same = after_dispatch-IsSame o usage_low d m in
      let used = after_dispatch-used_mem o usage_low d m auto in
      let rest =
        give_all ms (after_dispatch o usage_low d m) (same.messages ∙ dm) (same.seeking ∙ ds)
          (omega (arith, used)) in
      subst
        (λ x.
          let c' = run o x (replicate (length ms) (give_out usage_low)) in
          ((c'.used_mem + (size m + sizes ms)) % 2 ^ 64 ≡ c.used_mem) × (c'.used_mem < 2 ^ 64))
        (sym one) (omega (arith, rest.0, used, du, b), rest.1)

-- With automatic sizing, a frame that can be read is received by a consumer in which nothing waits
-- and which does not seek, and all of its messages are given out: the memory still
-- reserved is then, over what it was before, the sum over these messages of the sizes of the
-- messages of the frame that came before each.
pub run-overhang :
    (o : ConsumerOptions) (c : Consumer) (f : Frame) (usage_low : Bool)
    → o.auto_receiver_queue_size ≡ true
    → all_read f.items ≡ true
    → c.messages ≡ []
    → c.queue_ch ≡ []
    → c.is_seeking ≡ false
    → c.used_mem < 2 ^ 64
    → let ms = kept o f 0 f.items in
      (run o c (frame f ∷ next ∷ replicate (length ms) (give_out usage_low))).used_mem
      ≡ (c.used_mem + overhang 0 ms) % 2 ^ 64
unfolding run step message_received take_batch
run-overhang o c f usage_low auto whole none_in_hand idle still b =
    let ms = kept o f 0 f.items in
    let c0 = record c { taken = c.taken + length f.items } in
    let c1 = message_received o c f in
    let u = receive_from-IsReceived o f 0 f.items [] 0 0 c0 c0 (IsSame-refl c0) in
    let q : c1.queue_ch ≡ ms ∷ [] =
      u.queue ∙ ap₂ ◌++◌ idle (ap (λ x. if x then ms ∷ [] else []) whole) in
    let h : c1.messages ≡ [] = u.messages ∙ none_in_hand in
    let used : c1.used_mem ≡ (c.used_mem + totals 0 ms) % 2 ^ 64 =
      receive_from-used_mem o f 0 f.items [] 0 0 c0 c.used_mem auto whole (omega (arith, b)) in
    let c2 = record c1 { messages = ms; queue_ch = [] } in
    let t : take_batch c1 ≡ c2 = ground (arith, q, h) in
    let g = give_all o auto usage_low ms c2 refl (u.seeking ∙ still) (omega (arith, used)) in
    ap (λ x. (run o x (replicate (length ms) (give_out usage_low))).used_mem) t
    ∙ omega (arith, g.0, g.1, used, totals_split ms 0)
