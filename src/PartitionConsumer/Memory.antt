-- ===== src/PartitionConsumer/Memory.antt =====
-- What each step does to the memory that pulsar-client-go/pulsar/consumer_partition.go reserves.
use pr.Base.{
  Bool, List, Option, [], add32, add64, ap, arith, false, if_both, if◌then◌else◌, ltb, none, not,
  refl, slt32, some, sub32, sub64, subst, sym, true, ℕ, ◌%◌, ◌&&◌, ◌++◌, ◌+◌, ◌==◌, ◌^◌, ◌∙◌, ◌∷◌,
  ◌≡◌,
}
use pr.Message.{Message, size}
use pr.PartitionConsumer.{
  Consumer, ConsumerOptions, Frame, internal_flow, flow_threshold, flow_if_need, add_permits,
  frame_id, mark_scale_if_need, count_incoming, receive_from, after_dispatch,
  expect_more_incoming_messages, is_open,
}
use pr.PartitionConsumer.Permits.{all_read}
use pr.PartitionConsumer.Queued.{kept, kept_nested, if_both_2}

abbrev pub sizes : List Message → ℕ
sizes [] = 0
sizes (m ∷ ms) = size m + sizes ms

-- The sum of the running totals.
abbrev pub totals : ℕ → List Message → ℕ
totals b [] = 0
totals b (m ∷ ms) = b + size m + totals (b + size m) ms

-- What the running totals hold of the messages before.
abbrev pub overhang : ℕ → List Message → ℕ
overhang b [] = 0
overhang b (m ∷ ms) = b + overhang (b + size m) ms

pub totals_split : (ms : List Message) (b : ℕ) → totals b ms ≡ sizes ms + overhang b ms
totals_split [] b = refl
totals_split (m ∷ ms) b = omega (arith, totals_split ms (b + size m))

module _ (o : ConsumerOptions) where
  internal_flow-used_mem : (c : Consumer) (n : ℕ) → (internal_flow c n).used_mem ≡ c.used_mem
  unfolding internal_flow
  internal_flow-used_mem c n =
      let P : Consumer → Type 0 = λ d. d.used_mem ≡ c.used_mem in
      if_both P (not (is_open c.state)) _ _ refl (
        if_both P (n == 0) _ _ refl
          (if_both P c.connected (record c { flows = c.flows ++ (n ∷ []) }) _ refl refl))

  add_permits-used_mem : (c : Consumer) (n : ℕ) → (add_permits o c n).used_mem ≡ c.used_mem
  unfolding add_permits flow_if_need
  add_permits-used_mem c n =
      let d = record c { permits = add32 c.permits n } in
      if_both (λ x. x.used_mem ≡ c.used_mem) (slt32 d.permits (flow_threshold o d)) d _ refl
        (internal_flow-used_mem (record c { permits = 0 }) d.permits)

  count_incoming-used_mem :
      (c : Consumer) (n : ℕ)
      → o.auto_receiver_queue_size ≡ true
      → (count_incoming o c n).used_mem ≡ add64 c.used_mem n
  unfolding count_incoming mark_scale_if_need
  count_incoming-used_mem c n auto = ground (arith, auto)

  pub receive_from-used_mem :
      (f : Frame) (i : ℕ) (items : List (Option Message)) (ms : List Message) (skipped bytes : ℕ)
      (c : Consumer) (used : ℕ)
      → o.auto_receiver_queue_size ≡ true
      → all_read items ≡ true
      → c.used_mem ≡ used % 2 ^ 64
      → (receive_from o f i items ms skipped bytes c).used_mem
        ≡ (used + totals bytes (kept o f i items)) % 2 ^ 64
  unfolding receive_from
  receive_from-used_mem f i [] ms skipped bytes c used auto whole u =
      let d = if ltb 0 skipped then add_permits o c skipped else c in
      let e : d.used_mem ≡ c.used_mem =
        if_both (λ x. x.used_mem ≡ c.used_mem) (ltb 0 skipped) _ c (add_permits-used_mem c skipped)
          refl in
      omega (arith, e)
  receive_from-used_mem f i (none ∷ items) ms skipped bytes c used auto whole u =
      absurd (ground arith)
  receive_from-used_mem f i (some m ∷ items) ms skipped bytes c used auto whole u =
      let id = frame_id o f i in
      let m' = record m { msg_id = id } in
      let b = bytes + size m in
      let P : List Message → Consumer → Type 0 =
        λ l d. d.used_mem ≡ (used + totals bytes l) % 2 ^ 64 in
      let past = receive_from-used_mem f (i + 1) items ms (skipped + 1) bytes c used auto whole u in
      let drop_it =
        receive_from-used_mem f (i + 1) items ms (skipped + 1) bytes
          (record c { acked = c.acked ++ (id ∷ []) }) used auto whole u in
      let keep =
        receive_from-used_mem f (i + 1) items (ms ++ (m' ∷ [])) skipped b (count_incoming o c b)
          (used + b) auto whole (omega (arith, u, count_incoming-used_mem c b auto)) in
      subst (λ l. P l (receive_from o f i (some m ∷ items) ms skipped bytes c))
        (sym (kept_nested o f i m items))
        (if_both_2 P (not (f.unacked i)) past (
          if_both_2 P (f.discarded i) drop_it
            (if_both_2 P (f.duplicate i) past (omega (arith, keep)))))

  expect_more-used_mem :
      (usage_low : Bool) (c : Consumer)
      → (expect_more_incoming_messages o usage_low c).used_mem ≡ c.used_mem
  unfolding expect_more_incoming_messages
  expect_more-used_mem usage_low c =
      let P : Consumer → Type 0 = λ d. d.used_mem ≡ c.used_mem in
      if_both P (o.auto_receiver_queue_size && c.scale_hint) _ c
        (if_both P _ _ (record c { scale_hint = false }) (add_permits-used_mem _ _) refl) refl

  pub after_dispatch-used_mem :
      (usage_low : Bool) (c : Consumer) (m : Message)
      → o.auto_receiver_queue_size ≡ true
      → (after_dispatch o usage_low c m).used_mem ≡ sub64 c.used_mem (size m % 2 ^ 64)
  unfolding after_dispatch
  after_dispatch-used_mem usage_low c m auto =
      let d = if ltb 0 o.receiver_queue_size then add_permits o c 1 else c in
      let e : d.used_mem ≡ c.used_mem =
        if_both (λ x. x.used_mem ≡ c.used_mem) (ltb 0 o.receiver_queue_size) _ c
          (add_permits-used_mem c 1) refl in
      let d' = record d {
        incoming_messages = sub32 d.incoming_messages 1;
        used_mem = sub64 d.used_mem (size m % 2 ^ 64);
      } in
      let s : after_dispatch o usage_low c m ≡ expect_more_incoming_messages o usage_low d' =
        ap (λ b. if b then expect_more_incoming_messages o usage_low d' else d) auto in
      ap (λ x. x.used_mem) s
      ∙ expect_more-used_mem usage_low d'
      ∙ ap (λ u. sub64 u (size m % 2 ^ 64)) e
