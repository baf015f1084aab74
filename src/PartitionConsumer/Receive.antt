-- ===== src/PartitionConsumer/Receive.antt =====
-- The permits of a frame that comes, in pulsar-client-go/pulsar/consumer_partition.go.
use pr.Base.{
  List, Option, [], ap, arith, if_both, if◌then◌else◌, length, length-append, ltb, none, not, refl,
  some, subst, suc, sym, true, zero, ℕ, ◌++◌, ◌+◌, ◌-◌, ◌^◌, ◌∷◌, ◌≡◌, ◌≤◌,
}
use pr.Message.{Message, MessageId, size}
use pr.PartitionConsumer.{
  Consumer, ConsumerOptions, Frame, is_open, add_permits, discard_corrupted_message, frame_id,
  count_incoming, receive_from, message_received,
}
use pr.PartitionConsumer.Permits.{
  all_read, lost_by, total_length-append, IsFixed, IsFlowing, recount, add_permits-IsFlowing,
}

module _ (o : ConsumerOptions) (fix : IsFixed o) where
  queue_batch :
      (lost skipped : ℕ) (ms : List Message) (c : Consumer)
      → skipped ≤ 2 ^ 30
      → IsFlowing o lost (length ms + skipped) c
      → IsFlowing o lost (length ms) (if ltb 0 skipped then add_permits o c skipped else c)
  queue_batch lost zero ms c small v =
      recount lost lost (length ms + 0) (length ms) c c refl refl refl refl (omega arith) v
  queue_batch lost (suc skipped) ms c small v =
      let e : ltb 0 (suc skipped) ≡ true = ground arith in
      rw e (
        add_permits-IsFlowing o fix lost (length ms) (suc skipped) c small (
          recount lost lost (length ms + suc skipped) (suc skipped + length ms) c c refl refl refl
            refl (omega arith) v))

  -- Of the permits in hand, one comes back.
  discard-IsFlowing :
      (lost k : ℕ) (c : Consumer) (id : MessageId)
      → IsFlowing o lost (suc k) c
      → IsFlowing o (lost + k) 0 (discard_corrupted_message o c id)
  unfolding discard_corrupted_message
  discard-IsFlowing lost k c id v =
      let c' = record c { acked = c.acked ++ (id ∷ []) } in
      let e : discard_corrupted_message o c id ≡ add_permits o c' 1 =
        ap (λ s. if is_open s then add_permits o c' 1 else c) v.live in
      subst (IsFlowing o (lost + k) 0) (sym e) (
        add_permits-IsFlowing o fix (lost + k) 0 1 c' (omega arith)
          (recount lost (lost + k) (suc k) (1 + 0) c c' refl refl refl refl (omega arith) v))

  -- The rest of a frame, of which the first `i` items are past.
  receive_from-IsFlowing :
      (lost : ℕ) (f : Frame) (i : ℕ) (items : List (Option Message)) (ms : List Message)
      (skipped bytes : ℕ) (c : Consumer)
      → skipped + length items ≤ 2 ^ 30
      → IsFlowing o lost (length ms + skipped + length items) c
      → IsFlowing o
          (lost + (if all_read items then 0 else length ms + skipped + length items - 1))
          0
          (receive_from o f i items ms skipped bytes c)
  unfolding receive_from
  receive_from-IsFlowing lost f i [] ms skipped bytes c small v =
      let d = if ltb 0 skipped then add_permits o c skipped else c in
      recount lost (lost + 0) (length ms) 0 d (record d { queue_ch = d.queue_ch ++ (ms ∷ []) }) refl
        refl refl refl (omega (arith, total_length-append d.queue_ch (ms ∷ [])))
        (queue_batch lost skipped ms c (omega arith) (
          recount lost lost (length ms + skipped + 0) (length ms + skipped) c c refl refl refl refl
            (omega arith) v))
  receive_from-IsFlowing lost f i (none ∷ items) ms skipped bytes c small v =
      let k = length ms + skipped + suc (length items) - 1 in
      let e : length ms + skipped + suc (length items) ≡ suc k = omega arith in
      discard-IsFlowing lost k c (frame_id o f i) (subst (λ n. IsFlowing o lost n c) e v)
  receive_from-IsFlowing lost f i (some m ∷ items) ms skipped bytes c small v =
      let id = frame_id o f i in
      let n = length items in
      let P : ℕ → Consumer → Type 0 =
        λ k d. IsFlowing o (lost + (if all_read items then 0 else k - 1)) 0 d in
      let ms' = ms ++ (record m { msg_id = id } ∷ []) in
      let skip_one : length ms + (skipped + 1) + n ≡ length ms + skipped + suc n = omega arith in
      let keep_one : length ms' + skipped + n ≡ length ms + skipped + suc n =
        omega (arith, length-append ms (record m { msg_id = id } ∷ [])) in
      let past : (d : Consumer)
          → IsFlowing o lost (length ms + skipped + suc n) d
          → P (length ms + skipped + suc n)
              (receive_from o f (i + 1) items ms (skipped + 1) bytes d) =
        λ d u.
          subst (λ k. P k (receive_from o f (i + 1) items ms (skipped + 1) bytes d)) skip_one
            (receive_from-IsFlowing lost f (i + 1) items ms (skipped + 1) bytes d (omega arith) (
              recount lost lost _ (length ms + (skipped + 1) + n) d d refl refl refl refl
                (omega arith) u)) in
      let c' = count_incoming o c (bytes + size m) in
      let same : c' ≡ c = unfold count_incoming in rw fix.fixed refl in
      let kept : P (length ms + skipped + suc n)
          (receive_from o f (i + 1) items ms' skipped (bytes + size m) c') =
        rw same (
          subst (λ k. P k (receive_from o f (i + 1) items ms' skipped (bytes + size m) c)) keep_one
            (receive_from-IsFlowing lost f (i + 1) items ms' skipped (bytes + size m) c
              (omega arith)
              (recount lost lost _ (length ms' + skipped + n) c c refl refl refl refl
                (omega (arith, keep_one)) v))) in
      let drop_it =
        past (record c { acked = c.acked ++ (id ∷ []) })
          (recount lost lost _ _ c _ refl refl refl refl refl v) in
      if_both (P _) (not (f.unacked i)) _ _ (past c v) (
        if_both (P _) (f.discarded i) _ _ drop_it
          (if_both (P _) (f.duplicate i) _ _ (past c v) kept))

  pub message_received-IsFlowing :
      (lost : ℕ) (f : Frame) (c : Consumer)
      → length f.items ≤ 2 ^ 30
      → IsFlowing o lost 0 c
      → IsFlowing o (lost + lost_by f) 0 (message_received o c f)
  unfolding message_received
  message_received-IsFlowing lost f c small v =
      let c' = record c { taken = c.taken + length f.items } in
      let n : 0 + 0 + length f.items ≡ length f.items = omega arith in
      subst
        (λ k.
          IsFlowing o (lost + (if all_read f.items then 0 else k - 1)) 0
            (receive_from o f 0 f.items [] 0 0 c'))
        n
        (receive_from-IsFlowing lost f 0 f.items [] 0 0 c' (omega arith) (record {
          live = v.live;
          online = v.online;
          below = v.below;
          total = omega (arith, v.total);
        }))
