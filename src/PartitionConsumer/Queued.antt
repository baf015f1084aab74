-- ===== src/PartitionConsumer/Queued.antt =====
-- What each step does to the queues of pulsar-client-go/pulsar/consumer_partition.go.
use pr.Base.{
  Bool, List, Option, [], add32, ap, append-nil, append_assoc, ap₂, arith, false, if_both,
  if◌then◌else◌, ltb, none, not, refl, slt32, some, subst, sym, true, ℕ, ◌&&◌, ◌++◌, ◌+◌, ◌==◌, ◌∙◌,
  ◌∷◌, ◌≡◌,
}
use pr.Message.{Message, MessageId, size}
use pr.PartitionConsumer.{
  Consumer, ConsumerOptions, Frame, is_open, internal_flow, flow_threshold, flow_if_need,
  add_permits, discard_corrupted_message, frame_id, mark_scale_if_need, count_incoming,
  receive_from, Event, frame, next, give_out, after_dispatch, expect_more_incoming_messages,
}
use pr.PartitionConsumer.Permits.{all_read}

abbrev pub concat : List (List Message) → List Message
concat [] = []
concat (ms ∷ q) = ms ++ concat q

pub concat-append : (xs ys : List (List Message)) → concat (xs ++ ys) ≡ concat xs ++ concat ys
concat-append [] ys = refl
concat-append (x ∷ xs) ys =
    ap (λ t. x ++ t) (concat-append xs ys) ∙ sym (append_assoc x (concat xs) (concat ys))

abbrev pub select : (Message → Bool) → List Message → List Message
select f [] = []
select f (m ∷ ms) = if f m then m ∷ select f ms else select f ms

pub select-append :
    (f : Message → Bool) (xs ys : List Message) → select f (xs ++ ys) ≡ select f xs ++ select f ys
select-append f [] ys = refl
select-append f (x ∷ xs) ys = ground (arith, select-append f xs ys)

-- The messages of a frame that are to come to the application, from its i-th on.
abbrev pub kept : ConsumerOptions → Frame → ℕ → List (Option Message) → List Message
kept o f i [] = []
kept o f i (none ∷ items) = kept o f (i + 1) items
kept o f i (some m ∷ items) =
    let id = frame_id o f i in
    if f.unacked i && (not (f.discarded i) && not (f.duplicate i))
    then record m { msg_id = id } ∷ kept o f (i + 1) items
    else kept o f (i + 1) items

pub kept_nested :
    (o : ConsumerOptions) (f : Frame) (i : ℕ) (m : Message) (items : List (Option Message))
    → let id = frame_id o f i in
      let rest = kept o f (i + 1) items in
      kept o f i (some m ∷ items) ≡ (
        if not (f.unacked i)
        then rest
        else if f.discarded i
        then rest
        else if f.duplicate i
        then rest
        else record m { msg_id = id } ∷ rest)
kept_nested o f i m items = ground arith

-- What holds on both branches of two tests at once.
pub if_both_2 :
    {A B : Type 0} (P : A → B → Type 0) (b : Bool) {x y : A} {s t : B}
    → P x s
    → P y t
    → P (if b then x else y) (if b then s else t)
if_both_2 P true p q = p
if_both_2 P false p q = q

-- A corrupt frame gives none.
abbrev pub accepted : ConsumerOptions → Frame → List Message
accepted o f = if all_read f.items then kept o f 0 f.items else []

abbrev pub arrivals : ConsumerOptions → List Event → List Message
arrivals o [] = []
arrivals o (frame f ∷ es) = accepted o f ++ arrivals o es
arrivals o (next ∷ es) = arrivals o es
arrivals o (give_out usage_low ∷ es) = arrivals o es

abbrev pub waiting : Consumer → List Message
waiting c = c.messages ++ concat c.queue_ch

-- The queues and what came out of them are the same.
pub record IsSame (c d : Consumer) : Type 0 where
  pub messages : d.messages ≡ c.messages
  pub queue : d.queue_ch ≡ c.queue_ch
  pub given : d.dispatched ≡ c.dispatched
  pub dead : d.dead ≡ c.dead
  pub seeking : d.is_seeking ≡ c.is_seeking

IsSame-intro :
    {c d : Consumer}
    → d.messages ≡ c.messages
    → d.queue_ch ≡ c.queue_ch
    → d.dispatched ≡ c.dispatched
    → d.dead ≡ c.dead
    → d.is_seeking ≡ c.is_seeking
    → IsSame c d
IsSame-intro m q g d s = record { messages = m; queue = q; given = g; dead = d; seeking = s }

pub IsSame-refl : (c : Consumer) → IsSame c c
IsSame-refl c = IsSame-intro refl refl refl refl refl

pub IsSame-trans : {a b c : Consumer} → IsSame a b → IsSame b c → IsSame a c
IsSame-trans u v = record {
  messages = v.messages ∙ u.messages;
  queue = v.queue ∙ u.queue;
  given = v.given ∙ u.given;
  dead = v.dead ∙ u.dead;
  seeking = v.seeking ∙ u.seeking;
}

module _ (o : ConsumerOptions) where
  internal_flow-IsSame : (c : Consumer) (n : ℕ) → IsSame c (internal_flow c n)
  unfolding internal_flow
  internal_flow-IsSame c n = if_both (IsSame c) (not (is_open c.state)) _ _ (IsSame-refl c) (
      if_both (IsSame c) (n == 0) _ _ (IsSame-refl c) (
        if_both (IsSame c) c.connected _ _ (IsSame-intro refl refl refl refl refl) (IsSame-refl c)))

  add_permits-IsSame : (c : Consumer) (n : ℕ) → IsSame c (add_permits o c n)
  unfolding add_permits flow_if_need
  add_permits-IsSame c n =
      let d = record c { permits = add32 c.permits n } in
      let u = internal_flow-IsSame (record c { permits = 0 }) d.permits in
      if_both (IsSame c) (slt32 d.permits (flow_threshold o d)) _ _
        (IsSame-intro refl refl refl refl refl)
        (record {
          messages = u.messages;
          queue = u.queue;
          given = u.given;
          dead = u.dead;
          seeking = u.seeking;
        })

  discard_corrupted_message-IsSame :
      (c : Consumer) (id : MessageId) → IsSame c (discard_corrupted_message o c id)
  unfolding discard_corrupted_message
  discard_corrupted_message-IsSame c id =
      if_both (IsSame c) (is_open c.state) _ _
        (IsSame-trans (IsSame-intro refl refl refl refl refl)
          (add_permits-IsSame (record c { acked = c.acked ++ (id ∷ []) }) 1))
        (IsSame-refl c)

  count_incoming-IsSame : (c : Consumer) (n : ℕ) → IsSame c (count_incoming o c n)
  unfolding count_incoming mark_scale_if_need
  count_incoming-IsSame c n =
      if_both (IsSame c) o.auto_receiver_queue_size _ _ (IsSame-intro refl refl refl refl refl)
        (IsSame-refl c)

  expect_more-IsSame :
      (usage_low : Bool) (c : Consumer) → IsSame c (expect_more_incoming_messages o usage_low c)
  unfolding expect_more_incoming_messages
  expect_more-IsSame usage_low c =
      if_both (IsSame c) (o.auto_receiver_queue_size && c.scale_hint) _ _
        (if_both (IsSame c) _ _ (record c { scale_hint = false })
          (IsSame-trans (IsSame-intro refl refl refl refl refl) (add_permits-IsSame _ _))
          (IsSame-intro refl refl refl refl refl))
        (IsSame-refl c)

  pub after_dispatch-IsSame :
      (usage_low : Bool) (c : Consumer) (m : Message) → IsSame c (after_dispatch o usage_low c m)
  unfolding after_dispatch
  after_dispatch-IsSame usage_low c m =
      let u : IsSame c (if ltb 0 o.receiver_queue_size then add_permits o c 1 else c) =
        if_both (IsSame c) (ltb 0 o.receiver_queue_size) _ _ (add_permits-IsSame c 1)
          (IsSame-refl c) in
      if_both (IsSame c) o.auto_receiver_queue_size _ _
        (IsSame-trans u
          (IsSame-trans (IsSame-intro refl refl refl refl refl) (expect_more-IsSame usage_low _)))
        u

  -- What a frame adds to the queue.
  pub record IsReceived (added : List (List Message)) (c d : Consumer) : Type 0 where
    pub messages : d.messages ≡ c.messages
    pub queue : d.queue_ch ≡ c.queue_ch ++ added
    pub given : d.dispatched ≡ c.dispatched
    pub dead : d.dead ≡ c.dead
    pub seeking : d.is_seeking ≡ c.is_seeking

  pub receive_from-IsReceived :
      (f : Frame) (i : ℕ) (items : List (Option Message)) (ms : List Message) (skipped bytes : ℕ)
      (c d : Consumer)
      → IsSame c d
      → IsReceived
          (if all_read items then (ms ++ kept o f i items) ∷ [] else [])
          c
          (receive_from o f i items ms skipped bytes d)
  unfolding receive_from
  receive_from-IsReceived f i [] ms skipped bytes c d u =
      let d' = if ltb 0 skipped then add_permits o d skipped else d in
      let v : IsSame c d' =
        if_both (IsSame c) (ltb 0 skipped) _ _ (IsSame-trans u (add_permits-IsSame d skipped)) u in
      record {
        messages = v.messages;
        queue = ap₂ (λ q l. q ++ (l ∷ [])) v.queue (sym (append-nil ms));
        given = v.given;
        dead = v.dead;
        seeking = v.seeking;
      }
  receive_from-IsReceived f i (none ∷ items) ms skipped bytes c d u =
      let v = IsSame-trans u (discard_corrupted_message-IsSame d (frame_id o f i)) in
      record {
        messages = v.messages;
        queue = v.queue ∙ sym (append-nil c.queue_ch);
        given = v.given;
        dead = v.dead;
        seeking = v.seeking;
      }
  receive_from-IsReceived f i (some m ∷ items) ms skipped bytes c d u =
      let id = frame_id o f i in
      let m' = record m { msg_id = id } in
      let rest = kept o f (i + 1) items in
      let whole = all_read items in
      let P : List Message → Consumer → Type 0 =
        λ l. IsReceived (if whole then (ms ++ l) ∷ [] else []) c in
      let past : (e : Consumer)
          → IsSame c e
          → P rest (receive_from o f (i + 1) items ms (skipped + 1) bytes e) =
        λ e w. receive_from-IsReceived f (i + 1) items ms (skipped + 1) bytes c e w in
      let keep =
        receive_from-IsReceived f (i + 1) items (ms ++ (m' ∷ [])) skipped (bytes + size m) c
          (count_incoming o d (bytes + size m))
          (IsSame-trans u (count_incoming-IsSame d (bytes + size m))) in
      let assoc = append_assoc ms (m' ∷ []) rest in
      let drop_it =
        past (record d { acked = d.acked ++ (id ∷ []) })
          (IsSame-trans u (IsSame-intro refl refl refl refl refl)) in
      subst (λ l. P l (receive_from o f i (some m ∷ items) ms skipped bytes d))
        (sym (kept_nested o f i m items))
        (if_both_2 P (not (f.unacked i)) (past d u) (
          if_both_2 P (f.discarded i) drop_it (
            if_both_2 P (f.duplicate i) (past d u) (
              subst
                (λ l. IsReceived (if whole then l ∷ [] else []) c (
                  receive_from o f (i + 1) items (ms ++ (m' ∷ [])) skipped (bytes + size m)
                    (count_incoming o d (bytes + size m))))
                assoc keep))))
