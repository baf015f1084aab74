-- ===== src/PartitionConsumer/Order.antt =====
-- The order of the messages in pulsar-client-go/pulsar/consumer_partition.go.
use pr.Base.{
  Bool, List, [], ap, append-nil, append_assoc, ap₂, arith, if_both, if◌then◌else◌, length, map,
  not, refl, subst, sym, ◌++◌, ◌+◌, ◌∙◌, ◌∷◌, ◌≡◌,
}
use pr.Message.{Message}
use pr.Message.DeadLetter.{dead_letter}
use pr.PartitionConsumer.{
  Consumer, ConsumerOptions, message_received, take_batch, Event, frame, next, give_out, step, run,
  after_dispatch, dispatch,
}
use pr.PartitionConsumer.Permits.{all_read}
use pr.PartitionConsumer.Queued.{
  concat, select, kept, accepted, arrivals, waiting, IsSame-refl, after_dispatch-IsSame,
  receive_from-IsReceived, concat-append,
}

-- What was given out and what waits is what arrived, for the application and for the dead letters.
pub record IsInOrder (o : ConsumerOptions) (arrived : List Message) (c : Consumer) : Type 0 where
  pub given :
      c.dispatched ++ map (λ m. m) (select (λ m. not (o.to_dlq m)) (waiting c))
      ≡ map (λ m. m) (select (λ m. not (o.to_dlq m)) arrived)
  pub dead :
      c.dead ++ map (dead_letter o.decimal) (select o.to_dlq (waiting c))
      ≡ map (dead_letter o.decimal) (select o.to_dlq arrived)

-- What a step adds to the messages that wait.
record IsQueued (added : List Message) (c d : Consumer) : Type 0 where
  waits : waiting d ≡ waiting c ++ added
  given : d.dispatched ≡ c.dispatched
  dead : d.dead ≡ c.dead

module _ (g : Message → Message) (f : Message → Bool) where
  abbrev out_for : List Message → List Message
  out_for ms = map g (select f ms)

  out_for-append : (xs ys : List Message) → out_for (xs ++ ys) ≡ out_for xs ++ out_for ys
  out_for-append [] ys = refl
  out_for-append (x ∷ xs) ys = ground (arith, out_for-append xs ys)

  add_arrived :
      (out out' w w' before added : List Message)
      → out' ≡ out
      → w' ≡ w ++ added
      → out ++ out_for w ≡ out_for before
      → out' ++ out_for w' ≡ out_for (before ++ added)
  add_arrived out out' w w' before added eo ew v =
      ap₂ ◌++◌ eo (ap out_for ew ∙ out_for-append w added)
      ∙ sym (append_assoc out (out_for w) (out_for added))
      ∙ ap (λ t. t ++ out_for added) v
      ∙ sym (out_for-append before added)

  take_out :
      (out out' : List Message) (m : Message) (w w' before : List Message)
      → out' ≡ (if f m then out ++ (g m ∷ []) else out)
      → w ≡ m ∷ w'
      → out ++ out_for w ≡ before
      → out' ++ out_for w' ≡ before
  take_out out out' m w w' before eo ew v =
      let e : (if f m then out ++ (g m ∷ []) else out) ++ out_for w' ≡ out ++ out_for (m ∷ w') =
        ground (arith, append_assoc out (g m ∷ []) (out_for w')) in
      ap (λ t. t ++ out_for w') eo ∙ e ∙ sym (ap (λ t. out ++ out_for t) ew) ∙ v

map-same : (ms : List Message) → map (λ m. m) ms ≡ ms
map-same [] = refl
map-same (m ∷ ms) = ap (λ t. m ∷ t) (map-same ms)

arrivals-cons :
    (o : ConsumerOptions) (e : Event) (es : List Event)
    → arrivals o (e ∷ []) ++ arrivals o es ≡ arrivals o (e ∷ es)
arrivals-cons o (frame f) es = ap (λ l. l ++ arrivals o es) (append-nil (accepted o f))
arrivals-cons o next es = refl
arrivals-cons o (give_out usage_low) es = refl

module _ (o : ConsumerOptions) where
  arrive :
      (before added : List Message) (c d : Consumer)
      → IsQueued added c d
      → IsInOrder o before c
      → IsInOrder o (before ++ added) d
  arrive before added c d u v = record {
    given =
        add_arrived (λ m. m) _ c.dispatched d.dispatched _ _ before added u.given u.waits v.given;
    dead =
        add_arrived (dead_letter o.decimal) _ c.dead d.dead _ _ before added u.dead u.waits v.dead;
  }

  take_one :
      (ms : List Message) (q : List (List Message)) (c : Consumer)
      → waiting c ≡ ms ++ concat q
      → IsQueued [] c (elim ms [
        | [] ↦ elim q [ [] ↦ c | b ∷ rest ↦ record c { messages = b; queue_ch = rest } ]
        | m ∷ rest ↦ c
      ])
  take_one [] [] c e = record { waits = sym (append-nil (waiting c)); given = refl; dead = refl }
  take_one [] (b ∷ rest) c e = record {
    waits = sym (append-nil (waiting c) ∙ e);
    given = refl;
    dead = refl;
  }
  take_one (m ∷ rest) q c e = record {
    waits = sym (append-nil (waiting c));
    given = refl;
    dead = refl;
  }

  out_of :
      (before : List Message) (m : Message) (c d : Consumer)
      → waiting c ≡ m ∷ waiting d
      → d.dispatched ≡ (if not (o.to_dlq m) then c.dispatched ++ (m ∷ []) else c.dispatched)
      → d.dead ≡ (if o.to_dlq m then c.dead ++ (dead_letter o.decimal m ∷ []) else c.dead)
      → IsInOrder o before c
      → IsInOrder o before d
  out_of before m c d ew eg ed v = record {
    given = take_out (λ m. m) _ c.dispatched d.dispatched m _ _ _ eg ew v.given;
    dead = take_out (dead_letter o.decimal) _ c.dead d.dead m _ _ _ ed ew v.dead;
  }

  dispatch_one :
      (before : List Message) (usage_low : Bool) (ms : List Message) (c : Consumer)
      → waiting c ≡ ms ++ concat c.queue_ch
      → IsInOrder o before c
      → IsInOrder o before (elim ms [
        | [] ↦ c
        | m ∷ rest ↦
            if c.is_seeking
            then c
            else after_dispatch o usage_low
                (if o.to_dlq m
                  then record c { messages = rest; dead = c.dead ++ (dead_letter o.decimal m ∷ []) }
                  else record c { messages = rest; dispatched = c.dispatched ++ (m ∷ []) })
                m
      ])
  dispatch_one before usage_low [] c e v = v
  dispatch_one before usage_low (m ∷ rest) c e v =
      let d =
        if o.to_dlq m
        then record c { messages = rest; dead = c.dead ++ (dead_letter o.decimal m ∷ []) }
        else record c { messages = rest; dispatched = c.dispatched ++ (m ∷ []) } in
      let s = after_dispatch-IsSame o usage_low d m in
      let dm : d.messages ≡ rest = ground arith in
      let dq : d.queue_ch ≡ c.queue_ch = ground arith in
      let dg : d.dispatched
          ≡ (if not (o.to_dlq m) then c.dispatched ++ (m ∷ []) else c.dispatched) =
        ground arith in
      let dd : d.dead ≡ (if o.to_dlq m then c.dead ++ (dead_letter o.decimal m ∷ []) else c.dead) =
        ground arith in
      if_both (IsInOrder o before) c.is_seeking _ _ v (
        out_of before m c (after_dispatch o usage_low d m)
          (e ∙ ap (λ t. m ∷ t) (sym (ap₂ ◌++◌ (s.messages ∙ dm) (ap concat (s.queue ∙ dq)))))
          (s.given ∙ dg) (s.dead ∙ dd) v)

  step-IsInOrder :
      (before : List Message) (c : Consumer) (e : Event)
      → IsInOrder o before c
      → IsInOrder o (before ++ arrivals o (e ∷ [])) (step o c e)
  unfolding step message_received take_batch dispatch
  step-IsInOrder before c (frame f) v =
      let c' = record c { taken = c.taken + length f.items } in
      let u = receive_from-IsReceived o f 0 f.items [] 0 0 c' c' (IsSame-refl c') in
      let d = message_received o c f in
      let flat : concat (if all_read f.items then kept o f 0 f.items ∷ [] else []) ≡ accepted o f =
        ground (arith, append-nil (kept o f 0 f.items)) in
      let waits : waiting d ≡ waiting c ++ accepted o f =
        ap₂ ◌++◌ u.messages
          (ap concat u.queue ∙ concat-append c.queue_ch _ ∙ ap (λ l. concat c.queue_ch ++ l) flat)
        ∙ sym (append_assoc c.messages (concat c.queue_ch) (accepted o f)) in
      subst (λ l. IsInOrder o (before ++ l) d) (sym (append-nil (accepted o f)))
        (arrive before (accepted o f) c d (record { waits = waits; given = u.given; dead = u.dead })
          v)
  step-IsInOrder before c next v =
      arrive before [] c (take_batch c) (take_one c.messages c.queue_ch c refl) v
  step-IsInOrder before c (give_out usage_low) v =
      subst (λ l. IsInOrder o l (dispatch o usage_low c)) (sym (append-nil before))
        (dispatch_one before usage_low c.messages c refl v)

  run-IsInOrder :
      (before : List Message) (c : Consumer) (es : List Event)
      → IsInOrder o before c
      → IsInOrder o (before ++ arrivals o es) (run o c es)
  unfolding run
  run-IsInOrder before c [] v = subst (λ l. IsInOrder o l c) (sym (append-nil before)) v
  run-IsInOrder before c (e ∷ es) v =
      subst (λ l. IsInOrder o l (run o c (e ∷ es)))
        (append_assoc before (arrivals o (e ∷ [])) (arrivals o es)
          ∙ ap (λ l. before ++ l) (arrivals-cons o e es))
        (run-IsInOrder (before ++ arrivals o (e ∷ [])) (step o c e) es
          (step-IsInOrder before c e v))

pub run-arrivals :
    (o : ConsumerOptions) (c : Consumer) (es : List Event)
    → waiting c ≡ []
    → c.dispatched ≡ []
    → c.dead ≡ []
    → let c' = run o c es in
      (c'.dispatched ++ select (λ m. not (o.to_dlq m)) (waiting c')
        ≡ select (λ m. not (o.to_dlq m)) (arrivals o es))
      × (c'.dead ++ map (dead_letter o.decimal) (select o.to_dlq (waiting c'))
          ≡ map (dead_letter o.decimal) (select o.to_dlq (arrivals o es)))
run-arrivals o c es w g d =
    let f : Message → Bool = λ m. not (o.to_dlq m) in
    let c' = run o c es in
    let start : IsInOrder o [] c = record {
      given = ap₂ ◌++◌ g (ap (λ l. map (λ m. m) (select f l)) w);
      dead = ap₂ ◌++◌ d (ap (λ l. map (dead_letter o.decimal) (select o.to_dlq l)) w);
    } in
    let v = run-IsInOrder o [] c es start in
    (
      ap (λ l. c'.dispatched ++ l) (sym (map-same (select f (waiting c'))))
          ∙ v.given
          ∙ map-same (select f (arrivals o es)),
      v.dead,
    )
