-- ===== src/Batch/KeyBased/Keys.antt =====
-- Which batch a message comes into, in
-- pulsar-client-go/pulsar/internal/key_based_batch_builder.go.
use pr.Base.{
  Bool-cases, List, Option, Option-cases, [], ap, append-nil, ap₂, arith, false, if◌then◌else◌, inl,
  inr, none, refl, some, sym, true, ℕ, ◌++◌, ◌∙◌, ◌∷◌, ◌≡◌,
}
use pr.Buffer.{Bytes}
use pr.Batch.{
  BatchContainer, AddRequest, same_bytes, started, start_batch, add_single_message_to_batch,
}
use pr.Batch.KeyBased.{
  Containers, val, put, KeyBasedBatchContainer, KeyedRequest, or_new, accepts, get_message_key, add,
}

same_bytes_refl : (k : Bytes) → same_bytes k k ≡ true
same_bytes_refl [] = refl
same_bytes_refl (x ∷ k) = ground (arith, same_bytes_refl k)

same_bytes-eq : (j k : Bytes) → same_bytes j k ≡ true → j ≡ k
same_bytes-eq [] [] e = refl
same_bytes-eq [] (y ∷ k) e = absurd (ground arith)
same_bytes-eq (x ∷ j) [] e = absurd (ground arith)
same_bytes-eq (x ∷ j) (y ∷ k) e =
    let r : same_bytes j k ≡ true = ground arith in
    let h : x ≡ y = ground arith in ap₂ ◌∷◌ h (same_bytes-eq j k r)

val-put :
    (key q : Bytes) (c : BatchContainer) (cs : Containers)
    → val q (put key c cs) ≡ (if same_bytes key q then some c else val q cs)
val-put key q c [] = refl
val-put key q c ((k, d) ∷ cs) = elim (Bool-cases (same_bytes k key)) [
  | inl e ↦ let h = ap (λ x. same_bytes x q) (same_bytes-eq k key e) in ground (arith, e, h)
  | inr e ↦ elim (Bool-cases (same_bytes k q)) [
    | inl f ↦
        let h = sym (ap (same_bytes k) (same_bytes-eq k q f)) in
        elim (Bool-cases (same_bytes key q)) [
          | inl g ↦
              let same : k ≡ key = same_bytes-eq k q f ∙ sym (same_bytes-eq key q g) in
              absurd (ground (arith, e, ap (same_bytes k) same, same_bytes_refl k))
          | inr g ↦ ground (arith, e, f, g)
        ]
    | inr f ↦ ground (arith, e, f, val-put key q c cs)
  ]
]

abbrev pub callbacks_of : Option BatchContainer → List ℕ
callbacks_of none = []
callbacks_of (some c) = c.callbacks

-- Adding to a container of one key adds the callback, if it says so.
add_callbacks :
    (c : BatchContainer) (g : ℕ) (a : AddRequest) (c' : BatchContainer) (g' : ℕ)
    → pr.Batch.add c g a ≡ some (c', g', true)
    → c'.callbacks ≡ c.callbacks ++ (a.callback ∷ [])
unfolding pr.Batch.add start_batch
add_callbacks c g a c' g' e =
    let s = started c g a in
    let keeps : s.0.callbacks ≡ c.callbacks = ground arith in
    elim (Bool-cases (pr.Batch.accepts c a)) [
      | inr n ↦ absurd (ground (arith, n, e))
      | inl y ↦
          elim (Option-cases
            (add_single_message_to_batch s.0.buffer a.metadata.encoded a.payload)) [
              | inl n ↦ absurd (ground (arith, y, n, e))
              | inr (b, h) ↦
                  let first : s.0.callbacks ++ (a.callback ∷ []) ≡ c'.callbacks =
                    ground (arith, y, h, e) in
                  sym first ∙ ap (λ l. l ++ (a.callback ∷ [])) keeps
            ]
    ]

callbacks-or_new :
    (base : BatchContainer) (c : Option BatchContainer) → (or_new base c).callbacks ≡ callbacks_of c
callbacks-or_new base none = refl
callbacks-or_new base (some c) = refl

in_batch :
    (base : BatchContainer) (key q : Bytes) (part' : BatchContainer) (cs : Containers)
    (callback : ℕ)
    → part'.callbacks ≡ (or_new base (val key cs)).callbacks ++ (callback ∷ [])
    → callbacks_of (if same_bytes key q then some part' else val q cs)
      ≡ callbacks_of (val q cs) ++ (if same_bytes key q then callback ∷ [] else [])
in_batch base key q part' cs callback one = elim (Bool-cases (same_bytes key q)) [
  | inr n ↦ rw n (sym (append-nil (callbacks_of (val q cs))))
  | inl y ↦
      let same = ap (λ x. callbacks_of (val x cs)) (same_bytes-eq key q y) in
      rw y (one ∙ ap (λ l. l ++ (callback ∷ [])) (callbacks-or_new base (val key cs) ∙ same))
]

-- When Add of the key-based container says that it took a message, the message's callback stands
-- behind the others, and in the batch of its key alone: each other key's batch has the callbacks
-- that it had.
pub add-callbacks_of :
    (encode : Bytes → Bytes) (kb : KeyBasedBatchContainer) (g : ℕ) (k : KeyedRequest)
    (kb' : KeyBasedBatchContainer) (g' : ℕ) (q : Bytes)
    → add encode kb g k ≡ some (kb', g', true)
    → (kb'.base.callbacks ≡ kb.base.callbacks ++ (k.request.callback ∷ []))
      × (callbacks_of (val q kb'.batches)
          ≡ callbacks_of (val q kb.batches)
            ++ (if same_bytes (get_message_key encode k) q then k.request.callback ∷ [] else []))
unfolding add
add-callbacks_of encode kb g k kb' g' q e =
    let key = get_message_key encode k in
    let part = or_new kb.base (val key kb.batches) in
    elim (Bool-cases (accepts kb k.request)) [
      | inr n ↦ absurd (ground (arith, n, e))
      | inl y ↦ elim (Option-cases (pr.Batch.add part g k.request)) [
        | inl n ↦ absurd (ground (arith, y, n, e))
        | inr ((part', h', false), n) ↦ absurd (ground (arith, y, n, e))
        | inr ((part', h', true), n) ↦
            elim (Option-cases (
              add_single_message_to_batch kb.base.buffer k.request.metadata.encoded
                k.request.payload)) [
                  | inl m ↦ absurd (ground (arith, y, n, m, e))
                  | inr (b, m) ↦
                      let batches : put key part' kb.batches ≡ kb'.batches =
                        ground (arith, y, n, m, e) in
                      let all : kb.base.callbacks ++ (k.request.callback ∷ [])
                          ≡ kb'.base.callbacks =
                        ground (arith, y, n, m, e) in
                      let one = add_callbacks part g k.request part' h' n in
                      (
                        sym all,
                        ap (λ x. callbacks_of (val q x)) (sym batches)
                            ∙ ap callbacks_of (val-put key q part' kb.batches)
                            ∙ in_batch kb.base key q part' kb.batches k.request.callback one,
                      )
                ]
      ]
    ]
