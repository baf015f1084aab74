-- ===== src/Queue/Refine.antt =====
-- A valid ring of pulsar-client-go/pulsar/internal/blocking_queue.go behaves as a bounded list.
use pr.Base.{
  List, Option, [], ap, ap₂, arith, dec_lt, get_or, if◌then◌else◌, leb, length, length-set, none,
  refl, set, suc, sym, zero, ℕ, ◌%◌, ◌++◌, ◌+◌, ◌-◌, ◌<◌, ◌==◌, ◌∙◌, ◌∷◌, ◌≡◌, ◌≢◌, ◌≤◌,
}
use native.Mathlib.Numerals.{add-one}
use native.Mathlib.Nat.{mod-eq_of_lt, mod-eq-sub-mod}
use pr.Queue.{BlockingQueue, dequeue, head_item, peek_last, read_from, readable_slice}
use pr.Queue.Slots.{slot, next, get_or-set_self, next-lt, read_from-suc, read_from-set}

pub record IsValid {A : Type 0} (q : BlockingQueue A) : Type 0 where
  pub slots : length q.items ≡ q.max_size
  pub head_lt : q.head_idx < q.max_size
  pub size_le : q.size ≤ q.max_size
  pub tail_at : q.tail_idx ≡ slot q.max_size q.head_idx q.size

-- `(headIdx + size - 1) % maxSize` is the last slot that is read.
slot-mod : (m i n : ℕ) → i < m → n ≤ m → n ≢ 0 → slot m i (n - 1) ≡ (i + n - 1) % m
slot-mod m i n h l z = elim (dec_lt (i + n - 1) m) [
  | yes p ↦ ground (arith, mod-eq_of_lt {n = i + n - 1} {m = m} p)
  | no p ↦ ground (
    arith,
    mod-eq-sub-mod {n = i + n - 1} {m = m} (omega arith),
    mod-eq_of_lt {n = i + n - 1 - m} {m = m} (omega arith),
  )
]

module _ {A : Type 0} where
  length-read_from : (items : List (Option A)) (m n i : ℕ) → length (read_from items m n i) ≡ n
  unfolding read_from
  length-read_from items m zero i = refl
  length-read_from items m (suc n) i = ap suc (length-read_from items m n (next m i))

  pub length-readable_slice : (q : BlockingQueue A) → length (readable_slice q) ≡ q.size
  unfolding readable_slice
  length-readable_slice q = length-read_from q.items q.max_size q.size q.head_idx

  write_at_end :
      (items : List (Option A)) (m n i t : ℕ) (x : Option A)
      → length items ≡ m
      → i < m
      → n < m
      → t ≡ slot m i n
      → read_from (set items t x) m (n + 1) i ≡ read_from items m n i ++ x ∷ []
  write_at_end items m n i t x e h l a =
      ap (λ k. read_from (set items t x) m k i) (add-one n)
      ∙ read_from-suc m (set items t x) n i h l
      ∙ ap₂ (λ r y. r ++ y ∷ [])
          (ap (λ s. read_from (set items s x) m n i) a
            ∙ read_from-set m items n n i x h (omega arith) l)
          (ap (λ s. get_or (set items t x) s none) (sym a)
            ∙ get_or-set_self items t x none (ground arith))

  clear_at_start :
      (items : List (Option A)) (m n i : ℕ)
      → i < m
      → n < m
      → read_from (set items i none) m n (next m i) ≡ read_from items m n (next m i)
  clear_at_start items m n i h l =
      let e : i ≡ slot m (next m i) (m - 1) = ground arith in
      ap (λ s. read_from (set items s none) m n (next m i)) e
      ∙ read_from-set m items n (m - 1) (next m i) none (next-lt m i h) (omega arith) (omega arith)

  drop_first :
      (items : List (Option A)) (m n i : ℕ)
      → i < m
      → n ≤ m
      → n ≢ 0
      → read_from items m n i
        ≡ get_or items i none ∷ read_from (set items i none) m (n - 1) (next m i)
  unfolding read_from
  drop_first items m zero i h l z = absurd (z refl)
  drop_first items m (suc n) i h l z =
      let e : n ≡ suc n - 1 = omega arith in
      ap (λ r. get_or items i none ∷ r)
        (sym (clear_at_start items m n i h (omega arith))
          ∙ ap (λ k. read_from (set items i none) m k (next m i)) e)

  -- What `PutUnsafe` leaves when there is room.
  abbrev pub put_result : BlockingQueue A → Option A → BlockingQueue A
  put_result q x = record q {
    items = set q.items q.tail_idx x;
    size = q.size + 1;
    tail_idx = if leb q.max_size (q.tail_idx + 1) then 0 else q.tail_idx + 1;
  }

  pub put_result-IsValid :
      (q : BlockingQueue A) (x : Option A)
      → IsValid q
      → q.size ≢ q.max_size
      → IsValid (put_result q x)
  put_result-IsValid q x v n = ground (arith, length-set q.items q.tail_idx x)

  pub readable_slice-put :
      (q : BlockingQueue A) (x : Option A)
      → IsValid q
      → q.size ≢ q.max_size
      → readable_slice (put_result q x) ≡ readable_slice q ++ x ∷ []
  unfolding readable_slice
  readable_slice-put q x v n =
      write_at_end q.items q.max_size q.size q.head_idx q.tail_idx x v.slots v.head_lt (omega arith)
        v.tail_at

  -- Taking the oldest item splits the readable items.
  pub dequeue-IsValid : (q : BlockingQueue A) → IsValid q → q.size ≢ 0 → IsValid (dequeue q).0
  unfolding dequeue
  dequeue-IsValid q v n = ground (arith, length-set q.items q.head_idx none)

  pub readable_slice-dequeue :
      (q : BlockingQueue A)
      → IsValid q
      → q.size ≢ 0
      → readable_slice q ≡ head_item q ∷ readable_slice (dequeue q).0
  unfolding readable_slice dequeue
  readable_slice-dequeue q v n =
      drop_first q.items q.max_size q.size q.head_idx v.head_lt v.size_le n
      ∙ ap
          (λ k.
            head_item q
            ∷ read_from (set q.items q.head_idx none) q.max_size (q.size - 1)
                (if q.head_idx + 1 == k then 0 else q.head_idx + 1))
          (sym v.slots)

  pub readable_slice-last :
      (q : BlockingQueue A)
      → IsValid q
      → q.size ≢ 0
      → readable_slice q ≡ read_from q.items q.max_size (q.size - 1) q.head_idx ++ peek_last q ∷ []
  unfolding readable_slice peek_last
  readable_slice-last q v n =
      let e : q.size ≡ suc (q.size - 1) = omega arith in
      ap (λ k. read_from q.items q.max_size k q.head_idx) e
      ∙ read_from-suc q.max_size q.items (q.size - 1) q.head_idx v.head_lt (omega arith)
      ∙ ap (λ y. read_from q.items q.max_size (q.size - 1) q.head_idx ++ y ∷ [])
          (ground (arith, slot-mod q.max_size q.head_idx q.size))
