-- ===== src/Queue/Slots.antt =====
-- Reading the ring of pulsar-client-go/pulsar/internal/blocking_queue.go slot by slot.
use pr.Base.{
  List, Option, [], ap, ap₂, arith, get_or, if◌then◌else◌, length, ltb, none, refl, set, suc, sym,
  zero, ℕ, ◌++◌, ◌+◌, ◌-◌, ◌<◌, ◌==◌, ◌∙◌, ◌∷◌, ◌≡◌, ◌≢◌, ◌≤◌,
}
use pr.Queue.{read_from}

-- The slot `n` places on from `i`, in a ring of `m`.
abbrev pub slot : ℕ → ℕ → ℕ → ℕ
slot m i n = if ltb (i + n) m then i + n else i + n - m

module _ {A : Type 0} where
  pub get_or-set_self :
      (xs : List A) (i : ℕ) (v d : A) → i < length xs → get_or (set xs i v) i d ≡ v
  get_or-set_self [] i v d h = absurd (omega arith)
  get_or-set_self (x ∷ xs) zero v d h = refl
  get_or-set_self (x ∷ xs) (suc i) v d h = get_or-set_self xs i v d (omega arith)

  pub get_or-set_ne :
      (xs : List A) (i j : ℕ) (v d : A) → i ≢ j → get_or (set xs i v) j d ≡ get_or xs j d
  get_or-set_ne [] i j v d h = refl
  get_or-set_ne (x ∷ xs) zero zero v d h = absurd (h refl)
  get_or-set_ne (x ∷ xs) zero (suc j) v d h = refl
  get_or-set_ne (x ∷ xs) (suc i) zero v d h = refl
  get_or-set_ne (x ∷ xs) (suc i) (suc j) v d h = get_or-set_ne xs i j v d (λ e. h (ap suc e))

-- The next slot of the loop in `ReadableSlice`.
abbrev pub next : ℕ → ℕ → ℕ
next m i = if i + 1 == m then 0 else i + 1

pub next-lt : (m i : ℕ) → i < m → next m i < m
next-lt m i h = ground arith

pub slot-next : (m i n : ℕ) → i < m → n + 1 < m → slot m (next m i) n ≡ slot m i (suc n)
slot-next m i n h l = ground arith

slot-ne : (m i k : ℕ) → i < m → 0 < k → k < m → slot m i k ≢ i
slot-ne m i k h p l = ground arith

module _ {A : Type 0} (m : ℕ) where
  -- One round more reads the slot after the last.
  pub read_from-suc :
      (items : List (Option A)) (n i : ℕ)
      → i < m
      → n < m
      → read_from items m (suc n) i ≡ read_from items m n i ++ get_or items (slot m i n) none ∷ []
  unfolding read_from
  read_from-suc items zero i h l =
      let e : i ≡ slot m i 0 = ground arith in ap (λ k. get_or items k none ∷ []) e
  read_from-suc items (suc n) i h l =
      ap (λ r. get_or items i none ∷ r)
        (read_from-suc items n (next m i) (next-lt m i h) (omega arith)
          ∙ ap (λ k. read_from items m n (next m i) ++ get_or items k none ∷ [])
              (slot-next m i n h (omega arith)))

  -- A write past the slots that are read changes nothing.
  pub read_from-set :
      (items : List (Option A)) (n k i : ℕ) (v : Option A)
      → i < m
      → n ≤ k
      → k < m
      → read_from (set items (slot m i k) v) m n i ≡ read_from items m n i
  unfolding read_from
  read_from-set items zero k i v h l b = refl
  read_from-set items (suc n) zero i v h l b = absurd (omega arith)
  read_from-set items (suc n) (suc k) i v h l b =
      ap₂ ◌∷◌
        (get_or-set_ne items (slot m i (suc k)) i v none (slot-ne m i (suc k) h (omega arith) b))
        (ap (λ s. read_from (set items s v) m n (next m i)) (sym (slot-next m i k h (omega arith)))
          ∙ read_from-set items n k (next m i) v (next-lt m i h) (omega arith) (omega arith))
