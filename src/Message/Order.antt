-- ===== src/Message/Order.antt =====
-- The two orders on message ids of pulsar-client-go/pulsar.
use pr.Base.{arith, false, if◌then◌else◌, inl, inr, suc, true, zero, ◌+◌, ◌≡◌, ◌⊎◌}
use pr.Base.Int.{ℤ, pos, negsuc, pos_part, neg_part, ◌≤ℤ◌, ◌<ℤ◌}
use pr.Message.{MessageId, greater, equal, message_id_compare}

-- Equality of integers, on their parts.
infix 50 ◌=ℤ◌
abbrev ◌=ℤ◌ : ℤ → ℤ → Type 0
a =ℤ b = pos_part a + neg_part b ≡ pos_part b + neg_part a

-- The lexicographic order on ledger, entry and batch index.
abbrev Below : MessageId → MessageId → Type 0
Below x y =
    (x.ledger_id <ℤ y.ledger_id)
    ⊎ ((x.ledger_id =ℤ y.ledger_id)
        × ((x.entry_id <ℤ y.entry_id)
            ⊎ ((x.entry_id =ℤ y.entry_id) × (x.batch_idx <ℤ y.batch_idx))))

greater→Below : (x y : MessageId) → greater x y ≡ true → Below y x
unfolding greater
greater→Below x y h = ground arith

Below→greater : (x y : MessageId) → Below y x → greater x y ≡ true
unfolding greater
Below→greater x y h = ground arith

Below-trans : (x y z : MessageId) → Below x y → Below y z → Below x z
Below-trans x y z h k = omega arith

-- `greater` is transitive.
pub greater_trans :
    (x y z : MessageId) → greater x y ≡ true → greater y z ≡ true → greater x z ≡ true
greater_trans x y z h k =
    Below→greater x z (Below-trans z y x (greater→Below y z k) (greater→Below x y h))

-- Of two ids exactly one is greater, unless they are `equal`, and then none is.
pub greater-trichotomy :
    (x y : MessageId)
    → ((equal x y ≡ true) × (greater x y ≡ false) × (greater y x ≡ false))
      ⊎ ((equal x y ≡ false) × (greater x y ≡ true) × (greater y x ≡ false))
      ⊎ ((equal x y ≡ false) × (greater x y ≡ false) × (greater y x ≡ true))
unfolding equal greater
greater-trichotomy x y = ground arith

-- Where `messageIDCompare` puts an id among those of its entry: the messages of a batch first, by
-- index, and the whole entry after them.
abbrev Before : MessageId → MessageId → Type 0
Before x y =
    (x.ledger_id <ℤ y.ledger_id)
    ⊎ ((x.ledger_id =ℤ y.ledger_id)
        × ((x.entry_id <ℤ y.entry_id)
            ⊎ ((x.entry_id =ℤ y.entry_id)
                × (pos 0 ≤ℤ x.batch_idx)
                × ((y.batch_idx <ℤ pos 0) ⊎ (x.batch_idx <ℤ y.batch_idx)))))

compare→Before : (x y : MessageId) → message_id_compare x y ≡ negsuc 0 → Before x y
unfolding message_id_compare
compare→Before x y h = ground arith

Before→compare : (x y : MessageId) → Before x y → message_id_compare x y ≡ negsuc 0
unfolding message_id_compare
Before→compare x y h = ground arith

-- What `messageIDCompare` does not tell apart.
abbrev Same : MessageId → MessageId → Type 0
Same x y =
    (x.ledger_id =ℤ y.ledger_id)
    × (x.entry_id =ℤ y.entry_id)
    × (((x.batch_idx <ℤ pos 0) × (y.batch_idx <ℤ pos 0)) ⊎ (x.batch_idx =ℤ y.batch_idx))

compare→Same : (x y : MessageId) → message_id_compare x y ≡ pos 0 → Same x y
unfolding message_id_compare
compare→Same x y h = ground arith

Before-trans : (x y z : MessageId) → Before x y → Before y z → Before x z
Before-trans x y z h k = omega arith

Before-Same : (x y z : MessageId) → Before x y → Same y z → Before x z
Before-Same x y z h k = omega arith

-- An id before one that is not after a third is before the third.
pub message_id_compare_trans :
    (x y z : MessageId)
    → message_id_compare x y ≡ negsuc 0
    → (message_id_compare y z ≡ negsuc 0) ⊎ (message_id_compare y z ≡ pos 0)
    → message_id_compare x z ≡ negsuc 0
message_id_compare_trans x y z h (inl k) =
    Before→compare x z (Before-trans x y z (compare→Before x y h) (compare→Before y z k))
message_id_compare_trans x y z h (inr k) =
    Before→compare x z (Before-Same x y z (compare→Before x y h) (compare→Same y z k))

pub message_id_compare-cases :
    (x y : MessageId)
    → (message_id_compare x y ≡ negsuc 0)
      ⊎ (message_id_compare x y ≡ pos 0)
      ⊎ (message_id_compare x y ≡ pos 1)
unfolding message_id_compare
message_id_compare-cases x y = ground arith

-- The sign of a result of `messageIDCompare`, turned round.
abbrev pub negate : ℤ → ℤ
negate (pos zero) = pos zero
negate (pos (suc n)) = negsuc n
negate (negsuc n) = pos (suc n)

-- Swapping the arguments of `messageIDCompare` turns its sign round.
pub message_id_compare-swap :
    (x y : MessageId) → message_id_compare y x ≡ negate (message_id_compare x y)
unfolding message_id_compare
message_id_compare-swap x y = ground arith

-- `messageIDCompare` is the sign of `greater` on ids whose batch indices are both of a batch, or
-- both those of no batch.
pub message_id_compare-greater :
    (x y : MessageId)
    → ((pos 0 ≤ℤ x.batch_idx) × (pos 0 ≤ℤ y.batch_idx))
      ⊎ ((x.batch_idx ≡ negsuc 0) × (y.batch_idx ≡ negsuc 0))
    → message_id_compare x y
      ≡ (if greater x y then pos 1 else if greater y x then negsuc 0 else pos 0)
unfolding message_id_compare greater
message_id_compare-greater x y h = ground arith

-- On a whole entry and a message of its batch the two orders disagree.
pub message_id_compare-not_greater :
    (x y : MessageId)
    → x.ledger_id ≡ y.ledger_id
    → x.entry_id ≡ y.entry_id
    → x.batch_idx ≡ negsuc 0
    → pos 0 ≤ℤ y.batch_idx
    → (message_id_compare x y ≡ pos 1) × (greater y x ≡ true)
unfolding message_id_compare greater
message_id_compare-not_greater x y l e b p = ground arith
