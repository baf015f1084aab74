-- ===== src/Message/Tracker/Complete.antt =====
-- A batch is complete when each of its messages was acknowledged, alone or cumulatively.
use pr.Base.{
  Bool, Bool-cases, List, [], ap, arith, dec_lt, false, inl, inr, leb, ltb, not, refl, suc, true,
  zero, ℕ, ◌&&◌, ◌+◌, ◌<◌, ◌==◌, ◌||◌, ◌∙◌, ◌∷◌, ◌≡◌,
}
use pr.Base.Int.{ℤ, pos, negsuc}
use pr.Bits.{BitSets, test-set_from, test-clear_from}
use pr.Message.Tracker.{AckTracker, new_ack_tracker, ack, ack_cumulative, completed}

-- An acknowledgement of one message of the batch, or of all up to one.
pub data Ack : Type 0 where
  single : ℤ → Ack
  upto : ℤ → Ack

abbrev pub covers : Ack → ℕ → Bool
covers (single (pos j)) i = j == i
covers (single (negsuc j)) i = false
covers (upto (pos j)) i = leb i j
covers (upto (negsuc j)) i = false

abbrev pub covered : List Ack → ℕ → Bool
covered [] i = false
covered (a ∷ acks) i = covers a i || covered acks i

-- Whether every index below `n` is covered.
abbrev pub all_covered : ℕ → List Ack → Bool
all_covered zero acks = true
all_covered (suc n) acks = covered acks n && all_covered n acks

all_covered_sound :
    (n i : ℕ) (acks : List Ack) → all_covered n acks ≡ true → i < n → covered acks i ≡ true
all_covered_sound zero i acks h l = absurd (omega arith)
all_covered_sound (suc n) i acks h l = elim (dec_lt i n) [
  | yes p ↦ all_covered_sound n i acks (ground arith) p
  | no p ↦ let e : i ≡ n = omega arith in rw e (ground arith)
]

all_covered_complete :
    (n : ℕ) (acks : List Ack)
    → ((i : ℕ) → i < n → covered acks i ≡ true)
    → all_covered n acks ≡ true
all_covered_complete zero acks h = refl
all_covered_complete (suc n) acks h =
    rw (h n (omega arith)) (all_covered_complete n acks (λ i l. h i (omega arith)))

module _ (bs : BitSets) where
  open bs use {test, none_set, test-new, test-clear, none_set_iff}

  abbrev pub ack_by : AckTracker bs → Ack → AckTracker bs
  ack_by t (single i) = (ack bs t i).0
  ack_by t (upto i) = (ack_cumulative bs t i).0

  abbrev pub ack_all : AckTracker bs → List Ack → AckTracker bs
  ack_all t [] = t
  ack_all t (a ∷ acks) = ack_all (ack_by t a) acks

  test-ack_by :
      (t : AckTracker bs) (a : Ack) (i : ℕ)
      → test i (ack_by t a).batch_ids ≡ (not (covers a i) && test i t.batch_ids)
  unfolding ack ack_cumulative
  test-ack_by t (single (pos j)) i = test-clear i j t.batch_ids
  test-ack_by t (single (negsuc j)) i = refl
  test-ack_by t (upto (pos j)) i = ground (arith, test-clear_from bs (j + 1) 0 i t.batch_ids)
  test-ack_by t (upto (negsuc j)) i = refl

  test-ack_all :
      (t : AckTracker bs) (acks : List Ack) (i : ℕ)
      → test i (ack_all t acks).batch_ids ≡ (not (covered acks i) && test i t.batch_ids)
  test-ack_all t [] i = refl
  test-ack_all t (a ∷ acks) i = ground (arith, test-ack_all (ack_by t a) acks i, test-ack_by t a i)

  test-new_ack_tracker : (n i : ℕ) → test i (new_ack_tracker bs n).batch_ids ≡ ltb i n
  unfolding new_ack_tracker
  test-new_ack_tracker n i = ground (arith, test-set_from bs n 0 i (bs.new n), test-new i n)

  -- After any acknowledgements, single and cumulative, in any order and with repetitions, the
  -- tracker of a batch of `n` messages says that the batch is complete exactly when each of its `n`
  -- indices was acknowledged.
  pub completed-ack_all :
      (n : ℕ) (acks : List Ack)
      → completed bs (ack_all (new_ack_tracker bs n) acks) ≡ all_covered n acks
  completed-ack_all n acks = elim (Bool-cases (all_covered n acks)) [
    | inl all ↦ rw all ((none_set_iff _).1 (λ i. cleared i all))
    | inr some_left ↦ rw some_left (not_yet some_left)
  ]
    where
      bit :
          (i : ℕ)
          → test i (ack_all (new_ack_tracker bs n) acks).batch_ids
            ≡ (not (covered acks i) && ltb i n)
      bit i =
          test-ack_all (new_ack_tracker bs n) acks i
          ∙ ap (λ b. not (covered acks i) && b) (test-new_ack_tracker n i)

      cleared :
          (i : ℕ)
          → all_covered n acks ≡ true
          → test i (ack_all (new_ack_tracker bs n) acks).batch_ids ≡ false
      cleared i all = ground (arith, bit i, all_covered_sound n i acks all)

      found :
          none_set (ack_all (new_ack_tracker bs n) acks).batch_ids ≡ true
          → (i : ℕ) → i < n
          → covered acks i ≡ true
      found e i l = ground (arith, bit i, (none_set_iff _).0 e i)

      not_yet :
          all_covered n acks ≡ false
          → none_set (ack_all (new_ack_tracker bs n) acks).batch_ids ≡ false
      not_yet some_left =
          elim (Bool-cases (none_set (ack_all (new_ack_tracker bs n) acks).batch_ids)) [
            | inl e ↦ absurd (let all = all_covered_complete n acks (found e) in cc)
            | inr e ↦ e
          ]
