-- ===== src/Grouping/Pending.antt =====
-- What the pending map of pulsar-client-go/pulsar/ack_grouping_tracker.go says is acknowledged.
use pr.Base.{
  All, Bool, Bool-cases, List, Option, [], ap, arith, false, if◌then◌else◌, inl, inr, length, none,
  not, refl, some, true, ℕ, ◌&&◌, ◌+◌, ◌<◌, ◌==◌, ◌||◌, ◌∷◌, ◌≡◌, ◌≤◌, ◌⊎◌,
}
use pr.Base.Int.{pos, negsuc, ◌≤ℤ◌, ◌<ℤ◌}
use pr.Bits.{BitSets, set_from, test-set_from}
use pr.Message.{MessageId}
use pr.Grouping.{
  Position, new_position, same_position, find, insert, Pending, TimedTracker, mark, is_of_batch,
  is_marked, to_uint, add_msg_id_to_pending_acks, try_add_individual, add, is_duplicate, ack_list,
  to_msg_id_data_list,
}

same_position_at : (p q : Position) → same_position p q ≡ true → p ≡ q
same_position_at p q h = ground arith

pub find-insert :
    {V : Type 0} (p q : Position) (v : V) (m : List (Position × V))
    → find q (insert p v m) ≡ (if same_position p q then some v else find q m)
unfolding find insert
find-insert p q v [] = refl
find-insert p q v ((r, w) ∷ m) = ground (arith, find-insert p q v m)

length-insert :
    {V : Type 0} (p : Position) (v : V) (m : List (Position × V))
    → length (insert p v m) ≤ length m + 1
unfolding insert
length-insert p v [] = omega arith
length-insert p v ((q, w) ∷ m) = ground (arith, length-insert p v m)

module _ (bs : BitSets) where
  open bs use {BitSet, new, clear, test, test-new, test-clear}

  -- Whether the map says that message `i` of an entry is acknowledged.
  abbrev pub is_acked : Pending bs → Position → ℕ → Bool
  is_acked m p i = is_marked bs (pos i) (find p m)

  -- An id of a message within its batch, or of a whole entry.
  abbrev pub IsWithin : MessageId → Type 0
  IsWithin id =
      ((pos 0 ≤ℤ id.batch_idx) × (id.batch_idx <ℤ id.batch_size)) ⊎ (id.batch_idx ≡ negsuc 0)

  -- Whether an id acknowledges message `i` of the entry at `p`.
  abbrev pub acks : MessageId → Position → ℕ → Bool
  acks id p i =
      same_position (new_position id) p && (not (is_of_batch bs id) || to_uint id.batch_idx == i)

  is_marked-mark :
      (b n i : ℕ) (f : Option (Option BitSet))
      → i < n
      → is_marked bs (pos i) (some (mark bs b n f)) ≡ (b == i || is_marked bs (pos i) f)
  is_marked-mark b n i none l =
      ground (arith, test-clear i b (set_from bs n 0 (new n)), test-set_from bs n 0 i (new n))
  is_marked-mark b n i (some none) l = ground arith
  is_marked-mark b n i (some (some s)) l = ground (arith, test-clear i b s)

  -- If the id is of the entry at `p` and of a batch, then `i` is an index of that batch.
  abbrev pub Fits : MessageId → Position → ℕ → Type 0
  Fits id p i =
      (same_position (new_position id) p ≡ false)
      ⊎ (is_of_batch bs id ≡ false)
      ⊎ (i < to_uint id.batch_size)

  -- Adding an id marks what it acknowledges, and nothing else of a batch that holds `i`.
  pub add-marks :
      (m : Pending bs) (id : MessageId) (p : Position) (i : ℕ)
      → Fits id p i
      → is_acked (add_msg_id_to_pending_acks bs m id) p i ≡ (acks id p i || is_acked m p i)
  unfolding add_msg_id_to_pending_acks
  add-marks m id p i l = elim (Bool-cases (same_position (new_position id) p)) [
    | inl same ↦
        let e = same_position_at (new_position id) p same in
        ground (
          arith,
          e,
          ap (λ q. find q m) e,
          find-insert (new_position id) p none m,
          find-insert (new_position id) p
              (mark bs (to_uint id.batch_idx) (to_uint id.batch_size) (find (new_position id) m)) m,
          is_marked-mark (to_uint id.batch_idx) (to_uint id.batch_size) i
              (find (new_position id) m),
        )
    | inr other ↦ ground (
      arith,
      find-insert (new_position id) p none m,
      find-insert (new_position id) p
          (mark bs (to_uint id.batch_idx) (to_uint id.batch_size) (find (new_position id) m)) m,
    )
  ]

  unfoldable pub add_all : Pending bs → List MessageId → Pending bs
  add_all m [] = m
  add_all m (id ∷ ids) = add_all (add_msg_id_to_pending_acks bs m id) ids

  abbrev pub some_acks : List MessageId → Position → ℕ → Bool
  some_acks [] p i = false
  some_acks (id ∷ ids) p i = some_acks ids p i || acks id p i

  -- However acknowledgements of single messages and whole entries come, with repetitions and in any
  -- order, the map says that message `i` of an entry is acknowledged exactly when it said so before
  -- or one of them acknowledges it.
  pub is_acked-add_all :
      (m : Pending bs) (ids : List MessageId) (p : Position) (i : ℕ)
      → All (λ id. Fits id p i) ids
      → is_acked (add_all m ids) p i ≡ (some_acks ids p i || is_acked m p i)
  unfolding add_all
  is_acked-add_all m [] p i f = refl
  is_acked-add_all m (id ∷ ids) p i f = ground (
    arith,
    is_acked-add_all (add_msg_id_to_pending_acks bs m id) ids p i f.1,
    add-marks m id p i f.0,
  )

  -- The position and index of an id that is added are marked.
  add-marks_self :
      (m : Pending bs) (id : MessageId)
      → IsWithin id
      → is_marked bs id.batch_idx (find (new_position id) (add_msg_id_to_pending_acks bs m id))
        ≡ true
  unfolding add_msg_id_to_pending_acks
  add-marks_self m id w = ground (
    arith,
    find-insert (new_position id) (new_position id) none m,
    find-insert (new_position id) (new_position id)
        (mark bs (to_uint id.batch_idx) (to_uint id.batch_size) (find (new_position id) m)) m,
    is_marked-mark (to_uint id.batch_idx) (to_uint id.batch_size) (to_uint id.batch_idx)
        (find (new_position id) m),
  )

  -- After `add` the message counts as acknowledged: either it is among the pending entries, of
  -- which there are fewer than the maximum, nothing is sent, and right after it is a duplicate; or
  -- the entries, with its own, have reached the maximum, are all sent at once, and none is pending.
  pub add-acknowledges :
      (t : TimedTracker bs) (id : MessageId)
      → IsWithin id
      → let (t', sent) = add bs t id in
        let m = add_msg_id_to_pending_acks bs t.pending_acks id in
        (is_marked bs id.batch_idx (find (new_position id) m) ≡ true)
        × (((sent ≡ [])
              × (t'.pending_acks ≡ m)
              × (length m < t.max_num_acks)
              × (is_duplicate bs t' id ≡ true))
            ⊎ ((sent ≡ ack_list (to_msg_id_data_list bs m) ∷ [])
                × (t'.pending_acks ≡ [])
                × (t.max_num_acks ≤ length m)))
  unfolding add try_add_individual is_duplicate
  add-acknowledges t id w =
      (add-marks_self t.pending_acks id w, ground (arith, add-marks_self t.pending_acks id w))
