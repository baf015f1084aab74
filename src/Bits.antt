-- ===== src/Bits.antt =====
-- The bit sets of github.com/bits-and-blooms/bitset, which are not part of the repository: the
-- operations that the client calls, with their documented behaviour, as a parameter of the model.
pub mod Members
use pr.Base.{
  Bool, List, arith, false, leb, ltb, not, suc, true, zero, ℕ, ◌&&◌, ◌+◌, ◌==◌, ◌||◌, ◌↔◌, ◌≡◌,
}

pub record BitSets : Type 1 where
  pub BitSet : Type 0
  -- `bitset.New(length)`
  pub new : ℕ → BitSet
  pub set : ℕ → BitSet → BitSet
  pub clear : ℕ → BitSet → BitSet
  pub test : ℕ → BitSet → Bool
  -- `None()`: no bit is set
  pub none_set : BitSet → Bool
  -- `Bytes()`: the underlying words
  pub words : BitSet → List ℕ
  pub test-new : (i n : ℕ) → test i (new n) ≡ false
  pub test-set : (i j : ℕ) (b : BitSet) → test i (set j b) ≡ (j == i || test i b)
  pub test-clear : (i j : ℕ) (b : BitSet) → test i (clear j b) ≡ (not (j == i) && test i b)
  pub none_set_iff : (b : BitSet) → (none_set b ≡ true) ↔ ((i : ℕ) → test i b ≡ false)

-- `for i := uint(0); i < size; i++ { b.Set(i) }` of both trackers, by the rounds left.
module _ (bs : BitSets) where
  open bs use {BitSet, set, clear, test, test-set, test-clear}

  unfoldable pub set_from : ℕ → ℕ → BitSet → BitSet
  set_from zero i b = b
  set_from (suc n) i b = set_from n (i + 1) (set i b)

  -- `for i := 0; i <= batchID; i++ { b.Clear(uint(i)) }`, by the rounds left.
  unfoldable pub clear_from : ℕ → ℕ → BitSet → BitSet
  clear_from zero i b = b
  clear_from (suc n) i b = clear_from n (i + 1) (clear i b)

  pub test-set_from :
      (n i j : ℕ) (b : BitSet) → test j (set_from n i b) ≡ ((leb i j && ltb j (i + n)) || test j b)
  unfolding set_from
  test-set_from zero i j b = ground arith
  test-set_from (suc n) i j b = ground (arith, test-set_from n (i + 1) j (set i b), test-set j i b)

  pub test-clear_from :
      (n i j : ℕ) (b : BitSet)
      → test j (clear_from n i b) ≡ (not (leb i j && ltb j (i + n)) && test j b)
  unfolding clear_from
  test-clear_from zero i j b = ground arith
  test-clear_from (suc n) i j b =
      ground (arith, test-clear_from n (i + 1) j (clear i b), test-clear j i b)
