-- ===== src/Bits/Members.antt =====
-- Bit sets as lists of the set bits: the assumptions of `BitSets` can be met.
use pr.Bits.{BitSets}
use pr.Base.{
  Bool, List, [], ap, arith, false, if◌then◌else◌, not, refl, true, ℕ, ◌&&◌, ◌+◌, ◌==◌, ◌^◌, ◌||◌,
  ◌↔◌, ◌∷◌, ◌≡◌,
}

abbrev pub member : ℕ → List ℕ → Bool
member i [] = false
member i (x ∷ xs) = x == i || member i xs

abbrev pub without : ℕ → List ℕ → List ℕ
without i [] = []
without i (x ∷ xs) = let rest = without i xs in if x == i then rest else x ∷ rest

abbrev pub is_empty : List ℕ → Bool
is_empty [] = true
is_empty (x ∷ xs) = false

pub member-without : (i j : ℕ) (b : List ℕ) → member i (without j b) ≡ (not (j == i) && member i b)
member-without i j [] = ground arith
member-without i j (x ∷ xs) = ground (arith, member-without i j xs)

member_at : (i j : ℕ) (b : List ℕ) → i ≡ j → member i b ≡ member j b
member_at i j b e = ap (λ k. member k b) e

pub member-insert :
    (i j : ℕ) (b : List ℕ) → member i (if member j b then b else j ∷ b) ≡ (j == i || member i b)
member-insert i j b = ground (arith, member_at i j b)

pub is_empty_iff : (b : List ℕ) → (is_empty b ≡ true) ↔ ((i : ℕ) → member i b ≡ false)
is_empty_iff [] = (λ _ i. refl, λ _. refl)
is_empty_iff (x ∷ xs) = (λ e. cc, λ h. absurd (let e = h x in ground arith))

-- The word that holds these bits, if they are below 64.
abbrev pub word : List ℕ → ℕ
word [] = 0
word (x ∷ xs) = 2 ^ x + word xs

abbrev pub member_sets : BitSets
member_sets = record {
  BitSet = List ℕ;
  new = λ n. [];
  set = λ i b. if member i b then b else i ∷ b;
  clear = without;
  test = member;
  none_set = is_empty;
  words = λ b. word b ∷ [];
  test-new = λ i n. refl;
  test-set = member-insert;
  test-clear = λ i j b. member-without i j b;
  none_set_iff = is_empty_iff;
}
