-- ===== src/Topic/Parts.antt =====
-- Cutting and joining, for the names of pulsar-client-go/pulsar/internal/topic_name.go.
use pr.Base.{
  Bool-cases, List, Option, [], ap, append_assoc, ap₂, arith, drop, inl, inr, length, none, refl,
  some, suc, sym, true, zero, ℕ, ◌++◌, ◌∙◌, ◌∷◌, ◌≡◌,
}
use pr.Topic.{Bytes, starts_with, cut, split_n, locate}

starts_with-eq : (p s : Bytes) → starts_with p s ≡ true → s ≡ p ++ drop (length p) s
starts_with-eq [] s h = refl
starts_with-eq (x ∷ p) [] h = ground arith
starts_with-eq (x ∷ p) (y ∷ s) h = elim (Bool-cases (starts_with p s)) [
  | inl e ↦ let t = starts_with-eq p s e in let head : y ≡ x = ground arith in ap₂ ◌∷◌ head t
  | inr e ↦ absurd (ground arith)
]

-- The parts of a cut, with what was cut away between them.
abbrev pub rejoin : Bytes → Bytes → Option (Bytes × Bytes) → Bytes
rejoin p s none = s
rejoin p s (some (a, b)) = a ++ (p ++ b)

pub rejoin-cut : (p s : Bytes) → rejoin p s (cut p s) ≡ s
rejoin-cut [] [] = refl
rejoin-cut (x ∷ p) [] = refl
rejoin-cut p (c ∷ s) = elim (Bool-cases (starts_with p (c ∷ s))) [
  | inl e ↦ ground (arith, e, sym (starts_with-eq p (c ∷ s) e))
  | inr e ↦ ground (arith, e, rejoin-cut p s)
]

-- `strings.Join(parts, "/")`
abbrev pub join : List Bytes → Bytes
join [] = []
join (a ∷ []) = a
join (a ∷ b ∷ parts) = a ++ (47 ∷ join (b ∷ parts))

join-cons :
    (a : Bytes) (n : ℕ) (s : Bytes) → join (a ∷ split_n n s) ≡ a ++ (47 ∷ join (split_n n s))
join-cons a zero s = refl
join-cons a (suc n) s = ground arith

join-parts :
    (n : ℕ) (s : Bytes) (o : Option (Bytes × Bytes))
    → ((t : Bytes) → join (split_n n t) ≡ t)
    → rejoin (47 ∷ []) s o ≡ s
    → join (elim o [ none ↦ s ∷ [] | some (a, b) ↦ a ∷ split_n n b ]) ≡ s
join-parts n s none ih h = refl
join-parts n s (some (a, b)) ih h = join-cons a n b ∙ ap (λ t. a ++ (47 ∷ t)) (ih b) ∙ h

pub join-split_n : (n : ℕ) (s : Bytes) → join (split_n n s) ≡ s
join-split_n zero s = refl
join-split_n (suc n) s = join-parts n s (cut (47 ∷ []) s) (join-split_n n) (rejoin-cut (47 ∷ []) s)

-- The namespace and the local name are all the parts.
pub locate-join :
    (parts : List Bytes) (namespace local : Bytes)
    → locate parts ≡ some (namespace, local)
    → namespace ++ (47 ∷ local) ≡ join parts
unfolding locate
locate-join (a ∷ b ∷ c ∷ []) m l h = ground (arith, append_assoc a (47 ∷ b) (47 ∷ c))
locate-join (a ∷ b ∷ c ∷ d ∷ []) m l h =
    ground (arith, append_assoc a (47 ∷ (b ++ (47 ∷ c))) (47 ∷ d), append_assoc b (47 ∷ c) (47 ∷ d))
locate-join [] m l h = ground arith
locate-join (a ∷ []) m l h = ground arith
locate-join (a ∷ b ∷ []) m l h = ground arith
locate-join (a ∷ b ∷ c ∷ d ∷ e ∷ parts) m l h = ground arith
