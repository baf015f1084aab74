-- ===== src/Topic.antt =====
-- Topic names, pulsar-client-go/pulsar/internal/topic_name.go, as lists of bytes.
pub mod Parts
pub mod Laws
mod Tests
use pr.Base.{
  Bool, List, Option, [], drop, false, if◌then◌else◌, inl, inr, leb, length, ltb, none, not, some,
  suc, take, true, zero, ℕ, ◌&&◌, ◌*◌, ◌++◌, ◌+◌, ◌-◌, ◌==◌, ◌^◌, ◌||◌, ◌∷◌, ◌⊎◌,
}

abbrev pub Bytes : Type 0
Bytes = List ℕ

-- A partition is `none` where the code has -1, its only negative one.
pub record TopicName : Type 0 where
  pub domain : Bytes
  pub tenant : Bytes
  pub namespace : Bytes
  pub topic : Bytes
  pub name : Bytes
  pub partition : Option ℕ

-- "public", "default", "persistent", "non-persistent", "://" and "-partition-"
abbrev pub public_tenant : Bytes
public_tenant = 112 ∷ 117 ∷ 98 ∷ 108 ∷ 105 ∷ 99 ∷ []

abbrev pub default_namespace : Bytes
default_namespace = 100 ∷ 101 ∷ 102 ∷ 97 ∷ 117 ∷ 108 ∷ 116 ∷ []

abbrev pub persistent : Bytes
persistent = 112 ∷ 101 ∷ 114 ∷ 115 ∷ 105 ∷ 115 ∷ 116 ∷ 101 ∷ 110 ∷ 116 ∷ []

abbrev pub non_persistent : Bytes
non_persistent = 110 ∷ 111 ∷ 110 ∷ 45 ∷ persistent

abbrev pub scheme : Bytes
scheme = 58 ∷ 47 ∷ 47 ∷ []

abbrev pub partitioned_topic_suffix : Bytes
partitioned_topic_suffix = 45 ∷ 112 ∷ 97 ∷ 114 ∷ 116 ∷ 105 ∷ 116 ∷ 105 ∷ 111 ∷ 110 ∷ 45 ∷ []

-- `==` of strings, and the functions of Go's `strings` that the code calls.
abbrev pub same_bytes : Bytes → Bytes → Bool
same_bytes [] [] = true
same_bytes [] (y ∷ t) = false
same_bytes (x ∷ s) [] = false
same_bytes (x ∷ s) (y ∷ t) = (x == y) && same_bytes s t

abbrev pub starts_with : Bytes → Bytes → Bool
starts_with [] s = true
starts_with (x ∷ p) [] = false
starts_with (x ∷ p) (y ∷ s) = (x == y) && starts_with p s

abbrev pub last_index : Bytes → Bytes → Option ℕ
last_index p [] = if starts_with p [] then some 0 else none
last_index p (c ∷ s) = elim (last_index p s) [
  | some i ↦ some (suc i)
  | none ↦ if starts_with p (c ∷ s) then some 0 else none
]

-- What stands before and behind the first occurrence.
abbrev pub cut : Bytes → Bytes → Option (Bytes × Bytes)
cut p [] = if starts_with p [] then some ([], []) else none
cut p (c ∷ s) =
    let rest = cut p s in
    if starts_with p (c ∷ s)
    then some ([], drop (length p) (c ∷ s))
    else elim rest [ none ↦ none | some (a, b) ↦ some (c ∷ a, b) ]

abbrev pub contains : Bytes → Bytes → Bool
contains p s = elim (cut p s) [ none ↦ false | some x ↦ true ]

-- `SplitN(s, "/", n + 1)`; with `n` the length of `s` it is `Split(s, "/")`.
abbrev pub split_n : ℕ → Bytes → List Bytes
split_n zero s = s ∷ []
split_n (suc n) s = elim (cut (47 ∷ []) s) [ none ↦ s ∷ [] | some (a, b) ↦ a ∷ split_n n b ]

abbrev pub split : Bytes → List Bytes
split s = split_n (length s) s

-- `strconv.Atoi`: digits, after a plus maybe, of a number below 2 ^ 63. A minus does not occur in
-- what it is given here.
abbrev pub digits_from : ℕ → Bytes → Option ℕ
digits_from n [] = if ltb n (2 ^ 63) then some n else none
digits_from n (c ∷ s) =
    let rest = digits_from (10 * n + (c - 48)) s in if leb 48 c && leb c 57 then rest else none

abbrev pub atoi : Bytes → Option ℕ
atoi [] = none
atoi (c ∷ s) =
    if c == 43
    then (elim s [ [] ↦ none | d ∷ t ↦ digits_from 0 (d ∷ t) ])
    else digits_from 0 (c ∷ s)

pub data TopicError : Type 0 where
  invalid_short_topic_name invalid_topic_domain invalid_topic_name : Bytes → TopicError
  invalid_partition : TopicError

unfoldable pub get_partition_index : Bytes → TopicError ⊎ Option ℕ
get_partition_index topic =
    if contains partitioned_topic_suffix topic
    then (let at : ℕ = elim (last_index (45 ∷ []) topic) [ none ↦ 0 | some i ↦ suc i ] in
        elim (atoi (drop at topic)) [ none ↦ inl invalid_partition | some n ↦ inr (some n) ])
    else inr none

-- The fully qualified name of a short one; others are as they are.
unfoldable pub qualify : Bytes → TopicError ⊎ Bytes
qualify topic =
    if contains scheme topic
    then inr topic
    else (let parts = length (split topic) in
        if parts == 3 || parts == 4
        then inr (persistent ++ (scheme ++ topic))
        else if parts == 1
        then inr (
            persistent ++ (scheme ++ (public_tenant ++ (47 ∷ (default_namespace ++ (47 ∷ topic))))))
        else inl (invalid_short_topic_name topic))

-- The namespace and the local name of the three or four parts behind the domain.
unfoldable pub locate : List Bytes → Option (Bytes × Bytes)
locate (a ∷ b ∷ c ∷ []) = some (a ++ (47 ∷ b), c)
locate (a ∷ b ∷ c ∷ d ∷ []) = some (a ++ (47 ∷ (b ++ (47 ∷ c))), d)
locate _ = none

abbrev pub first_part : List Bytes → Bytes
first_part [] = []
first_part (a ∷ parts) = a

-- A qualified name has a scheme, so that the cut is never `none`.
unfoldable pub parse_qualified : Bytes → TopicError ⊎ TopicName
unfolding locate get_partition_index
parse_qualified topic = elim (cut scheme topic) [
  | none ↦ inl (invalid_topic_name topic)
  | some (domain, rest) ↦
      if same_bytes domain persistent || same_bytes domain non_persistent
      then (elim (locate (split_n 3 rest)) [
        | none ↦ inl (invalid_topic_name topic)
        | some (namespace, local) ↦ elim (get_partition_index topic) [
          | inl e ↦ inl e
          | inr partition ↦ inr (record {
            domain = domain;
            tenant = first_part (split_n 3 rest);
            namespace = namespace;
            topic = local;
            name = topic;
            partition = partition;
          })
        ]
      ])
      else inl (invalid_topic_domain domain)
]

unfoldable pub parse_topic_name : Bytes → TopicError ⊎ TopicName
unfolding qualify parse_qualified
parse_topic_name topic = elim (qualify topic) [ inl e ↦ inl e | inr full ↦ parse_qualified full ]

-- The name of a nil pointer is empty; that case is left out.
unfoldable pub topic_name_without_partition_part : TopicName → Bytes
topic_name_without_partition_part tn = elim tn.partition [
  | none ↦ tn.name
  | some n ↦ elim (last_index partitioned_topic_suffix tn.name) [
    | none ↦ tn.name
    | some i ↦ if ltb 0 i then take i tn.name else tn.name
  ]
]

unfoldable pub is_v2_topic_name : TopicName → Bool
is_v2_topic_name tn = not (length (split tn.namespace) == 3)
