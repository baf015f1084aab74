-- ===== src/Topic/Laws.antt =====
-- What `ParseTopicName` of pulsar-client-go/pulsar/internal/topic_name.go promises.
use pr.Base.{[], ap, arith, inl, inr, none, refl, some, sym, ◌++◌, ◌∙◌, ◌∷◌, ◌≡◌, ◌⊎◌}
use pr.Topic.{
  Bytes, TopicName, scheme, cut, split_n, locate, qualify, parse_qualified, parse_topic_name,
}
use pr.Topic.Parts.{rejoin, rejoin-cut, join-split_n, locate-join}

-- The name is the domain, the namespace and the local name with their separators.
abbrev pub assembled : TopicName → Bytes
assembled tn = tn.domain ++ (scheme ++ (tn.namespace ++ (47 ∷ tn.topic)))

pub parse_qualified-name : (t : Bytes) (tn : TopicName) → parse_qualified t ≡ inr tn → tn.name ≡ t
unfolding parse_qualified
parse_qualified-name t tn h = ground arith

pub qualify-qualify : (t u : Bytes) → qualify t ≡ inr u → qualify u ≡ inr u
unfolding qualify
qualify-qualify t u h = ground arith

qualified-parts :
    (t domain rest namespace local : Bytes)
    → cut scheme t ≡ some (domain, rest)
    → locate (split_n 3 rest) ≡ some (namespace, local)
    → t ≡ domain ++ (scheme ++ (namespace ++ (47 ∷ local)))
qualified-parts t domain rest namespace local h k =
    sym (rejoin-cut scheme t)
    ∙ ap (rejoin scheme t) h
    ∙ ap (λ u. domain ++ (scheme ++ u))
        (sym (join-split_n 3 rest) ∙ sym (locate-join (split_n 3 rest) namespace local k))

abbrev after_scheme : Bytes → Bytes
after_scheme t = elim (cut scheme t) [ none ↦ [] | some (a, b) ↦ b ]

parse_qualified-cut :
    (t : Bytes) (tn : TopicName)
    → parse_qualified t ≡ inr tn
    → cut scheme t ≡ some (tn.domain, after_scheme t)
unfolding parse_qualified
parse_qualified-cut t tn h = ground arith

parse_qualified-locate :
    (t : Bytes) (tn : TopicName)
    → parse_qualified t ≡ inr tn
    → locate (split_n 3 (after_scheme t)) ≡ some (tn.namespace, tn.topic)
unfolding parse_qualified
parse_qualified-locate t tn h = ground arith

sum_cases : {A B : Type 0} (x : A ⊎ B) → ((a : A) × (x ≡ inl a)) ⊎ ((b : B) × (x ≡ inr b))
sum_cases (inl a) = inl (a, refl)
sum_cases (inr b) = inr (b, refl)

parse_topic_name-qualify :
    (t : Bytes) (tn : TopicName)
    → parse_topic_name t ≡ inr tn
    → (qualify t ≡ inr tn.name) × (parse_qualified tn.name ≡ inr tn)
unfolding parse_topic_name
parse_topic_name-qualify t tn h = elim (sum_cases (qualify t)) [
  | inl (e, q) ↦ absurd (ground (arith, q))
  | inr (u, q) ↦
      let k : parse_qualified u ≡ inr tn = ground (arith, q) in
      let n = parse_qualified-name u tn k in (q ∙ ap inr (sym n), ap parse_qualified n ∙ k)
]

-- A parsed name is its domain, its namespace and its local name with their separators, whether the
-- topic was given by a short or by its full name.
pub parse_topic_name-assembled :
    (t : Bytes) (tn : TopicName) → parse_topic_name t ≡ inr tn → tn.name ≡ assembled tn
parse_topic_name-assembled t tn h =
    let p = (parse_topic_name-qualify t tn h).1 in
    qualified-parts tn.name tn.domain (after_scheme tn.name) tn.namespace tn.topic
      (parse_qualified-cut tn.name tn p) (parse_qualified-locate tn.name tn p)

-- The full name of what was parsed is parsed to the same again.
pub parse_topic_name_again :
    (t : Bytes) (tn : TopicName) → parse_topic_name t ≡ inr tn → parse_topic_name tn.name ≡ inr tn
unfolding parse_topic_name
parse_topic_name_again t tn h =
    let (q, p) = parse_topic_name-qualify t tn h in ground (arith, qualify-qualify t tn.name q, p)
