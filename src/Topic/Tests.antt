-- ===== src/Topic/Tests.antt =====
-- Names of pulsar-client-go/pulsar/internal/topic_name.go that are parsed.
use pr.Base.{[], inr, refl, some, true, ◌++◌, ◌∷◌, ◌≡◌}
use pr.Topic.{
  Bytes, TopicName, persistent, scheme, public_tenant, default_namespace, parse_topic_name,
  topic_name_without_partition_part, is_v2_topic_name,
}
use pr.Topic.Laws.{assembled, parse_topic_name-assembled, parse_topic_name_again}

-- "t-partition-7" and its full name
abbrev short_name : Bytes
short_name = 116 ∷ 45 ∷ 112 ∷ 97 ∷ 114 ∷ 116 ∷ 105 ∷ 116 ∷ 105 ∷ 111 ∷ 110 ∷ 45 ∷ 55 ∷ []

abbrev full_name : Bytes
full_name = persistent ++ scheme ++ public_tenant ++ (47 ∷ default_namespace) ++ (47 ∷ short_name)

abbrev parsed : TopicName
parsed = record {
  domain = persistent;
  tenant = public_tenant;
  namespace = public_tenant ++ (47 ∷ default_namespace);
  topic = short_name;
  name = full_name;
  partition = some 7;
}

short_name-parsed : parse_topic_name short_name ≡ inr parsed
unfolding parse_topic_name
short_name-parsed = refl

partition-dropped :
    topic_name_without_partition_part parsed
    ≡ persistent ++ scheme ++ public_tenant ++ (47 ∷ default_namespace) ++ (47 ∷ 116 ∷ [])
unfolding topic_name_without_partition_part
partition-dropped = refl

parsed-v2 : is_v2_topic_name parsed ≡ true
unfolding is_v2_topic_name
parsed-v2 = refl

parse_topic_name-assembled_example : full_name ≡ assembled parsed
parse_topic_name-assembled_example = parse_topic_name-assembled short_name parsed short_name-parsed

parse_topic_name_again_example : parse_topic_name full_name ≡ inr parsed
parse_topic_name_again_example = parse_topic_name_again short_name parsed short_name-parsed
