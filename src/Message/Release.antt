-- ===== src/Message/Release.antt =====
-- `ReleasePayload` of pulsar-client-go/pulsar/impl_message.go.
use pr.Base.{none, refl, ℕ, ◌≡◌}
use pr.Message.{Message, MessageId, Bytes, size, release_payload}

-- What acknowledging, routing and redelivering a message reads of it.
abbrev pub metadata : Message → MessageId × Bytes × Bytes × Bytes × ℕ
metadata m = (m.msg_id, m.key, m.ordering_key, m.topic, m.redelivery_count)

-- After `ReleasePayload` the payload and the properties are nil, the size is zero, and what an
-- acknowledgement or a redelivery needs is as before; to release twice is to release once.
pub release_payload-keeps :
    (m : Message)
    → ((release_payload m).payload ≡ none)
      × ((release_payload m).properties ≡ none)
      × (size (release_payload m) ≡ 0)
      × (metadata (release_payload m) ≡ metadata m)
      × (release_payload (release_payload m) ≡ release_payload m)
unfolding release_payload
release_payload-keeps m = (refl, refl, refl, refl, refl)
