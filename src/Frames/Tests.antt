-- ===== src/Frames/Tests.antt =====
-- The reader of pulsar-client-go/pulsar/internal/commands.go on concrete frames.
use pr.Base.{List, [], arith, false, length, ltb, map, refl, some, true, ℕ, ◌++◌, ◌∷◌, ◌≡◌}
use pr.Buffer.{Bytes, Buffer, be32, new_buffer_wrapper}
use pr.Buffer.Fifo.{unread, IsValid}
use pr.Frames.{
  Protocol, MessageReader, new_message_reader, fails, replies, checksum_mismatch, end_of_messages,
  read_message_metadata,
}
use pr.Frames.Single.{Item, item, encode_all, content, read_messages, read_messages-encode_all}
use pr.Frames.Metadata.{frame, read_message_metadata-mismatch, read_message_metadata-frame}

abbrev first_byte : Bytes → ℕ
first_byte [] = 0
first_byte (c ∷ s) = c

-- Metadata is its own encoding; the first byte is the size of a payload.
abbrev plain : Protocol
plain = record {
  MessageMetadata = Bytes;
  SingleMessageMetadata = Bytes;
  BrokerEntryMetadata = Bytes;
  unmarshal_metadata = λ s. some s;
  unmarshal_single = λ s. some s;
  unmarshal_broker = λ s. some s;
  has_num_messages = λ s. ltb 0 (first_byte s);
  has_properties = λ s. false;
  payload_size = first_byte;
  crc32c = length;
}

abbrev items : List (Item plain)
items = item (2 ∷ []) (2 ∷ []) (5 ∷ 6 ∷ []) ∷ item (0 ∷ 9 ∷ []) (0 ∷ 9 ∷ []) [] ∷ []

abbrev batch_reader : MessageReader
batch_reader = record {
  buffer = new_buffer_wrapper (encode_all items);
  batched = true;
  has_properties = false;
}

abbrev body : Bytes
body = be32 1 ++ (3 ∷ []) ++ (7 ∷ [])

read_messages-encode_all_example :
    read_messages plain 3 batch_reader ≡ (map content items, some end_of_messages)
read_messages-encode_all_example =
    read_messages-encode_all plain items batch_reader
      ((refl, refl, omega arith), ((refl, refl, omega arith), tt)) (omega arith) (omega arith) refl
      refl

read_message_metadata-mismatch_example :
    (b : Buffer) × (read_message_metadata plain
        (new_message_reader (new_buffer_wrapper (frame 8 body)))
      ≡ fails
          (record (new_message_reader (new_buffer_wrapper (frame 8 body))) { buffer = b })
          (checksum_mismatch 8 6))
    × (unread b ≡ body)
read_message_metadata-mismatch_example =
    read_message_metadata-mismatch plain (new_message_reader (new_buffer_wrapper (frame 8 body))) 8
      body (omega arith) (omega arith) refl (omega arith)

read_message_metadata-frame_example :
    (b : Buffer) × (read_message_metadata plain
        (new_message_reader (new_buffer_wrapper (frame 6 body)))
      ≡ replies (record { buffer = b; batched = true; has_properties = false }) (3 ∷ []))
    × IsValid b
    × (unread b ≡ 7 ∷ [])
read_message_metadata-frame_example =
    read_message_metadata-frame plain (new_message_reader (new_buffer_wrapper (frame 6 body)))
      (3 ∷ []) (3 ∷ []) (7 ∷ []) (omega arith) (omega arith) (omega arith) refl refl
