-- ===== src/Frames.antt =====
-- The reader of frames, `MessageReader` of pulsar-client-go/pulsar/internal/commands.go, on the
-- buffer of internal/buffer.go. The code that protoc generates and the CRC-32C are parameters.
pub mod Single
pub mod Metadata
mod Tests
use pr.Base.{Bool, Option, [], false, if◌then◌else◌, ltb, none, not, some, ℕ, ◌&&◌, ◌==◌, ◌||◌}
use pr.Buffer.{
  Bytes, Buffer, readable_bytes, capacity, readable_slice, read, skip, get, or_empty, from_be16,
  read_uint16, read_uint32,
}

-- What the reader uses of the generated messages, and `Crc32cCheckSum`.
pub record Protocol : Type 1 where
  pub MessageMetadata : Type 0
  pub SingleMessageMetadata : Type 0
  pub BrokerEntryMetadata : Type 0
  pub unmarshal_metadata : Bytes → Option MessageMetadata
  pub unmarshal_single : Bytes → Option SingleMessageMetadata
  pub unmarshal_broker : Bytes → Option BrokerEntryMetadata
  pub has_num_messages : MessageMetadata → Bool
  pub has_properties : MessageMetadata → Bool
  -- `uint32(meta.GetPayloadSize())`
  pub payload_size : SingleMessageMetadata → ℕ
  pub crc32c : Bytes → ℕ

pub record MessageReader : Type 0 where
  pub buffer : Buffer
  pub batched : Bool
  pub has_properties : Bool

abbrev pub new_message_reader : Buffer → MessageReader
new_message_reader b = record { buffer = b; batched = false; has_properties = false }

abbrev pub reset_buffer : MessageReader → Buffer → MessageReader
reset_buffer r b = record r { buffer = b }

pub data ReadError : Type 0 where
  missing_header corrupted_message end_of_messages unmarshal_error : ReadError
  checksum_mismatch : ℕ → ℕ → ReadError

-- How a method ends, with the reader that it leaves.
pub data Reply (A : Type 0) : Type 0 where
  panics : Reply A
  fails : MessageReader → ReadError → Reply A
  replies : MessageReader → A → Reply A

abbrev pub magic_crc32c : ℕ
magic_crc32c = 3585

abbrev pub magic_broker_entry_metadata : ℕ
magic_broker_entry_metadata = 3586

unfoldable pub read_checksum : MessageReader → Reply ℕ
read_checksum r =
    if ltb (readable_bytes r.buffer) 6
    then fails r missing_header
    else elim (read_uint16 r.buffer) [
      | none ↦ panics
      | some (b, magic) ↦
          if magic == magic_crc32c
          then elim (read_uint32 b) [
            | none ↦ panics
            | some (b', checksum) ↦ replies (record r { buffer = b' }) checksum
          ]
          else fails (record r { buffer = b }) corrupted_message
    ]

-- A size and as many bytes; a nil slice counts as no bytes.
unfoldable pub read_sized : Buffer → Option (Buffer × Bytes)
read_sized b = elim (read_uint32 b) [
  | none ↦ none
  | some (b', size) ↦ elim (read b' size) [
    | none ↦ none
    | some (b'', data') ↦ some (b'', or_empty data')
  ]
]

module _ (p : Protocol) where
  -- Behind the checksum: the metadata, which sets the reader's flags.
  unfoldable pub parse_metadata : MessageReader → Reply p.MessageMetadata
  parse_metadata r = elim (read_sized r.buffer) [
    | none ↦ panics
    | some (b, s) ↦ elim (p.unmarshal_metadata s) [
      | none ↦ fails (record r { buffer = b }) corrupted_message
      | some meta ↦
          replies
            (record {
              buffer = b;
              batched = r.batched || p.has_num_messages meta;
              has_properties = r.has_properties || p.has_properties meta;
            })
            meta
    ]
  ]

  unfoldable pub read_message_metadata : MessageReader → Reply p.MessageMetadata
  read_message_metadata r = elim (read_checksum r) [
    | panics ↦ panics
    | fails r' e ↦ fails r' e
    | replies r' checksum ↦ elim (readable_slice r'.buffer) [
      | none ↦ panics
      | some s ↦
          if checksum == p.crc32c s
          then parse_metadata r'
          else fails r' (checksum_mismatch checksum (p.crc32c s))
    ]
  ]

  -- Behind the magic number of the broker's metadata.
  unfoldable pub parse_broker_metadata : MessageReader → Reply (Option p.BrokerEntryMetadata)
  parse_broker_metadata r = elim (read_sized (skip r.buffer 2)) [
    | none ↦ panics
    | some (b, s) ↦ elim (p.unmarshal_broker s) [
      | none ↦ fails (record r { buffer = b }) unmarshal_error
      | some meta ↦ replies (record r { buffer = b }) (some meta)
    ]
  ]

  unfoldable pub read_broker_metadata : MessageReader → Reply (Option p.BrokerEntryMetadata)
  read_broker_metadata r = elim (get r.buffer r.buffer.reader_idx 2) [
    | none ↦ panics
    | some s ↦ elim (from_be16 s) [
      | none ↦ panics
      | some magic ↦
          if magic == magic_broker_entry_metadata then parse_broker_metadata r else replies r none
    ]
  ]

  -- The payload is nil when too much is asked for.
  unfoldable pub read_payload :
      MessageReader → Reply (Option p.SingleMessageMetadata × Option Bytes)
  read_payload r = elim (read r.buffer (readable_bytes r.buffer)) [
    | none ↦ panics
    | some (b, s) ↦ replies (record r { buffer = b }) (none, s)
  ]

  unfoldable pub read_single_message :
      MessageReader → Reply (Option p.SingleMessageMetadata × Option Bytes)
  read_single_message r = elim (read_sized r.buffer) [
    | none ↦ panics
    | some (b, s) ↦ elim (p.unmarshal_single s) [
      | none ↦ fails (record r { buffer = b }) unmarshal_error
      | some meta ↦ elim (read b (p.payload_size meta)) [
        | none ↦ panics
        | some (b', payload) ↦ replies (record r { buffer = b' }) (some meta, payload)
      ]
    ]
  ]

  unfoldable pub read_message :
      MessageReader → Reply (Option p.SingleMessageMetadata × Option Bytes)
  unfolding read_payload read_single_message
  read_message r =
      if readable_bytes r.buffer == 0 && ltb 0 (capacity r.buffer)
      then (if not r.batched && r.has_properties
          then replies r (none, some [])
          else fails r end_of_messages)
      else if not r.batched
      then read_payload r
      else read_single_message r
