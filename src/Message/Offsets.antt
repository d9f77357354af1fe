-- ===== src/Message/Offsets.antt =====
-- The offset buffers of the real-time path: `UA_NetworkMessageOffsetBuffer` of
-- openPubSub/ua_pubsub/ua_pubsub_networkmessage.h, and
-- `UA_NetworkMessage_updateBufferedMessage` of openPubSub/ua_pubsub/ua_pubsub_networkmessage.c.
pub mod Memory
pub mod Patches
pub mod Record
pub mod DataSet
pub mod Network
pub mod Update
pub mod Positions
pub mod Correct
pub mod Stale
pub mod Refused
pub mod Receive
use open_pub_sub.Base.{ℕ, List, [], ◌∷◌, ◌++◌, take, drop, Option, none, some}
use open_pub_sub.Binary.Status.{Status, good, bad_not_supported}
use open_pub_sub.Binary.Writer.{Encoder}
use open_pub_sub.Binary.Generated.{uint16_encode_binary}
use open_pub_sub.Binary.VariantCodec.{VariantCodec}
use open_pub_sub.Binary.DataValue.{DataValue, variant_encode_binary, data_value_encode_binary}

-- `UA_NetworkMessageOffsetType`, with the pointer to the value where one is recorded. A pointer into
-- the memory `S` is the function that reads there.
pub data Content (S V : Type 0) : Type 0 where
  data_set_message_sequence_number : (S → ℕ) → Content S V
  network_message_sequence_number : (S → ℕ) → Content S V
  timestamp_picoseconds : Content S V
  timestamp : Content S V
  timestamp_now : Content S V
  payload_data_value : (S → DataValue V) → Content S V
  payload_variant : (S → V) → Content S V
  payload_raw : Content S V
  publisher_id : Content S V
  writer_group_id : Content S V
  data_set_writer_id : Content S V

pub record NetworkMessageOffset (S V : Type 0) : Type 0 where
  pub content : Content S V
  pub offset : ℕ

-- One encoder started at `offsets[i].offset` of the message buffer.
unfoldable pub encode_at : Encoder → ℕ → List ℕ → Status × List ℕ
encode_at e offset bytes =
    let (s, b) = e (record { before = take offset bytes; after = drop offset bytes }) in
    (s, b.before ++ b.after)

-- One round of the loop, and the rounds behind it unless the content is not supported.
unfoldable pub update_one :
    Option Encoder → ℕ → List ℕ → (Status → List ℕ → Status × List ℕ) → Status × List ℕ
update_one none offset bytes rest = (bad_not_supported, bytes)
update_one (some e) offset bytes rest = let (s, bs) = encode_at e offset bytes in rest s bs

module _ (c : VariantCodec) {S : Type 0} (memory : S) where
  -- `switch(buffer->offsets[i].contentType)`
  unfoldable pub encoder_of : Content S c.Variant → Option Encoder
  encoder_of (data_set_message_sequence_number read) = some (uint16_encode_binary (read memory))
  encoder_of (network_message_sequence_number read) = some (uint16_encode_binary (read memory))
  encoder_of (payload_data_value read) = some (data_value_encode_binary c (read memory))
  encoder_of (payload_variant read) = some (variant_encode_binary c (read memory))
  encoder_of _ = none

  -- `for(i = 0; i < buffer->offsetsSize; ++i)`, with the status of the previous round, which the
  -- status of a round replaces.
  unfoldable pub update_offsets :
      Status → List (NetworkMessageOffset S c.Variant) → List ℕ → Status × List ℕ
  update_offsets rv [] bytes = (rv, bytes)
  update_offsets rv (o ∷ os) bytes =
      update_one (encoder_of o.content) o.offset bytes (λ s bs. update_offsets s os bs)

  unfoldable pub update_buffered_message :
      List (NetworkMessageOffset S c.Variant) → List ℕ → Status × List ℕ
  update_buffered_message offsets bytes = update_offsets good offsets bytes
