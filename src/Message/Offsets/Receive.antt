-- ===== src/Message/Offsets/Receive.antt =====
-- The subscriber's side of the offset buffers: `UA_NetworkMessage_updateBufferedNwMessage` of
-- openPubSub/ua_pubsub/ua_pubsub_networkmessage.c.
pub mod Gathers
pub mod Fields
pub mod Received
pub mod Sections
pub mod Frame
pub mod Expected
pub mod Whole
pub mod Recorded
pub mod Correct
pub mod Numbered
use open_pub_sub.Base.{
  ℕ, zero, suc, ◌+◌, ◌-◌, ◌==◌, true, List, [], ◌∷◌, Option, none, some, length, drop,
  if◌then◌else◌,
}
use open_pub_sub.Binary.Status.{Status, good, is_good, bad_not_supported}
use open_pub_sub.Binary.Reader.{Read, ok, err, Reader}
use open_pub_sub.Binary.Generated.{
  byte_decode_binary, uint16_decode_binary, uint32_decode_binary, uint64_decode_binary,
}
use open_pub_sub.Binary.VariantCodec.{VariantCodec}
use open_pub_sub.Binary.DataValue.{
  DataValue, init_data_value, variant_decode_binary, data_value_decode_binary,
}
use open_pub_sub.Message.DataSet.{DataSetMessage}
use open_pub_sub.Message.Network.{NetworkMessage, number}
use open_pub_sub.Message.Offsets.{
  Content, network_message_sequence_number, payload_data_value, payload_variant, publisher_id,
  writer_group_id, data_set_writer_id, NetworkMessageOffset,
}

-- Status, value and offset: `landed z offset src result`. After a failure the value is zero and
-- the offset as before.
abbrev pub landed : {A : Type 0} → A → ℕ → List ℕ → Read A → Status × A × ℕ
landed z offset src (ok a rest) = (good, a, length src - length rest)
landed z offset src (err s rest) = (s, z, offset)

-- `UA_decodeBinary(src, &offset, dst, …)`, where `z` is what `memset(dst, 0, …)` makes of `dst`.
unfoldable pub decode_at : {A : Type 0} → Reader A → A → ℕ → List ℕ → Status × A × ℕ
decode_at d z offset src = landed z offset src (d (drop offset src))

-- A round goes on with a status, an offset, the message and the counter of fields, or returns.
pub data Round (V : Type 0) : Type 0 where
  proceed : Status → ℕ → NetworkMessage V → ℕ → Round V
  stop : Status → NetworkMessage V → Round V

module _ {V : Type 0} where
  -- `rv = d; if(rv != UA_STATUSCODE_GOOD) return rv;`: what is decoded is stored, and `done` is what
  -- follows a success.
  abbrev pub checked :
      {A : Type 0}
      → (A → NetworkMessage V)
      → (NetworkMessage V → NetworkMessage V)
      → ℕ
      → Status × A × ℕ
      → Round V
  checked store done counter (s, a, offset) =
      if is_good s then proceed s offset (done (store a)) counter else stop s (store a)

  -- `rv = d;` alone.
  abbrev pub stored : {A : Type 0} → (A → NetworkMessage V) → ℕ → Status × A × ℕ → Round V
  stored store counter (s, a, offset) = proceed s offset (store a) counter

-- `xs[i] = f(xs[i])`. An index behind the end, where C would write outside of the array, changes
-- nothing.
unfoldable pub update_at {ℓ} : {A : Type ℓ} → ℕ → (A → A) → List A → List A
update_at i f [] = []
update_at zero f (x ∷ xs) = f x ∷ xs
update_at (suc i) f (x ∷ xs) = x ∷ update_at i f xs

abbrev pub first_id : ℕ → Option (List ℕ) → Option (List ℕ)
first_id n none = none
first_id n (some ids) = some (update_at 0 (λ _. n) ids)

module _ {V : Type 0} where
  abbrev pub store_publisher_id : NetworkMessage V → ℕ → NetworkMessage V
  store_publisher_id nm n = record nm { publisher_id = number n }

  abbrev pub store_writer_group_id : NetworkMessage V → ℕ → NetworkMessage V
  store_writer_group_id nm n = record nm {
    group_header = record nm.group_header { writer_group_id = n };
  }

  abbrev pub store_sequence_number : NetworkMessage V → ℕ → NetworkMessage V
  store_sequence_number nm n = record nm {
    group_header = record nm.group_header { sequence_number = n };
  }

  abbrev pub store_writer_id : NetworkMessage V → ℕ → NetworkMessage V
  store_writer_id nm n = record nm { data_set_writer_ids = first_id n nm.data_set_writer_ids }

  -- `dsm->data.keyFrameData.dataSetFields[i]`, where `dsm` is the first message.
  abbrev pub store_field : ℕ → (DataValue V → DataValue V) → NetworkMessage V → NetworkMessage V
  store_field i f nm = record nm {
    data_set_messages =
        update_at 0
          (λ (m : DataSetMessage V). record m { data_set_fields = update_at i f m.data_set_fields })
          nm.data_set_messages;
  }

-- `switch(buffer->nm->publisherIdType)`, for a type.
unfoldable pub receive_publisher_id : {V : Type 0} → List ℕ → ℕ → ℕ → NetworkMessage V → ℕ → Round V
receive_publisher_id src offset type nm counter =
    if type == 0
    then stored (store_publisher_id nm) counter (decode_at byte_decode_binary 0 offset src)
    else if type == 1
    then stored (store_publisher_id nm) counter (decode_at uint16_decode_binary 0 offset src)
    else if type == 2
    then stored (store_publisher_id nm) counter (decode_at uint32_decode_binary 0 offset src)
    else if type == 3
    then stored (store_publisher_id nm) counter (decode_at uint64_decode_binary 0 offset src)
    else stop bad_not_supported nm

-- An early return leaves `*bufferPosition`.
abbrev pub after_round :
    {V : Type 0}
    → ℕ
    → Round V
    → (Status → ℕ → NetworkMessage V → ℕ → Status × NetworkMessage V × ℕ)
    → Status × NetworkMessage V × ℕ
after_round position (proceed s offset nm counter) more = more s offset nm counter
after_round position (stop s nm) more = (s, nm, position)

module _ (c : VariantCodec) {S : Type 0} (src : List ℕ) (position : ℕ) where
  -- `switch(buffer->offsets[i].contentType)`
  unfoldable pub receive_one :
      Content S c.Variant → ℕ → NetworkMessage c.Variant → ℕ → Round c.Variant
  receive_one publisher_id offset nm counter =
      receive_publisher_id src offset nm.publisher_id_type nm counter
  receive_one writer_group_id offset nm counter =
      checked (store_writer_group_id nm) (λ m. m) counter
        (decode_at uint16_decode_binary 0 offset src)
  receive_one data_set_writer_id offset nm counter =
      checked (store_writer_id nm) (λ m. m) counter (decode_at uint16_decode_binary 0 offset src)
  receive_one (network_message_sequence_number read) offset nm counter =
      checked (store_sequence_number nm) (λ m. m) counter
        (decode_at uint16_decode_binary 0 offset src)
  receive_one (payload_data_value read) offset nm counter =
      checked (λ v. store_field counter (λ _. v) nm) (λ m. m) (suc counter)
        (decode_at (data_value_decode_binary c) (init_data_value c.empty) offset src)
  receive_one (payload_variant read) offset nm counter =
      checked (λ v. store_field counter (λ field. record field { value = v }) nm)
        (store_field counter (λ field. record field { has_value = true })) (suc counter)
        (decode_at (variant_decode_binary c) c.empty offset src)
  receive_one _ offset nm counter = stop bad_not_supported nm

  -- The loop, with `rv`, `offset`, the message and `payloadCounter`.
  unfoldable pub receive_offsets :
      List (NetworkMessageOffset S c.Variant)
      → Status
      → ℕ
      → NetworkMessage c.Variant
      → ℕ
      → Status × NetworkMessage c.Variant × ℕ
  receive_offsets [] rv offset nm counter = (rv, nm, offset)
  receive_offsets (o ∷ os) rv offset nm counter =
      after_round position (receive_one o.content (o.offset + position) nm counter)
        (λ s offset nm counter. receive_offsets os s offset nm counter)

  -- The status, the message of the buffer, and `*bufferPosition`.
  unfoldable pub update_buffered_nw_message :
      List (NetworkMessageOffset S c.Variant)
      → NetworkMessage c.Variant
      → Status × NetworkMessage c.Variant × ℕ
  update_buffered_nw_message offsets nm = receive_offsets offsets good 0 nm 0
