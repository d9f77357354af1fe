-- ===== src/Message/Offsets/Receive/Frame.antt =====
-- The first message of a NetworkMessage, read into the fields of the buffer's message.
use open_pub_sub.Base.{
  transport, ℕ, ◌≤◌, ◌≡◌, refl, false, List, [], ◌++◌, take_counted, length, All, arith,
}
use open_pub_sub.Binary.Scalars.{encode16}
use open_pub_sub.Binary.Scalars.Laws.{length-encode16}
use open_pub_sub.Binary.Parts.{add_if}
use open_pub_sub.Binary.Each.{concat}
use open_pub_sub.Binary.VariantCodec.{VariantCodec}
use open_pub_sub.Message.Offsets.Memory.{VariantMemory, Place}
use open_pub_sub.Message.FieldEncoding
use open_pub_sub.Message.DataSetMessageType
use open_pub_sub.Message.Header.Size.{header_encoding}
use open_pub_sub.Message.DataSet.{DataSetMessage}
use open_pub_sub.Message.DataSet.Fits.{VariantFits, key_field_encoding, data_set_message_encoding}
use open_pub_sub.Message.DataSet.Laws.{calc_size_message_header_lem}
use open_pub_sub.Message.Network.{NetworkMessage}
use open_pub_sub.Message.Offsets.DataSet.{key_body}
use open_pub_sub.Message.Offsets.Record.{
  record_key_frame, record_sequence_nr, record_data_set_message,
}
use open_pub_sub.Message.Offsets.Receive.Fields.{with_fields, received_fields, fields-Gathers}
use open_pub_sub.Message.Offsets.Receive.Gathers.{
  Gathers, skip-Gathers, ++-Gathers, Gathers-eq, Gathers-states,
}

-- A key frame of variants without a sequence number, whose array is as long as its count says.
pub record KeyFrame (c : VariantCodec) (d : DataSetMessage c.Variant) : Type 0 where
  pub is_key_frame : d.header.data_set_message_type ≡ DataSetMessageType.data_key_frame
  pub of_variants : d.header.field_encoding ≡ FieldEncoding.variant
  pub unnumbered : d.header.data_set_message_sequence_nr_enabled ≡ false
  pub counted : d.field_count ≡ length d.data_set_fields
  pub values_fit : All (VariantFits c) d.data_set_fields

module _ (c : VariantCodec) (vm : VariantMemory c) {S : Type 0} (at : Place c vm S) (position : ℕ)
    (nm : NetworkMessage c.Variant) (t : DataSetMessage c.Variant)
    (ts : List (DataSetMessage c.Variant)) (d : DataSetMessage c.Variant) (k : KeyFrame c d)
    (room : length d.data_set_fields ≤ length t.data_set_fields) where
  abbrev start : NetworkMessage c.Variant
  start = with_fields c nm t ts t.data_set_fields

  key_frame-Gathers :
      Gathers c position
        (record_key_frame c vm at d)
        (encode16 d.field_count ++ concat (key_field_encoding c) d.data_set_fields)
        start
        0
        (with_fields c nm t ts (received_fields c t.data_set_fields d.data_set_fields))
        (length d.data_set_fields)
  unfolding record_key_frame add_if
  key_frame-Gathers =
      Gathers-eq c position
        (λ place. rw (k.of_variants, take_counted k.counted, length-encode16 d.field_count) refl)
        (++-Gathers c position (skip-Gathers c position (encode16 d.field_count) start 0) (
          Gathers-states c position refl refl refl (omega arith) (
            fields-Gathers c vm at position nm t ts 0 [] t.data_set_fields d.data_set_fields room
              k.values_fit)))

  pub message-Gathers :
      Gathers c position
        (record_data_set_message c vm at d)
        (data_set_message_encoding c d)
        start
        0
        (with_fields c nm t ts (received_fields c t.data_set_fields d.data_set_fields))
        (length d.data_set_fields)
  unfolding record_data_set_message record_sequence_nr
  message-Gathers =
      transport
        (λ i.
          Gathers c position (record_data_set_message c vm at d)
            (header_encoding d.header ++ key_body c vm d k.is_key_frame k.of_variants i) start 0
            (with_fields c nm t ts (received_fields c t.data_set_fields d.data_set_fields))
            (length d.data_set_fields))
        (Gathers-eq c position
          (λ place.
            simp (k.unnumbered, k.is_key_frame, calc_size_message_header_lem d.header place) refl)
          (++-Gathers c position (skip-Gathers c position (header_encoding d.header) start 0)
            key_frame-Gathers))
