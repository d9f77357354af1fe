-- ===== src/Message/DataSet/Decode.antt =====
-- `UA_DataSetMessage_decodeBinary`.
use open_pub_sub.Base.{ℕ, ◌==◌, true, List, [], if◌then◌else◌}
use open_pub_sub.Binary.Status.{bad_not_implemented}
use open_pub_sub.Binary.Reader.{Reader, pure, fail, ◌>>=◌}
use open_pub_sub.Binary.Generated.{uint16_decode_binary}
use open_pub_sub.Binary.Each.{decode_each}
use open_pub_sub.Binary.VariantCodec.{VariantCodec}
use open_pub_sub.Binary.DataValue.{
  DataValue, init_data_value, data_value_decode_binary, variant_decode_binary,
}
use open_pub_sub.Message.FieldEncoding
use open_pub_sub.Message.DataSetMessageType
use open_pub_sub.Message.Header.{DataSetMessageHeader}
use open_pub_sub.Message.Header.Decode.{decode_header}
use open_pub_sub.Message.DataSet.{DataSetMessage, DeltaFrameField}

module _ (c : VariantCodec) where
  -- `UA_DataValue_init(field); … field->value = v; field->hasValue = true;`
  abbrev pub value_field : c.Variant → DataValue c.Variant
  value_field v = record (init_data_value v) { has_value = true }

  unfoldable pub decode_key_field : Reader (DataValue c.Variant)
  decode_key_field = variant_decode_binary c >>= λ v. pure (value_field v)

  abbrev pub key_frame :
      DataSetMessageHeader → ℕ → List (DataValue c.Variant) → DataSetMessage c.Variant
  key_frame header count fields = record {
    header = header;
    field_count = count;
    data_set_fields = fields;
    delta_frame_fields = [];
  }

  -- Fields in an encoding that has no name are not read: the count stays without an array.
  unfoldable pub decode_key_fields : DataSetMessageHeader → ℕ → Reader (DataSetMessage c.Variant)
  decode_key_fields header count =
      if header.field_encoding == FieldEncoding.variant
      then decode_each decode_key_field count >>= (λ fields. pure (key_frame header count fields))
      else if header.field_encoding == FieldEncoding.data_value
      then decode_each (data_value_decode_binary c) count
        >>= (λ fields. pure (key_frame header count fields))
      else pure (key_frame header count [])

  unfoldable pub decode_key_frame : DataSetMessageHeader → Reader (DataSetMessage c.Variant)
  decode_key_frame header =
      if header.field_encoding == FieldEncoding.raw_data
      then pure (key_frame header 0 [])
      else uint16_decode_binary >>= decode_key_fields header

  unfoldable pub decode_delta_variant : Reader (DeltaFrameField c.Variant)
  decode_delta_variant = do
    index ← uint16_decode_binary
    v ← variant_decode_binary c
    pure (record { field_index = index; field_value = value_field v })

  unfoldable pub decode_delta_data_value : Reader (DeltaFrameField c.Variant)
  decode_delta_data_value = do
    index ← uint16_decode_binary
    v ← data_value_decode_binary c
    pure (record { field_index = index; field_value = v })

  abbrev pub delta_frame :
      DataSetMessageHeader → ℕ → List (DeltaFrameField c.Variant) → DataSetMessage c.Variant
  delta_frame header count fields = record {
    header = header;
    field_count = count;
    data_set_fields = [];
    delta_frame_fields = fields;
  }

  unfoldable pub decode_delta_fields : DataSetMessageHeader → ℕ → Reader (DataSetMessage c.Variant)
  decode_delta_fields header count =
      if header.field_encoding == FieldEncoding.variant
      then decode_each decode_delta_variant count
        >>= (λ fields. pure (delta_frame header count fields))
      else if header.field_encoding == FieldEncoding.data_value
      then decode_each decode_delta_data_value count
        >>= (λ fields. pure (delta_frame header count fields))
      else pure (delta_frame header count [])

  unfoldable pub decode_delta_frame : DataSetMessageHeader → Reader (DataSetMessage c.Variant)
  decode_delta_frame header =
      if header.field_encoding == FieldEncoding.raw_data
      then pure (delta_frame header 0 [])
      else uint16_decode_binary >>= decode_delta_fields header

  unfoldable pub decode_frame : DataSetMessageHeader → Reader (DataSetMessage c.Variant)
  decode_frame header =
      if header.data_set_message_type == DataSetMessageType.data_key_frame
      then decode_key_frame header
      else if header.data_set_message_type == DataSetMessageType.data_delta_frame
      then decode_delta_frame header
      else if header.data_set_message_type == DataSetMessageType.keep_alive
      then pure (key_frame header 0 [])
      else fail bad_not_implemented

  unfoldable pub decode_data_set_message : Reader (DataSetMessage c.Variant)
  decode_data_set_message = decode_header >>= decode_frame
