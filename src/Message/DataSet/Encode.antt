-- ===== src/Message/DataSet/Encode.antt =====
-- `UA_DataSetMessage_encodeBinary`.
use open_pub_sub.Base.{◌==◌, not, take, if◌then◌else◌}
use open_pub_sub.Binary.Status.{bad_not_implemented}
use open_pub_sub.Binary.Writer.{Encoder, fail, ◌>>◌, when}
use open_pub_sub.Binary.Generated.{uint16_encode_binary}
use open_pub_sub.Binary.Each.{encode_each}
use open_pub_sub.Binary.VariantCodec.{VariantCodec}
use open_pub_sub.Binary.DataValue.{DataValue, data_value_encode_binary, variant_encode_binary}
use open_pub_sub.Message.FieldEncoding
use open_pub_sub.Message.DataSetMessageType
use open_pub_sub.Message.Header.Encode.{encode_header}
use open_pub_sub.Message.DataSet.{DataSetMessage, DeltaFrameField}

module _ (c : VariantCodec) where
  unfoldable pub encode_key_field : DataValue c.Variant → Encoder
  encode_key_field field = variant_encode_binary c field.value

  unfoldable pub encode_key_frame : DataSetMessage c.Variant → Encoder
  encode_key_frame src =
      let fields = take src.field_count src.data_set_fields in
      when (not (src.header.field_encoding == FieldEncoding.raw_data))
        (uint16_encode_binary src.field_count)
      >> (if src.header.field_encoding == FieldEncoding.variant
          then encode_each encode_key_field fields
          else if src.header.field_encoding == FieldEncoding.raw_data
          then fail bad_not_implemented
          else when (src.header.field_encoding == FieldEncoding.data_value)
              (encode_each (data_value_encode_binary c) fields))

  unfoldable pub encode_delta_variant : DeltaFrameField c.Variant → Encoder
  encode_delta_variant field =
      uint16_encode_binary field.field_index >> variant_encode_binary c field.field_value.value

  unfoldable pub encode_delta_data_value : DeltaFrameField c.Variant → Encoder
  encode_delta_data_value field =
      uint16_encode_binary field.field_index >> data_value_encode_binary c field.field_value

  unfoldable pub encode_delta_frame : DataSetMessage c.Variant → Encoder
  encode_delta_frame src =
      let fields = take src.field_count src.delta_frame_fields in
      uint16_encode_binary src.field_count
      >> (if src.header.field_encoding == FieldEncoding.variant
          then encode_each encode_delta_variant fields
          else if src.header.field_encoding == FieldEncoding.raw_data
          then fail bad_not_implemented
          else when (src.header.field_encoding == FieldEncoding.data_value)
              (encode_each encode_delta_data_value fields))

  unfoldable pub encode_data_set_message : DataSetMessage c.Variant → Encoder
  encode_data_set_message src =
      encode_header src.header
      >> (if src.header.data_set_message_type == DataSetMessageType.data_key_frame
          then encode_key_frame src
          else if src.header.data_set_message_type == DataSetMessageType.data_delta_frame
          then encode_delta_frame src
          else when (not (src.header.data_set_message_type == DataSetMessageType.keep_alive))
              (fail bad_not_implemented))
