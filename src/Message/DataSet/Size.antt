-- ===== src/Message/DataSet/Size.antt =====
-- `UA_DataSetMessage_calcSizeBinary` without an offset buffer.
use open_pub_sub.Base.{ℕ, ◌+◌, ◌==◌, not, take, if◌then◌else◌}
use open_pub_sub.Binary.Scalars.{
  calc_size_binary1, calc_size_binary2, calc_size_binary4, calc_size_binary8,
}
use open_pub_sub.Binary.Parts.{add_if}
use open_pub_sub.Binary.Each.{sum}
use open_pub_sub.Binary.VariantCodec.{VariantCodec}
use open_pub_sub.Binary.DataValue.{DataValue, calc_size_data_value}
use open_pub_sub.Message.FieldEncoding
use open_pub_sub.Message.DataSetMessageType
use open_pub_sub.Message.Header.{DataSetMessageHeader, data_set_flags2_enabled}
use open_pub_sub.Message.DataSet.{DataSetMessage, DeltaFrameField}

-- The header's part of the sum, counted from `size` on.
unfoldable pub calc_size_message_header : DataSetMessageHeader → ℕ → ℕ
calc_size_message_header header size =
    add_if header.config_version_minor_version_enabled calc_size_binary4 (
      add_if header.config_version_major_version_enabled calc_size_binary4 (
        add_if header.status_enabled calc_size_binary2 (
          add_if header.pico_seconds_included calc_size_binary2 (
            add_if header.timestamp_enabled calc_size_binary8 (
              add_if header.data_set_message_sequence_nr_enabled calc_size_binary2 (
                add_if (data_set_flags2_enabled header) calc_size_binary1
                  (size + calc_size_binary1)))))))

module _ (c : VariantCodec) where
  abbrev pub calc_size_key_field : DataValue c.Variant → ℕ
  calc_size_key_field field = c.calc_size field.value

  abbrev pub calc_size_delta_variant : DeltaFrameField c.Variant → ℕ
  calc_size_delta_variant field = calc_size_binary2 + c.calc_size field.field_value.value

  abbrev pub calc_size_delta_data_value : DeltaFrameField c.Variant → ℕ
  calc_size_delta_data_value field = calc_size_binary2 + calc_size_data_value c field.field_value

  unfoldable pub calc_size_key_frame : DataSetMessage c.Variant → ℕ → ℕ
  calc_size_key_frame p size =
      let fields = take p.field_count p.data_set_fields in
      let counted =
        add_if (not (p.header.field_encoding == FieldEncoding.raw_data)) calc_size_binary2 size in
      if p.header.field_encoding == FieldEncoding.variant
      then counted + sum calc_size_key_field fields
      else if p.header.field_encoding == FieldEncoding.raw_data
      then counted
      else add_if (p.header.field_encoding == FieldEncoding.data_value)
          (sum (calc_size_data_value c) fields) counted

  unfoldable pub calc_size_delta_frame : DataSetMessage c.Variant → ℕ → ℕ
  calc_size_delta_frame p size =
      let fields = take p.field_count p.delta_frame_fields in
      let counted =
        add_if (not (p.header.field_encoding == FieldEncoding.raw_data)) calc_size_binary2 size in
      if p.header.field_encoding == FieldEncoding.variant
      then counted + sum calc_size_delta_variant fields
      else if p.header.field_encoding == FieldEncoding.raw_data
      then counted
      else add_if (p.header.field_encoding == FieldEncoding.data_value)
          (sum calc_size_delta_data_value fields) counted

  unfoldable pub calc_size_data_set_message : DataSetMessage c.Variant → ℕ → ℕ
  calc_size_data_set_message p current_offset =
      let size = calc_size_message_header p.header current_offset in
      if p.header.data_set_message_type == DataSetMessageType.data_key_frame
      then calc_size_key_frame p size
      else if p.header.data_set_message_type == DataSetMessageType.data_delta_frame
      then calc_size_delta_frame p size
      else size
