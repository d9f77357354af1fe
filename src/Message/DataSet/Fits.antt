-- ===== src/Message/DataSet/Fits.antt =====
-- The DataSetMessages that have an encoding, and their bytes.
use open_pub_sub.Base.{ℕ, ◌<◌, ◌^◌, ◌==◌, ◌≡◌, List, [], ◌++◌, length, All, if◌then◌else◌}
use open_pub_sub.Binary.Scalars.{encode16}
use open_pub_sub.Binary.Each.{concat}
use open_pub_sub.Binary.VariantCodec.{VariantCodec}
use open_pub_sub.Binary.DataValue.{DataValue}
use open_pub_sub.Binary.DataValue.Laws.{DataValueFits, data_value_encoding}
use open_pub_sub.Message.FieldEncoding
use open_pub_sub.Message.DataSetMessageType
use open_pub_sub.Message.Header.Size.{header_encoding}
use open_pub_sub.Message.Header.RoundTrip.{HeaderFits}
use open_pub_sub.Message.DataSet.{DataSetMessage, DeltaFrameField}

module _ (c : VariantCodec) where
  pub record VariantFits (v : DataValue c.Variant) : Type 0 where
    pub fits : c.Fits v.value

  pub record IndexedVariantFits (d : DeltaFrameField c.Variant) : Type 0 where
    pub index_range : d.field_index < 2 ^ 16
    pub fits : c.Fits d.field_value.value

  pub record IndexedFits (d : DeltaFrameField c.Variant) : Type 0 where
    pub index_range : d.field_index < 2 ^ 16
    pub fits : DataValueFits c d.field_value

  -- The bodies that have an encoding: the array is as long as the count says.
  pub data BodyFits (m : DataSetMessage c.Variant) : Type 0 where
    key_variants :
        m.header.data_set_message_type ≡ DataSetMessageType.data_key_frame
        → m.header.field_encoding ≡ FieldEncoding.variant
        → m.field_count ≡ length m.data_set_fields
        → All VariantFits m.data_set_fields
        → BodyFits m
    key_data_values :
        m.header.data_set_message_type ≡ DataSetMessageType.data_key_frame
        → m.header.field_encoding ≡ FieldEncoding.data_value
        → m.field_count ≡ length m.data_set_fields
        → All (DataValueFits c) m.data_set_fields
        → BodyFits m
    delta_variants :
        m.header.data_set_message_type ≡ DataSetMessageType.data_delta_frame
        → m.header.field_encoding ≡ FieldEncoding.variant
        → m.field_count ≡ length m.delta_frame_fields
        → All IndexedVariantFits m.delta_frame_fields
        → BodyFits m
    delta_data_values :
        m.header.data_set_message_type ≡ DataSetMessageType.data_delta_frame
        → m.header.field_encoding ≡ FieldEncoding.data_value
        → m.field_count ≡ length m.delta_frame_fields
        → All IndexedFits m.delta_frame_fields
        → BodyFits m
    keep_alive : m.header.data_set_message_type ≡ DataSetMessageType.keep_alive → BodyFits m

  pub record DataSetMessageFits (m : DataSetMessage c.Variant) : Type 0 where
    pub header_fits : HeaderFits m.header
    pub count_range : m.field_count < 2 ^ 16
    pub body_fits : BodyFits m

  abbrev pub key_field_encoding : DataValue c.Variant → List ℕ
  key_field_encoding v = c.encoding v.value

  abbrev pub delta_variant_encoding : DeltaFrameField c.Variant → List ℕ
  delta_variant_encoding d = encode16 d.field_index ++ c.encoding d.field_value.value

  abbrev pub delta_data_value_encoding : DeltaFrameField c.Variant → List ℕ
  delta_data_value_encoding d = encode16 d.field_index ++ data_value_encoding c d.field_value

  -- The bytes behind the header of a message that fits.
  unfoldable pub body_encoding : DataSetMessage c.Variant → List ℕ
  body_encoding m =
      if m.header.data_set_message_type == DataSetMessageType.data_key_frame
      then encode16 m.field_count
        ++ (if m.header.field_encoding == FieldEncoding.variant
            then concat key_field_encoding m.data_set_fields
            else concat (data_value_encoding c) m.data_set_fields)
      else if m.header.data_set_message_type == DataSetMessageType.data_delta_frame
      then encode16 m.field_count
        ++ (if m.header.field_encoding == FieldEncoding.variant
            then concat delta_variant_encoding m.delta_frame_fields
            else concat delta_data_value_encoding m.delta_frame_fields)
      else []

  abbrev pub data_set_message_encoding : DataSetMessage c.Variant → List ℕ
  data_set_message_encoding m = header_encoding m.header ++ body_encoding m
