-- ===== src/Message/DataSet/Laws.antt =====
-- What `UA_DataSetMessage_encodeBinary` writes, and that `UA_DataSetMessage_calcSizeBinary` is its
-- length.
use open_pub_sub.Base.{
  take_counted, ℕ, ◌+◌, ◌==◌, ◌≡◌, ◌∙◌, List, ◌++◌, length, not, if◌then◌else◌, length-append,
  arith,
}
use open_pub_sub.Binary.Status.{bad_not_implemented}
use open_pub_sub.Binary.Writer.{when, fail}
use open_pub_sub.Binary.Writer.Writes.{Writes, >>-Writes, done-Writes}
use open_pub_sub.Binary.Scalars.{encode16}
use open_pub_sub.Binary.Scalars.Laws.{length-encode16}
use open_pub_sub.Binary.Generated.Laws.{uint16_encode_binary-Writes}
use open_pub_sub.Binary.Parts.{add_if, sums}
use open_pub_sub.Binary.Each.{each-Writes, length-concat}
use open_pub_sub.Binary.VariantCodec.{VariantCodec}
use open_pub_sub.Binary.DataValue.{DataValue, data_value_encode_binary}
use open_pub_sub.Binary.DataValue.Laws.{
  DataValueFits, data_value_encoding, variant_encode_binary-Writes, data_value_encode_binary-Writes,
  length-data_value_encoding,
}
use open_pub_sub.Message.DataSetMessageType
use open_pub_sub.Message.Header.{DataSetMessageHeader}
use open_pub_sub.Message.Header.Size.{
  calc_size_header, header_encoding, header-Writes, length-header_encoding,
}
use open_pub_sub.Message.DataSet.{DataSetMessage, DeltaFrameField}
use open_pub_sub.Message.DataSet.Encode.{
  encode_key_field, encode_key_frame, encode_delta_variant, encode_delta_data_value,
  encode_delta_frame, encode_data_set_message,
}
use open_pub_sub.Message.DataSet.Size.{
  calc_size_message_header, calc_size_delta_variant, calc_size_delta_data_value,
  calc_size_key_frame, calc_size_delta_frame, calc_size_data_set_message,
}
use open_pub_sub.Message.DataSet.Fits.{
  VariantFits, IndexedVariantFits, IndexedFits, BodyFits, key_variants, key_data_values,
  delta_variants, delta_data_values, keep_alive, DataSetMessageFits, key_field_encoding,
  delta_variant_encoding, delta_data_value_encoding, body_encoding, data_set_message_encoding,
}

-- The size of the header, counted from an offset on.
pub calc_size_message_header_lem :
    (h : DataSetMessageHeader) (size : ℕ)
    → calc_size_message_header h size ≡ size + length (header_encoding h)
unfolding calc_size_message_header calc_size_header
calc_size_message_header_lem h size = rw (length-header_encoding h) (simp sums (omega arith))

module _ (c : VariantCodec) where
  key_field-Writes :
      (v : DataValue c.Variant)
      → VariantFits c v
      → Writes (encode_key_field c v) (key_field_encoding c v)
  unfolding encode_key_field
  key_field-Writes v f = variant_encode_binary-Writes c v.value f.fits

  delta_variant-Writes :
      (d : DeltaFrameField c.Variant)
      → IndexedVariantFits c d
      → Writes (encode_delta_variant c d) (delta_variant_encoding c d)
  unfolding encode_delta_variant
  delta_variant-Writes d f =
      >>-Writes (uint16_encode_binary-Writes _) (variant_encode_binary-Writes c _ f.fits)

  delta_data_value-Writes :
      (d : DeltaFrameField c.Variant)
      → IndexedFits c d
      → Writes (encode_delta_data_value c d) (delta_data_value_encoding c d)
  unfolding encode_delta_data_value
  delta_data_value-Writes d f =
      >>-Writes (uint16_encode_binary-Writes _) (data_value_encode_binary-Writes c _ f.fits)

  data_value-Writes :
      (v : DataValue c.Variant)
      → DataValueFits c v
      → Writes (data_value_encode_binary c v) (data_value_encoding c v)
  data_value-Writes v f = data_value_encode_binary-Writes c v f

  body-Writes :
      (m : DataSetMessage c.Variant)
      → BodyFits c m
      → Writes
          (if m.header.data_set_message_type == DataSetMessageType.data_key_frame
            then encode_key_frame c m
            else if m.header.data_set_message_type == DataSetMessageType.data_delta_frame
            then encode_delta_frame c m
            else when
                (not (m.header.data_set_message_type == DataSetMessageType.keep_alive))
                (fail bad_not_implemented))
          (body_encoding c m)
  unfolding encode_key_frame encode_delta_frame body_encoding when
  body-Writes m (key_variants t e n fs) =
      rw (t, e, take_counted n)
        (>>-Writes (uint16_encode_binary-Writes _) (each-Writes _ _ _ key_field-Writes fs))
  body-Writes m (key_data_values t e n fs) =
      rw (t, e, take_counted n)
        (>>-Writes (uint16_encode_binary-Writes _) (each-Writes _ _ _ data_value-Writes fs))
  body-Writes m (delta_variants t e n fs) =
      rw (t, e, take_counted n)
        (>>-Writes (uint16_encode_binary-Writes _) (each-Writes _ _ _ delta_variant-Writes fs))
  body-Writes m (delta_data_values t e n fs) =
      rw (t, e, take_counted n)
        (>>-Writes (uint16_encode_binary-Writes _) (each-Writes _ _ _ delta_data_value-Writes fs))
  body-Writes m (keep_alive t) = rw t done-Writes

  pub data_set_message-Writes :
      (m : DataSetMessage c.Variant)
      → DataSetMessageFits c m
      → Writes (encode_data_set_message c m) (data_set_message_encoding c m)
  unfolding encode_data_set_message
  data_set_message-Writes m f = >>-Writes (header-Writes m.header) (body-Writes m f.body_fits)

  length-delta_variant :
      (d : DeltaFrameField c.Variant)
      → IndexedVariantFits c d
      → length (delta_variant_encoding c d) ≡ calc_size_delta_variant c d
  length-delta_variant d g = omega (
    arith,
    length-append (encode16 d.field_index) (c.encoding d.field_value.value),
    length-encode16 d.field_index,
    c.length-encoding _ g.fits,
  )

  length-delta_data_value :
      (d : DeltaFrameField c.Variant)
      → IndexedFits c d
      → length (delta_data_value_encoding c d) ≡ calc_size_delta_data_value c d
  length-delta_data_value d g = omega (
    arith,
    length-append (encode16 d.field_index) (data_value_encoding c d.field_value),
    length-encode16 d.field_index,
    length-data_value_encoding c d.field_value g.fits,
  )

  counted_size :
      (n size : ℕ) (bs : List ℕ) {s : ℕ}
      → length bs ≡ s
      → size + 2 + s ≡ size + length (encode16 n ++ bs)
  counted_size n size bs e = omega (arith, length-append (encode16 n) bs, length-encode16 n, e)

  body_size :
      (m : DataSetMessage c.Variant) (size : ℕ)
      → BodyFits c m
      → (if m.header.data_set_message_type == DataSetMessageType.data_key_frame
          then calc_size_key_frame c m size
          else if m.header.data_set_message_type == DataSetMessageType.data_delta_frame
          then calc_size_delta_frame c m size
          else size)
        ≡ size + length (body_encoding c m)
  unfolding calc_size_key_frame calc_size_delta_frame body_encoding add_if
  body_size m size (key_variants t e n fs) =
      rw (t, e, take_counted n)
        (counted_size m.field_count size _
          (length-concat _ _ _ (λ v g. c.length-encoding _ g.fits) fs))
  body_size m size (key_data_values t e n fs) =
      rw (t, e, take_counted n)
        (counted_size m.field_count size _
          (length-concat _ _ _ (λ v g. length-data_value_encoding c v g) fs))
  body_size m size (delta_variants t e n fs) =
      rw (t, e, take_counted n)
        (counted_size m.field_count size _ (length-concat _ _ _ length-delta_variant fs))
  body_size m size (delta_data_values t e n fs) =
      rw (t, e, take_counted n)
        (counted_size m.field_count size _ (length-concat _ _ _ length-delta_data_value fs))
  body_size m size (keep_alive t) = rw t (omega arith)

  pub length-data_set_message_encoding :
      (m : DataSetMessage c.Variant) (offset : ℕ)
      → DataSetMessageFits c m
      → calc_size_data_set_message c m offset ≡ offset + length (data_set_message_encoding c m)
  unfolding calc_size_data_set_message
  length-data_set_message_encoding m offset f =
      body_size m (calc_size_message_header m.header offset) f.body_fits
      ∙ omega (
        arith,
        length-append (header_encoding m.header) (body_encoding c m),
        calc_size_message_header_lem m.header offset,
      )
