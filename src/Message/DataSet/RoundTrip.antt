-- ===== src/Message/DataSet/RoundTrip.antt =====
-- What `UA_DataSetMessage_decodeBinary` reads of what is encoded.
use open_pub_sub.Base.{ℕ, ◌<◌, ◌^◌, ◌==◌, ◌≡◌, refl, List, [], length, map, All, if◌then◌else◌}
use open_pub_sub.Binary.Reader.{Reader}
use open_pub_sub.Binary.Reader.Reads.{Reads, pure-Reads, >>=-Reads, map-Reads}
use open_pub_sub.Binary.Generated.Laws.{uint16_decode_binary-Reads}
use open_pub_sub.Binary.Each.{decode_each, concat, each-Reads}
use open_pub_sub.Binary.VariantCodec.{VariantCodec}
use open_pub_sub.Binary.DataValue.{DataValue}
use open_pub_sub.Binary.DataValue.Laws.{canonical_data_value}
use open_pub_sub.Binary.DataValue.Reading.{
  data_value_decode_binary-Reads, variant_decode_binary-Reads,
}
use open_pub_sub.Message.FieldEncoding
use open_pub_sub.Message.DataSetMessageType
use open_pub_sub.Message.Header.{DataSetMessageHeader}
use open_pub_sub.Message.Header.RoundTrip.{canonical_header, header-Reads}
use open_pub_sub.Message.DataSet.{DataSetMessage, DeltaFrameField}
use open_pub_sub.Message.DataSet.Decode.{
  value_field, decode_key_field, key_frame, decode_key_fields, decode_key_frame,
  decode_delta_variant, decode_delta_data_value, delta_frame, decode_delta_fields,
  decode_delta_frame, decode_frame, decode_data_set_message,
}
use open_pub_sub.Message.DataSet.Fits.{
  VariantFits, IndexedVariantFits, IndexedFits, BodyFits, key_variants, key_data_values,
  delta_variants, delta_data_values, keep_alive, DataSetMessageFits, key_field_encoding,
  delta_variant_encoding, delta_data_value_encoding, body_encoding, data_set_message_encoding,
}

module _ (c : VariantCodec) where
  -- A field that was sent as a Variant comes back with nothing but its value.
  abbrev pub canonical_key_field : DataValue c.Variant → DataValue c.Variant
  canonical_key_field v = value_field c (c.canonical v.value)

  abbrev pub canonical_delta_variant : DeltaFrameField c.Variant → DeltaFrameField c.Variant
  canonical_delta_variant d = record {
    field_index = d.field_index;
    field_value = canonical_key_field d.field_value;
  }

  abbrev pub canonical_delta_data_value : DeltaFrameField c.Variant → DeltaFrameField c.Variant
  canonical_delta_data_value d = record {
    field_index = d.field_index;
    field_value = canonical_data_value c d.field_value;
  }

  -- What comes back of the message behind a header.
  unfoldable pub canonical_body :
      DataSetMessageHeader → DataSetMessage c.Variant → DataSetMessage c.Variant
  canonical_body header m =
      if m.header.data_set_message_type == DataSetMessageType.data_key_frame
      then key_frame c header m.field_count (
          map
            (if m.header.field_encoding == FieldEncoding.variant
              then canonical_key_field
              else canonical_data_value c)
            m.data_set_fields)
      else if m.header.data_set_message_type == DataSetMessageType.data_delta_frame
      then delta_frame c header m.field_count (
          map
            (if m.header.field_encoding == FieldEncoding.variant
              then canonical_delta_variant
              else canonical_delta_data_value)
            m.delta_frame_fields)
      else key_frame c header 0 []

  -- The message without what its flags, its type and its field encoding leave out.
  abbrev pub canonical_message : DataSetMessage c.Variant → DataSetMessage c.Variant
  canonical_message m = canonical_body (canonical_header m.header) m

  key_field-Reads :
      (v : DataValue c.Variant)
      → VariantFits c v
      → Reads (decode_key_field c) (key_field_encoding c v) (canonical_key_field v)
  unfolding decode_key_field
  key_field-Reads v g = map-Reads (value_field c) (variant_decode_binary-Reads c v.value g.fits)

  delta_variant-Reads :
      (d : DeltaFrameField c.Variant)
      → IndexedVariantFits c d
      → Reads (decode_delta_variant c) (delta_variant_encoding c d) (canonical_delta_variant d)
  unfolding decode_delta_variant
  delta_variant-Reads d g =
      >>=-Reads _ (uint16_decode_binary-Reads _ g.index_range)
        (map-Reads _ (variant_decode_binary-Reads c _ g.fits))

  delta_data_value-Reads :
      (d : DeltaFrameField c.Variant)
      → IndexedFits c d
      → Reads
          (decode_delta_data_value c)
          (delta_data_value_encoding c d)
          (canonical_delta_data_value d)
  unfolding decode_delta_data_value
  delta_data_value-Reads d g =
      >>=-Reads _ (uint16_decode_binary-Reads _ g.index_range)
        (map-Reads _ (data_value_decode_binary-Reads c _ g.fits))

  counted-Reads :
      {A B : Type 0} (d : Reader A) (bytes : B → List ℕ) (g : B → A) {P : B → Type 0} (xs : List B)
      {n : ℕ}
      → n ≡ length xs
      → ((x : B) → P x → Reads d (bytes x) (g x))
      → All P xs
      → Reads (decode_each d n) (concat bytes xs) (map g xs)
  counted-Reads d bytes g xs e r ps = rw e (each-Reads d bytes g xs r ps)

  module _ (h : DataSetMessageHeader) (m : DataSetMessage c.Variant)
      (ht : h.data_set_message_type ≡ m.header.data_set_message_type)
      (he : h.field_encoding ≡ m.header.field_encoding) (range : m.field_count < 2 ^ 16) where
    body-Reads : BodyFits c m → Reads (decode_frame c h) (body_encoding c m) (canonical_body h m)
    unfolding decode_frame decode_key_frame decode_key_fields decode_delta_frame decode_delta_fields
        body_encoding canonical_body
    body-Reads (key_variants t e n fs) =
        simp (ht, he, t, e)
          (>>=-Reads (decode_key_fields c h) (uint16_decode_binary-Reads _ range)
            (simp (he, e) (map-Reads _ (counted-Reads _ _ _ _ n key_field-Reads fs))))
    body-Reads (key_data_values t e n fs) =
        simp (ht, he, t, e)
          (>>=-Reads (decode_key_fields c h) (uint16_decode_binary-Reads _ range) (
            rw (he, e)
              (map-Reads _ (counted-Reads _ _ _ _ n (data_value_decode_binary-Reads c) fs))))
    body-Reads (delta_variants t e n fs) =
        simp (ht, he, t, e)
          (>>=-Reads (decode_delta_fields c h) (uint16_decode_binary-Reads _ range)
            (simp (he, e) (map-Reads _ (counted-Reads _ _ _ _ n delta_variant-Reads fs))))
    body-Reads (delta_data_values t e n fs) =
        simp (ht, he, t, e)
          (>>=-Reads (decode_delta_fields c h) (uint16_decode_binary-Reads _ range)
            (simp (he, e) (map-Reads _ (counted-Reads _ _ _ _ n delta_data_value-Reads fs))))
    body-Reads (keep_alive t) = simp (ht, t) (pure-Reads _)

  pub data_set_message-Reads :
      (m : DataSetMessage c.Variant)
      → DataSetMessageFits c m
      → Reads (decode_data_set_message c) (data_set_message_encoding c m) (canonical_message m)
  unfolding decode_data_set_message
  data_set_message-Reads m f =
      >>=-Reads (decode_frame c) (header-Reads m.header f.header_fits)
        (body-Reads (canonical_header m.header) m refl refl f.count_range f.body_fits)
