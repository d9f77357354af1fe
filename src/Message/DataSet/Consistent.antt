-- ===== src/Message/DataSet/Consistent.antt =====
-- The DataSetMessages that the decoder returns: their counts are the lengths of their arrays.
use open_pub_sub.Base.{
  ℕ, ◌<◌, ◌≤◌, ◌≡◌, ◌⊎◌, refl, ◌==◌, true, false, List, [], length, inl, inr, if◌then◌else◌, arith,
}
use open_pub_sub.Binary.Reader.{Reader, pure, ◌>>=◌}
use open_pub_sub.Binary.Reader.Yields.{
  Yields, pure-Yields, fail-Yields, if-Yields, >>=-Yields, map-Yields, any-Yields,
}
use open_pub_sub.Binary.Generated.{uint16_decode_binary}
use open_pub_sub.Binary.Each.{decode_each, each-Yields}
use open_pub_sub.Binary.VariantCodec.{VariantCodec}
use open_pub_sub.Binary.DataValue.{DataValue, data_value_decode_binary}
use open_pub_sub.Message.FieldEncoding
use open_pub_sub.Message.DataSetMessageType
use open_pub_sub.Message.Header.{DataSetMessageHeader}
use open_pub_sub.Message.Header.Decode.{decode_header}
use open_pub_sub.Message.DataSet.{DataSetMessage, DeltaFrameField}
use open_pub_sub.Message.DataSet.Decode.{
  decode_key_field, key_frame, decode_key_fields, decode_key_frame, decode_delta_variant,
  decode_delta_data_value, delta_frame, decode_delta_fields, decode_delta_frame, decode_frame,
  decode_data_set_message,
}

-- The frame is of a type that the decoder knows. In one of the three encodings that have a name, the
-- array of its type has as many fields as the count says; in any other there is no field.
pub record Consistent {V : Type 0} (m : DataSetMessage V) : Type 0 where
  pub known :
      (m.header.data_set_message_type < 2)
      ⊎ (m.header.data_set_message_type ≡ DataSetMessageType.keep_alive)
  pub key_counted :
      m.header.data_set_message_type ≡ DataSetMessageType.data_key_frame
      → m.header.field_encoding < 3
      → length m.data_set_fields ≡ m.field_count
  pub delta_counted :
      m.header.data_set_message_type ≡ DataSetMessageType.data_delta_frame
      → m.header.field_encoding < 3
      → length m.delta_frame_fields ≡ m.field_count
  pub unnamed :
      3 ≤ m.header.field_encoding
      → (length m.data_set_fields ≡ 0) × (length m.delta_frame_fields ≡ 0)

module _ (c : VariantCodec) (header : DataSetMessageHeader) where
  key_frame-Consistent :
      (count : ℕ) (fields : List (DataValue c.Variant))
      → header.data_set_message_type ≡ 0
      → (header.field_encoding < 3 → length fields ≡ count)
      → (3 ≤ header.field_encoding → length fields ≡ 0)
      → Consistent (key_frame c header count fields)
  key_frame-Consistent count fields t n z = record {
    known = inl (omega arith);
    key_counted = λ s e. n e;
    delta_counted = λ s e. absurd (omega (arith, s));
    unnamed = λ e. (z e, refl);
  }

  delta_frame-Consistent :
      (count : ℕ) (fields : List (DeltaFrameField c.Variant))
      → header.data_set_message_type ≡ 1
      → (header.field_encoding < 3 → length fields ≡ count)
      → (3 ≤ header.field_encoding → length fields ≡ 0)
      → Consistent (delta_frame c header count fields)
  delta_frame-Consistent count fields t n z = record {
    known = inl (omega arith);
    key_counted = λ s e. absurd (omega (arith, s));
    delta_counted = λ s e. n e;
    unnamed = λ e. (refl, z e);
  }

  -- Three ways to read the fields behind the count, by the encoding.
  fields-Yields :
      {F : Type 0} {P : DataSetMessage c.Variant → Type 0}
      (frame : ℕ → List F → DataSetMessage c.Variant) (variants data_values : Reader F)
      → ((count : ℕ) (fields : List F)
          → (header.field_encoding < 3 → length fields ≡ count)
          → (3 ≤ header.field_encoding → length fields ≡ 0)
          → P (frame count fields))
      → Yields P (
          if header.field_encoding == FieldEncoding.raw_data
          then pure (frame 0 [])
          else uint16_decode_binary >>= λ count.
              if header.field_encoding == FieldEncoding.variant
              then decode_each variants count >>= (λ fields. pure (frame count fields))
              else if header.field_encoding == FieldEncoding.data_value
              then decode_each data_values count >>= (λ fields. pure (frame count fields))
              else pure (frame count []))
  fields-Yields frame variants data_values p =
      if-Yields _ (λ e. pure-Yields _ (p 0 [] (λ h. refl) (λ h. refl)))
        λ raw. >>=-Yields (any-Yields uint16_decode_binary) λ count _.
          if-Yields _
            (λ e.
              map-Yields (frame count) (each-Yields variants count (any-Yields variants))
                λ fields h. p count fields (λ _. h.0) (λ big. absurd (named e big)))
            λ variant.
              if-Yields _
                (λ e.
                  map-Yields (frame count) (each-Yields data_values count (any-Yields data_values))
                    λ fields h. p count fields (λ _. h.0) (λ big. absurd (named2 e big)))
                λ value.
                  pure-Yields _
                    (p count [] (λ small. absurd (unnamed raw variant value small)) (λ h. refl))
    where
      named : (header.field_encoding == 0) ≡ true → 3 ≤ header.field_encoding → ⊥
      named e h = ground arith

      named2 : (header.field_encoding == 2) ≡ true → 3 ≤ header.field_encoding → ⊥
      named2 e h = ground arith

      unnamed :
          (header.field_encoding == 1) ≡ false
          → (header.field_encoding == 0) ≡ false
          → (header.field_encoding == 2) ≡ false
          → header.field_encoding < 3
          → ⊥
      unnamed a b d h = ground arith

  frame-Yields : Yields Consistent (decode_frame c header)
  unfolding decode_frame decode_key_frame decode_key_fields decode_delta_frame decode_delta_fields
  frame-Yields =
      if-Yields (header.data_set_message_type == DataSetMessageType.data_key_frame)
        (λ key.
          fields-Yields (key_frame c header) (decode_key_field c) (data_value_decode_binary c)
            λ count fields n z. key_frame-Consistent count fields (ground arith) n z)
        λ no_key.
          if-Yields (header.data_set_message_type == DataSetMessageType.data_delta_frame)
            (λ delta.
              fields-Yields (delta_frame c header) (decode_delta_variant c)
                (decode_delta_data_value c)
                λ count fields n z. delta_frame-Consistent count fields (ground arith) n z)
            λ no_delta.
              if-Yields (header.data_set_message_type == DataSetMessageType.keep_alive)
                (λ keep. pure-Yields _ (record {
                  known = inr (ground arith);
                  key_counted = λ s e. refl;
                  delta_counted = λ s e. refl;
                  unnamed = λ e. (refl, refl);
                }))
                λ other. fail-Yields _

module _ (c : VariantCodec) where
  pub data_set_message-Yields : Yields Consistent (decode_data_set_message c)
  unfolding decode_data_set_message
  data_set_message-Yields =
      >>=-Yields (any-Yields decode_header) (λ header _. frame-Yields c header)
