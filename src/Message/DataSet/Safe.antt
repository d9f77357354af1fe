-- ===== src/Message/DataSet/Safe.antt =====
-- `UA_DataSetMessage_encodeBinary` stays inside its buffer.
use open_pub_sub.Base.{
  ℕ, zero, suc, ◌≤◌, ◌≡◌, length, Bool, true, false, List, [], ◌∷◌, take, All, if◌then◌else◌,
}
use open_pub_sub.Binary.Writer.{Encoder}
use open_pub_sub.Binary.Writer.Safe.{Safe, >>-Safe, when-Safe, fail-Safe}
use open_pub_sub.Binary.Generated.Laws.{uint16_encode_binary-Safe}
use open_pub_sub.Binary.Each.{each-Safe}
use open_pub_sub.Binary.VariantCodec.{VariantCodec}
use open_pub_sub.Binary.DataValue.Laws.{
  DataValueFits, data_value_encode_binary-Safe, variant_encode_binary-Safe,
}
use open_pub_sub.Message.DataSetMessageType
use open_pub_sub.Message.Header.Bounds.{header-Safe}
use open_pub_sub.Message.DataSet.{DataSetMessage, DeltaFrameField}
use open_pub_sub.Message.DataSet.Encode.{
  encode_key_field, encode_key_frame, encode_delta_variant, encode_delta_data_value,
  encode_delta_frame, encode_data_set_message,
}

module _ {ℓ κ} {A : Type ℓ} (P : A → Type κ) where
  pub All-take : (n : ℕ) (xs : List A) → All P xs → All P (take n xs)
  All-take zero xs h = tt
  All-take (suc n) [] h = tt
  All-take (suc n) (x ∷ xs) h = (h.0, All-take n xs h.1)

pub if-Safe : (b : Bool) {e k : Encoder} → Safe e → Safe k → Safe (if b then e else k)
if-Safe true p q = p
if-Safe false p q = q

module _ (c : VariantCodec) where
  pub record FieldFits (d : DeltaFrameField c.Variant) : Type 0 where
    pub fits : DataValueFits c d.field_value

  -- The fields are values that can be encoded, and no count is above the length of the array that it
  -- counts. The type and the encoding are arbitrary.
  pub record FieldsFit (m : DataSetMessage c.Variant) : Type 0 where
    pub key_counted :
        m.header.data_set_message_type ≡ DataSetMessageType.data_key_frame
        → m.field_count ≤ length m.data_set_fields
    pub delta_counted :
        m.header.data_set_message_type ≡ DataSetMessageType.data_delta_frame
        → m.field_count ≤ length m.delta_frame_fields
    pub key_fields : All (DataValueFits c) m.data_set_fields
    pub delta_fields : All FieldFits m.delta_frame_fields

  module _ (m : DataSetMessage c.Variant) (f : FieldsFit m) where
    key_frame-Safe : Safe (encode_key_frame c m)
    unfolding encode_key_frame encode_key_field
    key_frame-Safe =
        let fields = All-take (DataValueFits c) m.field_count m.data_set_fields f.key_fields in
        >>-Safe (when-Safe _ (uint16_encode_binary-Safe _)) (
          if-Safe _
            (each-Safe _ _ (λ v g. variant_encode_binary-Safe c v.value g.value_fits) fields)
            (if-Safe _ (fail-Safe _)
              (when-Safe _ (each-Safe _ _ (λ v g. data_value_encode_binary-Safe c v g) fields))))

    delta_frame-Safe : Safe (encode_delta_frame c m)
    unfolding encode_delta_frame encode_delta_variant encode_delta_data_value
    delta_frame-Safe =
        let fields = All-take FieldFits m.field_count m.delta_frame_fields f.delta_fields in
        >>-Safe (uint16_encode_binary-Safe _) (
          if-Safe _
            (each-Safe _ _
              (λ d g.
                >>-Safe (uint16_encode_binary-Safe _)
                  (variant_encode_binary-Safe c d.field_value.value g.fits.value_fits))
              fields)
            (if-Safe _ (fail-Safe _) (
              when-Safe _ (
                each-Safe _ _
                  (λ d g.
                    >>-Safe (uint16_encode_binary-Safe _)
                      (data_value_encode_binary-Safe c d.field_value g.fits))
                  fields))))

    pub data_set_message-Safe : Safe (encode_data_set_message c m)
    unfolding encode_data_set_message
    data_set_message-Safe =
        >>-Safe (header-Safe m.header)
          (if-Safe _ key_frame-Safe (if-Safe _ delta_frame-Safe (when-Safe _ (fail-Safe _))))
