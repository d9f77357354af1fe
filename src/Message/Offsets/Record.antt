-- ===== src/Message/Offsets/Record.antt =====
-- The offsets that `UA_DataSetMessage_calcSizeBinary` and `UA_NetworkMessage_calcSizeBinary` record
-- for a buffer whose `RTsubscriberEnabled` is false. Allocation succeeds.
use open_pub_sub.Base.{ℕ, suc, ◌+◌, ◌==◌, not, List, [], ◌∷◌, ◌++◌, take, get_or, if◌then◌else◌}
use open_pub_sub.Binary.Scalars.{calc_size_binary1, calc_size_binary2}
use open_pub_sub.Binary.Parts.{add_if}
use open_pub_sub.Binary.VariantCodec.{VariantCodec}
use open_pub_sub.Message.Offsets.Memory.{VariantMemory, Place}
use open_pub_sub.Binary.DataValue.{DataValue, init_data_value, calc_size_data_value}
use open_pub_sub.Message.FieldEncoding
use open_pub_sub.Message.DataSetMessageType
use open_pub_sub.Message.Header.{data_set_flags2_enabled}
use open_pub_sub.Message.DataSet.{DataSetMessage}
use open_pub_sub.Message.DataSet.Size.{calc_size_message_header}
use open_pub_sub.Message.Offsets.{
  data_set_message_sequence_number, payload_variant, payload_data_value, NetworkMessageOffset,
}

-- The offsets point into a memory `S`, where `at` finds the message.
module _ (c : VariantCodec) {S : Type 0} (at : S → DataSetMessage c.Variant) where
  -- `p->data.keyFrameData.dataSetFields[i]`
  abbrev pub field_at : ℕ → S → DataValue c.Variant
  field_at i s = get_or (at s).data_set_fields i (init_data_value c.empty)

  -- The pointer is `p->data.keyFrameData.dataSetFields` for every field. That array stays in place.
  unfoldable pub record_data_values :
      List (DataValue c.Variant) → ℕ → List (NetworkMessageOffset S c.Variant)
  record_data_values [] size = []
  record_data_values (v ∷ vs) size =
      record { content = payload_data_value (λ s. field_at 0 s); offset = size }
      ∷ record_data_values vs (size + calc_size_data_value c v)

-- The offsets point into a memory `S`, where `at` finds the message and the data of its fields.
module _ (c : VariantCodec) (vm : VariantMemory c) {S : Type 0} (at : Place c vm S) where
  -- `value.data` and `value.type` are those of the field when its offset is recorded. What stands at
  -- that address is read when the variant is encoded.
  unfoldable pub record_variants :
      ℕ → List (DataValue c.Variant) → ℕ → List (NetworkMessageOffset S c.Variant)
  record_variants i [] size = []
  record_variants i (v ∷ vs) size =
      record {
        content =
            payload_variant (λ s. vm.scalar (vm.data_type v.value) (at.address i) (at.heap s));
        offset = size;
      }
      ∷ record_variants (suc i) vs (size + c.calc_size v.value)

  unfoldable pub record_key_frame :
      DataSetMessage c.Variant → ℕ → List (NetworkMessageOffset S c.Variant)
  record_key_frame p size =
      let fields = take p.field_count p.data_set_fields in
      let counted =
        add_if (not (p.header.field_encoding == FieldEncoding.raw_data)) calc_size_binary2 size in
      if p.header.field_encoding == FieldEncoding.variant
      then record_variants 0 fields counted
      else if p.header.field_encoding == FieldEncoding.raw_data
      then []
      else if p.header.field_encoding == FieldEncoding.data_value
      then record_data_values c at.message fields counted
      else []

  unfoldable pub record_sequence_nr :
      DataSetMessage c.Variant → ℕ → List (NetworkMessageOffset S c.Variant)
  record_sequence_nr p current_offset =
      if p.header.data_set_message_sequence_nr_enabled
      then record {
        content =
            data_set_message_sequence_number
              (λ s. (at.message s).header.data_set_message_sequence_nr);
        offset =
            add_if (data_set_flags2_enabled p.header) calc_size_binary1
              (current_offset + calc_size_binary1);
      }
        ∷ []
      else []

  unfoldable pub record_data_set_message :
      DataSetMessage c.Variant → ℕ → List (NetworkMessageOffset S c.Variant)
  record_data_set_message p current_offset =
      record_sequence_nr p current_offset
      ++ (if p.header.data_set_message_type == DataSetMessageType.data_key_frame
          then record_key_frame p (calc_size_message_header p.header current_offset)
          else [])
