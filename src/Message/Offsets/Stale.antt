-- ===== src/Message/Offsets/Stale.antt =====
-- Key frames of DataValues: every offset that is recorded points to the first field.
use open_pub_sub.Base.{ℕ, ◌≡◌, refl, List, [], ◌∷◌, ◌++◌, append-nil, get_or, length, All, arith}
use open_pub_sub.Binary.Status.{good}
use open_pub_sub.Binary.Each.{concat}
use open_pub_sub.Binary.VariantCodec.{VariantCodec}
use open_pub_sub.Binary.DataValue.{DataValue, init_data_value, calc_size_data_value}
use open_pub_sub.Binary.DataValue.Laws.{
  DataValueFits, data_value_encoding, data_value_encode_binary-Writes, length-data_value_encoding,
}
use open_pub_sub.Message.DataSet.{DataSetMessage}
use open_pub_sub.Message.Offsets.{
  payload_data_value, encoder_of, update_offsets, update_buffered_message,
}
use open_pub_sub.Message.Offsets.Patches.{
  Patches, keep-Patches, slot-Patches, ++-Patches, Patches-eq,
}
use open_pub_sub.Message.Offsets.Record.{field_at, record_data_values}

-- A field that takes as many bytes as `first`.
pub record AsLong (c : VariantCodec) (first v : DataValue c.Variant) : Type 0 where
  pub fits : DataValueFits c v
  pub same_size : calc_size_data_value c v ≡ calc_size_data_value c first

module _ (c : VariantCodec) {S : Type 0} (at : S → DataSetMessage c.Variant) (memory : S) where
  data_values-Patches :
      DataValueFits c (field_at c at 0 memory)
      → (vs : List (DataValue c.Variant)) → All (AsLong c (field_at c at 0 memory)) vs
      → Patches c memory
          (record_data_values c at vs)
          (concat (data_value_encoding c) vs)
          (concat (λ v. data_value_encoding c (field_at c at 0 memory)) vs)
  unfolding record_data_values encoder_of
  data_values-Patches f [] fs = keep-Patches c memory []
  data_values-Patches f (v ∷ vs) fs =
      let old_size = length-data_value_encoding c v fs.0.fits in
      let new_size = length-data_value_encoding c (field_at c at 0 memory) f in
      Patches-eq c memory (λ position. rw old_size refl) refl refl
        (++-Patches c memory
          (slot-Patches c memory (payload_data_value (λ s. field_at c at 0 s))
            (data_value_encoding c v) (data_value_encoding c (field_at c at 0 memory)) refl
            (data_value_encode_binary-Writes c _ f)
            (omega (arith, old_size, new_size, fs.0.same_size)))
          (data_values-Patches f vs fs.1))

-- Over any codec of variants, let `vs` be the fields of a key frame of DataValues that stand in a
-- buffer behind some bytes, with the offsets that are recorded for them, and let all of them take as
-- many bytes as the first field of the message as it is now. Updating the buffer ends with status
-- good and writes that first field in place of every field.
pub update_buffered_message-data_values :
    (c : VariantCodec) (message : DataSetMessage c.Variant) (vs : List (DataValue c.Variant))
    (pre post : List ℕ)
    → let first : DataValue c.Variant =
        get_or message.data_set_fields 0 (init_data_value c.empty) in
      DataValueFits c first
      → All (AsLong c first) vs
      → update_buffered_message c message
          (record_data_values c (λ (m : DataSetMessage c.Variant). m) vs (length pre))
          (pre ++ (concat (data_value_encoding c) vs ++ post))
        ≡ (good, pre ++ (concat (λ v. data_value_encoding c first) vs ++ post))
unfolding update_buffered_message update_offsets
update_buffered_message-data_values c message vs pre post f fs =
    rw (← append-nil (record_data_values c (λ (m : DataSetMessage c.Variant). m) vs (length pre))) (
      (data_values-Patches c (λ (m : DataSetMessage c.Variant). m) message f vs fs).patches pre post
        [])
