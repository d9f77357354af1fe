-- ===== src/Message/Offsets/DataSet.antt =====
-- Updating the encoding of a DataSetMessage through its recorded offsets.
use open_pub_sub.Base.{
  ap, ℕ, suc, ◌+◌, ◌≡◌, refl, sym, ◌∙◌, ◌==◌, Bool, true, false, List, [], ◌∷◌, ◌++◌, append-nil,
  take_counted, length, if◌then◌else◌, arith, some,
}
use open_pub_sub.Binary.Writer.Writes.{part}
use open_pub_sub.Binary.Scalars.{encode16, encode32, encode64, calc_size_binary1}
use open_pub_sub.Binary.Scalars.Laws.{length-encode16}
use open_pub_sub.Binary.Parts.{add_if}
use open_pub_sub.Binary.Generated.{uint16_encode_binary}
use open_pub_sub.Binary.Generated.Laws.{uint16_encode_binary-Writes}
use open_pub_sub.Binary.Each.{concat}
use open_pub_sub.Binary.VariantCodec.{VariantCodec}
use open_pub_sub.Message.Offsets.Memory.{VariantMemory, Place}
use open_pub_sub.Binary.DataValue.{DataValue, variant_encode_binary}
use open_pub_sub.Binary.DataValue.Laws.{variant_encode_binary-Writes}
use open_pub_sub.Message.FieldEncoding
use open_pub_sub.Message.DataSetMessageType
use open_pub_sub.Message.Header.{DataSetMessageHeader, data_set_flags2_enabled}
use open_pub_sub.Message.Header.Encode.{data_set_flags1, data_set_flags2}
use open_pub_sub.Message.Header.Size.{header_encoding}
use open_pub_sub.Message.DataSet.{DataSetMessage}
use open_pub_sub.Message.DataSet.Fits.{key_field_encoding, body_encoding, data_set_message_encoding}
use open_pub_sub.Message.DataSet.Laws.{calc_size_message_header_lem}
use open_pub_sub.Message.Offsets.{data_set_message_sequence_number, payload_variant, encoder_of}
use open_pub_sub.Message.Offsets.Patches.{
  Patches, keep-Patches, slot-Patches, ++-Patches, Patches-eq, if-Patches,
}
use open_pub_sub.Message.Offsets.Record.{
  record_variants, record_key_frame, record_sequence_nr, record_data_set_message,
}

-- What stands behind the sequence number.
abbrev behind_sequence_nr : DataSetMessageHeader → List ℕ
behind_sequence_nr h =
    part h.timestamp_enabled (encode64 h.timestamp)
    ++ (part h.pico_seconds_included (encode16 h.pico_seconds)
        ++ (part h.status_enabled (encode16 h.status)
            ++ (part h.config_version_major_version_enabled
                  (encode32 h.config_version_major_version)
                ++ part h.config_version_minor_version_enabled
                    (encode32 h.config_version_minor_version))))

-- Where the flags end.
flags_end :
    (b : Bool) (position x y : ℕ)
    → position + length (x ∷ []) + length (part b (y ∷ []))
      ≡ add_if b calc_size_binary1 (position + calc_size_binary1)
unfolding part add_if
flags_end true position x y = omega arith
flags_end false position x y = omega arith

module _ (c : VariantCodec) (vm : VariantMemory c) where
  -- A value `v` that was recorded with its data at `a`, and one that takes as many bytes and that the
  -- blocks `h` hold there for the type of `v`.
  pub record Replaces (h : vm.Heap) (a : vm.Address) (w v : DataValue c.Variant) : Type 0 where
    pub recorded_fits : c.Fits v.value
    pub fits : c.Fits w.value
    pub same_size : c.calc_size v.value ≡ c.calc_size w.value
    pub in_place : vm.scalar (vm.data_type v.value) a h ≡ w.value

  -- One after the other, as many of the ones as of the others.
  unfoldable pub AllReplace :
      vm.Heap
      → (ℕ → vm.Address)
      → ℕ
      → List (DataValue c.Variant)
      → List (DataValue c.Variant)
      → Type 0
  AllReplace h address i [] [] = Unit
  AllReplace h address i [] (v ∷ vs) = ⊥
  AllReplace h address i (w ∷ ws) [] = ⊥
  AllReplace h address i (w ∷ ws) (v ∷ vs) =
      Replaces h (address i) w v × AllReplace h address (suc i) ws vs

  module _ {S : Type 0} (at : Place c vm S) (memory : S) where
    variants-Patches :
        (i : ℕ) (vs ws : List (DataValue c.Variant))
        → AllReplace (at.heap memory) at.address i ws vs
        → Patches c memory
            (record_variants c vm at i vs)
            (concat (key_field_encoding c) vs)
            (concat (key_field_encoding c) ws)
    unfolding record_variants AllReplace encoder_of
    variants-Patches i [] [] rs = keep-Patches c memory []
    variants-Patches i (v ∷ vs) [] rs = absurd rs
    variants-Patches i [] (w ∷ ws) rs = absurd rs
    variants-Patches i (v ∷ vs) (w ∷ ws) rs =
        let old_size = c.length-encoding v.value rs.0.recorded_fits in
        let new_size = c.length-encoding w.value rs.0.fits in
        Patches-eq c memory (λ position. rw old_size refl) refl refl
          (++-Patches c memory
            (slot-Patches c memory
              (payload_variant (λ s. vm.scalar (vm.data_type v.value) (at.address i) (at.heap s)))
              (c.encoding v.value) (c.encoding w.value)
              (ap (λ v. some (variant_encode_binary c v)) rs.0.in_place)
              (variant_encode_binary-Writes c w.value rs.0.fits)
              (omega (arith, old_size, new_size, rs.0.same_size)))
            (variants-Patches (suc i) vs ws rs.1))

    -- The header with another sequence number.
    header-Patches :
        (h : DataSetMessageHeader) (n : ℕ)
        → (at.message memory).header.data_set_message_sequence_nr ≡ n
        → Patches c memory
            (λ position.
              if h.data_set_message_sequence_nr_enabled
              then record {
                content =
                    data_set_message_sequence_number
                      (λ s. (at.message s).header.data_set_message_sequence_nr);
                offset =
                    add_if
                      (data_set_flags2_enabled h)
                      calc_size_binary1
                      (position + calc_size_binary1);
              }
                ∷ []
              else [])
            (header_encoding h)
            (header_encoding (record h { data_set_message_sequence_nr = n }))
    unfolding header_encoding data_set_flags1 data_set_flags2 data_set_flags2_enabled encoder_of
    header-Patches h n e =
        Patches-eq c memory
          (λ position.
            rw
              (
                append-nil _,
                flags_end (data_set_flags2_enabled h) position (data_set_flags1 h)
                    (data_set_flags2 h),
              )
              refl)
          refl refl
          (++-Patches c memory (keep-Patches c memory (data_set_flags1 h ∷ [])) (
            ++-Patches c memory
              (keep-Patches c memory (part (data_set_flags2_enabled h) (data_set_flags2 h ∷ [])))
              (++-Patches c memory
                (if-Patches c memory h.data_set_message_sequence_nr_enabled (
                  slot-Patches c memory
                    (data_set_message_sequence_number
                      (λ s. (at.message s).header.data_set_message_sequence_nr))
                    (encode16 h.data_set_message_sequence_nr) (encode16 n)
                    (ap (λ k. some (uint16_encode_binary k)) e) (uint16_encode_binary-Writes n)
                    (omega
                      (arith, length-encode16 h.data_set_message_sequence_nr, length-encode16 n))))
                (keep-Patches c memory (behind_sequence_nr h)))))

  -- A message `w` that stands where `m` was recorded: only its sequence number differs, and the
  -- values of a key frame of variants.
  pub data Refreshes (heap : vm.Heap) (address : ℕ → vm.Address) (w m : DataSetMessage c.Variant)
      : Type 0 where
    with_values :
        w.header
          ≡ record m.header { data_set_message_sequence_nr = w.header.data_set_message_sequence_nr }
        → m.header.data_set_message_type ≡ DataSetMessageType.data_key_frame
        → m.header.field_encoding ≡ FieldEncoding.variant
        → m.field_count ≡ length m.data_set_fields
        → w.field_count ≡ m.field_count
        → AllReplace heap address 0 w.data_set_fields m.data_set_fields
        → Refreshes heap address w m
    same_body :
        w.header
          ≡ record m.header { data_set_message_sequence_nr = w.header.data_set_message_sequence_nr }
        → (m.header.data_set_message_type == DataSetMessageType.data_key_frame) ≡ false
        → w.field_count ≡ m.field_count
        → w.data_set_fields ≡ m.data_set_fields
        → w.delta_frame_fields ≡ m.delta_frame_fields
        → Refreshes heap address w m

  pub key_body :
      (m : DataSetMessage c.Variant)
      → m.header.data_set_message_type ≡ DataSetMessageType.data_key_frame
      → m.header.field_encoding ≡ FieldEncoding.variant
      → encode16 m.field_count ++ concat (key_field_encoding c) m.data_set_fields
        ≡ body_encoding c m
  unfolding body_encoding
  key_body m t e = rw (t, e) refl

  module _ {S : Type 0} (at : Place c vm S) (memory : S) where
    fields-Patches :
        (m : DataSetMessage c.Variant)
        → m.header.field_encoding ≡ FieldEncoding.variant
        → m.field_count ≡ length m.data_set_fields
        → AllReplace
            (at.heap memory)
            at.address
            0
            (at.message memory).data_set_fields
            m.data_set_fields
        → Patches c memory
            (record_key_frame c vm at m)
            (encode16 m.field_count ++ concat (key_field_encoding c) m.data_set_fields)
            (encode16 m.field_count
              ++ concat (key_field_encoding c) (at.message memory).data_set_fields)
    unfolding record_key_frame add_if
    fields-Patches m e n rs =
        Patches-eq c memory (λ position. rw (e, take_counted n, length-encode16 m.field_count) refl)
          refl refl
          (++-Patches c memory (keep-Patches c memory (encode16 m.field_count))
            (variants-Patches at memory 0 m.data_set_fields (at.message memory).data_set_fields rs))

    pub message-Patches :
        (m : DataSetMessage c.Variant)
        → Refreshes (at.heap memory) at.address (at.message memory) m
        → Patches c memory
            (record_data_set_message c vm at m)
            (data_set_message_encoding c m)
            (data_set_message_encoding c (at.message memory))
    unfolding record_data_set_message record_sequence_nr body_encoding
    message-Patches m (with_values h t e n k rs) =
        let new_body : encode16 m.field_count
              ++ concat (key_field_encoding c) (at.message memory).data_set_fields
            ≡ body_encoding c (at.message memory) =
          rw (← k) (
            key_body (at.message memory) (ap (λ x. x.data_set_message_type) h ∙ t)
              (ap (λ x. x.field_encoding) h ∙ e)) in
        Patches-eq c memory
          (λ position. simp (t, calc_size_message_header_lem m.header position) refl)
          (ap (λ body. header_encoding m.header ++ body) (key_body m t e))
          (λ i. header_encoding (sym h i) ++ new_body i)
          (++-Patches c memory
            (header-Patches at memory m.header
              (at.message memory).header.data_set_message_sequence_nr refl)
            (fields-Patches m e n rs))
    message-Patches m (same_body h t k fs ds) =
        Patches-eq c memory (λ position. rw t refl) refl
          (λ i. data_set_message_encoding c (record {
            header = sym h i;
            field_count = sym k i;
            data_set_fields = sym fs i;
            delta_frame_fields = sym ds i;
          }))
          (++-Patches c memory
            (header-Patches at memory m.header
              (at.message memory).header.data_set_message_sequence_nr refl)
            (keep-Patches c memory (body_encoding c m)))
