-- ===== src/Binary/DataValue/Laws.antt =====
-- DataValues: what is written and its size.
use open_pub_sub.Base.{ℕ, ◌<◌, ◌^◌, ◌≡◌, Bool, List, [], ◌∷◌, ◌++◌, length, arith, if◌then◌else◌}
use open_pub_sub.Binary.Writer.Writes.{
  Writes, >>-Writes, also-Writes, when-Writes, exchange-Writes, encode_binary-Writes, part,
}
use open_pub_sub.Binary.Writer.Safe.{
  Safe, >>-Safe, also-Safe, when-Safe, exchange-Safe, encode_binary-Safe,
}
use open_pub_sub.Binary.Scalars.{encode16, encode32, encode64}
use open_pub_sub.Binary.Scalars.Laws.{
  byte-Writes, uint16-Writes, uint32-Writes, uint64-Writes, byte-Safe, uint16-Safe, uint32-Safe,
  uint64-Safe,
}
use open_pub_sub.Binary.Parts.{sums}
use open_pub_sub.Binary.VariantCodec.{VariantCodec}
use open_pub_sub.Binary.DataValue.{
  DataValue, encoding_mask, clamp_picoseconds, encode_data_value, calc_size_data_value,
  data_value_encode_binary, variant_encode_binary,
}

module _ (c : VariantCodec) where
  pub record DataValueFits (v : DataValue c.Variant) : Type 0 where
    pub value_fits : c.Fits v.value
    pub status_range : v.status < 2 ^ 32
    pub source_timestamp_range : v.source_timestamp < 2 ^ 64
    pub server_timestamp_range : v.server_timestamp < 2 ^ 64
    pub source_picoseconds_range : v.source_picoseconds < 2 ^ 16
    pub server_picoseconds_range : v.server_picoseconds < 2 ^ 16

  -- The parts behind the mask, by its flags.
  abbrev pub parts_encoding : Bool → Bool → Bool → Bool → Bool → Bool → DataValue c.Variant → List ℕ
  parts_encoding value status source server source_pico server_pico v =
      part value (c.encoding v.value)
      ++ ((((part status (encode32 v.status) ++ part source (encode64 v.source_timestamp))
              ++ part source_pico (encode16 v.source_picoseconds))
            ++ part server (encode64 v.server_timestamp))
          ++ part server_pico (encode16 v.server_picoseconds))

  unfoldable pub data_value_encoding : DataValue c.Variant → List ℕ
  data_value_encoding v =
      (encoding_mask v ∷ [])
      ++ parts_encoding v.has_value v.has_status v.has_source_timestamp v.has_server_timestamp
          v.has_source_picoseconds v.has_server_picoseconds v

  -- Without the parts that its flags switch off, and with picoseconds of at most 9999.
  abbrev pub canonical_data_value : DataValue c.Variant → DataValue c.Variant
  canonical_data_value v = record v {
    value = if v.has_value then c.canonical v.value else c.empty;
    status = if v.has_status then v.status else 0;
    source_timestamp = if v.has_source_timestamp then v.source_timestamp else 0;
    server_timestamp = if v.has_server_timestamp then v.server_timestamp else 0;
    source_picoseconds =
        clamp_picoseconds (if v.has_source_picoseconds then v.source_picoseconds else 0);
    server_picoseconds =
        clamp_picoseconds (if v.has_server_picoseconds then v.server_picoseconds else 0);
  }

  module _ (v : DataValue c.Variant) (f : DataValueFits v) where
    pub data_value-Writes : Writes (encode_data_value c v) (data_value_encoding v)
    unfolding encode_data_value data_value_encoding
    data_value-Writes = >>-Writes (byte-Writes _) (
        >>-Writes (when-Writes _ (c.encode-Writes _ f.value_fits)) (
          also-Writes
            (also-Writes
              (also-Writes
                (also-Writes (when-Writes _ (exchange-Writes (uint32-Writes _)))
                  (when-Writes _ (exchange-Writes (uint64-Writes _))))
                (when-Writes _ (exchange-Writes (uint16-Writes _))))
              (when-Writes _ (exchange-Writes (uint64-Writes _))))
            (when-Writes _ (exchange-Writes (uint16-Writes _)))))

    pub data_value-Safe : Safe (encode_data_value c v)
    unfolding encode_data_value
    data_value-Safe = >>-Safe (byte-Safe _) (
        >>-Safe (when-Safe _ (c.encode-Safe _ f.value_fits)) (
          also-Safe
            (also-Safe
              (also-Safe
                (also-Safe (when-Safe _ (exchange-Safe (uint32-Safe _)))
                  (when-Safe _ (exchange-Safe (uint64-Safe _))))
                (when-Safe _ (exchange-Safe (uint16-Safe _))))
              (when-Safe _ (exchange-Safe (uint64-Safe _))))
            (when-Safe _ (exchange-Safe (uint16-Safe _)))))

    pub length-data_value_encoding : length (data_value_encoding v) ≡ calc_size_data_value c v
    unfolding data_value_encoding calc_size_data_value
    length-data_value_encoding = simp (sums, c.length-encoding v.value f.value_fits) (omega arith)

    pub data_value_encode_binary-Writes :
        Writes (data_value_encode_binary c v) (data_value_encoding v)
    unfolding data_value_encode_binary
    data_value_encode_binary-Writes = encode_binary-Writes data_value-Writes

    pub data_value_encode_binary-Safe : Safe (data_value_encode_binary c v)
    unfolding data_value_encode_binary
    data_value_encode_binary-Safe = encode_binary-Safe data_value-Safe

  pub variant_encode_binary-Writes :
      (v : c.Variant) → c.Fits v → Writes (variant_encode_binary c v) (c.encoding v)
  unfolding variant_encode_binary
  variant_encode_binary-Writes v f = encode_binary-Writes (c.encode-Writes v f)

  pub variant_encode_binary-Safe : (v : c.Variant) → c.Fits v → Safe (variant_encode_binary c v)
  unfolding variant_encode_binary
  variant_encode_binary-Safe v f = encode_binary-Safe (c.encode-Safe v f)
