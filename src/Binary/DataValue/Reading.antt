-- ===== src/Binary/DataValue/Reading.antt =====
-- DataValues: what is read back.
use open_pub_sub.Base.{ℕ, refl, Bool, arith, append_assoc, has_flag, if◌then◌else◌}
use open_pub_sub.Binary.Reader.{pure, ◌>>=◌}
use open_pub_sub.Binary.Reader.Reads.{
  Reads, >>=-Reads, also-Reads, map-Reads, Reads-eq, read_if-Reads, decode_binary-Reads,
}
use open_pub_sub.Binary.Scalars.Laws.{byte-Reads, uint16-Reads, uint32-Reads, uint64-Reads}
use open_pub_sub.Binary.VariantCodec.{VariantCodec}
use open_pub_sub.Binary.DataValue.{
  DataValue, encoding_mask, clamp_picoseconds, decode_parts, of_parts, decode_content,
  decode_data_value, data_value_decode_binary, variant_decode_binary,
}
use open_pub_sub.Binary.DataValue.Mask.{mask_bits}
use open_pub_sub.Binary.DataValue.Laws.{
  DataValueFits, parts_encoding, data_value_encoding, canonical_data_value,
}

module _ (c : VariantCodec) where
  module _ (v : DataValue c.Variant) (f : DataValueFits c v) where
    parts-Reads :
        (m : ℕ)
        → Reads
            (decode_parts c 0 m >>= λ parts. pure (of_parts c m parts))
            (parts_encoding c
              (has_flag m 1)
              (has_flag m 2)
              (has_flag m 4)
              (has_flag m 8)
              (has_flag m 16)
              (has_flag m 32)
              v)
            (of_parts c m (
              (
                (
                  (
                    (
                      (if has_flag m 1 then c.canonical v.value else c.empty),
                      (if has_flag m 2 then v.status else 0),
                    ),
                    (if has_flag m 4 then v.source_timestamp else 0),
                  ),
                  (if has_flag m 16 then v.source_picoseconds else 0),
                ),
                (if has_flag m 8 then v.server_timestamp else 0),
              ),
              (if has_flag m 32 then v.server_picoseconds else 0),
            ))
    unfolding decode_parts
    parts-Reads m = Reads-eq (simp append_assoc) refl (
        map-Reads (of_parts c m) (
          also-Reads
            (also-Reads
              (also-Reads
                (also-Reads
                  (also-Reads
                    (read_if-Reads _ c.empty (c.decode-Reads 1 v.value (omega arith) f.value_fits))
                    (read_if-Reads _ 0 (uint32-Reads _ f.status_range)))
                  (read_if-Reads _ 0 (uint64-Reads _ f.source_timestamp_range)))
                (read_if-Reads _ 0 (uint16-Reads _ f.source_picoseconds_range)))
              (read_if-Reads _ 0 (uint64-Reads _ f.server_timestamp_range)))
            (read_if-Reads _ 0 (uint16-Reads _ f.server_picoseconds_range))))

    pub data_value-Reads :
        Reads (decode_data_value c 0) (data_value_encoding c v) (canonical_data_value c v)
    unfolding decode_data_value decode_content data_value_encoding
    data_value-Reads =
        let m : ℕ = encoding_mask v in
        let (e1, e2, e4, e8, e16, e32) = mask_bits v in
        >>=-Reads (decode_content c 0) (byte-Reads m) (
          Reads-eq (λ i. parts_encoding c (e1 i) (e2 i) (e4 i) (e8 i) (e16 i) (e32 i) v)
            (λ i. flagged (e1 i) (e2 i) (e4 i) (e8 i) (e16 i) (e32 i)) (parts-Reads m))
      where
        flagged : Bool → Bool → Bool → Bool → Bool → Bool → DataValue c.Variant
        flagged value status source server source_pico server_pico = record {
          value = if value then c.canonical v.value else c.empty;
          source_timestamp = if source then v.source_timestamp else 0;
          server_timestamp = if server then v.server_timestamp else 0;
          source_picoseconds = clamp_picoseconds (if source_pico then v.source_picoseconds else 0);
          server_picoseconds = clamp_picoseconds (if server_pico then v.server_picoseconds else 0);
          status = if status then v.status else 0;
          has_value = value;
          has_status = status;
          has_source_timestamp = source;
          has_server_timestamp = server;
          has_source_picoseconds = source_pico;
          has_server_picoseconds = server_pico;
        }

    pub data_value_decode_binary-Reads :
        Reads (data_value_decode_binary c) (data_value_encoding c v) (canonical_data_value c v)
    unfolding data_value_decode_binary
    data_value_decode_binary-Reads = decode_binary-Reads data_value-Reads

  pub variant_decode_binary-Reads :
      (v : c.Variant) → c.Fits v → Reads (variant_decode_binary c) (c.encoding v) (c.canonical v)
  unfolding variant_decode_binary
  variant_decode_binary-Reads v f = decode_binary-Reads (c.decode-Reads 0 v (omega arith) f)
