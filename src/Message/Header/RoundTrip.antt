-- ===== src/Message/Header/RoundTrip.antt =====
-- What is encoded decodes to the same header, whatever follows.
use open_pub_sub.Base.{
  ℕ, ◌<◌, ◌^◌, ◌≡◌, refl, Bool, false, List, [], ◌∷◌, ◌++◌, has_flag, if◌then◌else◌, bit_and, ◌/◌,
  arith,
}
use open_pub_sub.Binary.Writer.Writes.{part}
use open_pub_sub.Binary.Scalars.{encode16, encode32, encode64}
use open_pub_sub.Binary.Reader.{read_if}
use open_pub_sub.Binary.Reader.Reads.{Reads, >>=-Reads, map-Reads, Reads-eq, read_if-Reads}
use open_pub_sub.Binary.Generated.Laws.{
  byte_decode_binary-Reads, uint16_decode_binary-Reads, uint32_decode_binary-Reads,
  date_time_decode_binary-Reads,
}
use open_pub_sub.Message.Header.{DataSetMessageHeader, data_set_flags2_enabled}
use open_pub_sub.Message.Header.Encode.{data_set_flags1, data_set_flags2}
use open_pub_sub.Message.Header.Decode.{decode_flags2, decode_fields, decode_header}
use open_pub_sub.Message.Header.Flags.{data_set_flags1_bits, data_set_flags2_bits}
use open_pub_sub.Message.Header.Size.{header_encoding}

-- The values are in the ranges of their C types, and the enumerations fit their bits.
pub record HeaderFits (h : DataSetMessageHeader) : Type 0 where
  pub encoding_bits : h.field_encoding < 4
  pub type_bits : h.data_set_message_type < 16
  pub sequence_nr_range : h.data_set_message_sequence_nr < 2 ^ 16
  pub timestamp_range : h.timestamp < 2 ^ 64
  pub pico_seconds_range : h.pico_seconds < 2 ^ 16
  pub status_range : h.status < 2 ^ 16
  pub major_range : h.config_version_major_version < 2 ^ 32
  pub minor_range : h.config_version_minor_version < 2 ^ 32

-- The header without the values that its flags switch off.
abbrev pub canonical_header : DataSetMessageHeader → DataSetMessageHeader
canonical_header h = record h {
  data_set_message_sequence_nr =
      if h.data_set_message_sequence_nr_enabled then h.data_set_message_sequence_nr else 0;
  timestamp = if h.timestamp_enabled then h.timestamp else 0;
  pico_seconds = if h.pico_seconds_included then h.pico_seconds else 0;
  status = if h.status_enabled then h.status else 0;
  config_version_major_version =
      if h.config_version_major_version_enabled then h.config_version_major_version else 0;
  config_version_minor_version =
      if h.config_version_minor_version_enabled then h.config_version_minor_version else 0;
}

-- A header by what the flags say of it, with the values of `h`.
abbrev flagged :
    Bool
    → ℕ
    → Bool
    → Bool
    → Bool
    → Bool
    → ℕ × Bool × Bool
    → DataSetMessageHeader
    → DataSetMessageHeader
flagged valid encoding nr with_status major minor (message_type, time, pico) h = record {
  data_set_message_valid = valid;
  field_encoding = encoding;
  data_set_message_sequence_nr_enabled = nr;
  timestamp_enabled = time;
  status_enabled = with_status;
  config_version_major_version_enabled = major;
  config_version_minor_version_enabled = minor;
  data_set_message_type = message_type;
  pico_seconds_included = pico;
  data_set_message_sequence_nr = if nr then h.data_set_message_sequence_nr else 0;
  timestamp = if time then h.timestamp else 0;
  pico_seconds = if pico then h.pico_seconds else 0;
  status = if with_status then h.status else 0;
  config_version_major_version = if major then h.config_version_major_version else 0;
  config_version_minor_version = if minor then h.config_version_minor_version else 0;
}

abbrev flagged_bytes : Bool → Bool → Bool → Bool → Bool → Bool → DataSetMessageHeader → List ℕ
flagged_bytes nr time pico with_status major minor h =
    part nr (encode16 h.data_set_message_sequence_nr)
    ++ (part time (encode64 h.timestamp)
        ++ (part pico (encode16 h.pico_seconds)
            ++ (part with_status (encode16 h.status)
                ++ (part major (encode32 h.config_version_major_version)
                    ++ part minor (encode32 h.config_version_minor_version)))))

module _ (h : DataSetMessageHeader) (f : HeaderFits h) where
  flags2-Reads :
      Reads decode_flags2
        (data_set_flags2 h ∷ [])
        (h.data_set_message_type, h.timestamp_enabled, h.pico_seconds_included)
  unfolding decode_flags2
  flags2-Reads =
      let (e15, e16, e32) = data_set_flags2_bits h f.type_bits in
      Reads-eq refl (λ i. (e15 i, e16 i, e32 i))
        (map-Reads (λ v. (bit_and v 15, has_flag v 16, has_flag v 32))
          (byte_decode_binary-Reads (data_set_flags2 h)))

  fields-Reads :
      (v t : ℕ) (time pico : Bool)
      → Reads
          (decode_fields v (t, time, pico))
          (flagged_bytes (has_flag v 8) time pico (has_flag v 16) (has_flag v 32) (has_flag v 64) h)
          (flagged
            (has_flag v 1)
            (bit_and v 6 / 2 ^ 1)
            (has_flag v 8)
            (has_flag v 16)
            (has_flag v 32)
            (has_flag v 64)
            (t, time, pico)
            h)
  unfolding decode_fields
  fields-Reads v t time pico =
      >>=-Reads _ (read_if-Reads _ 0 (uint16_decode_binary-Reads _ f.sequence_nr_range)) (
        >>=-Reads _ (read_if-Reads _ 0 (date_time_decode_binary-Reads _ f.timestamp_range)) (
          >>=-Reads _ (read_if-Reads _ 0 (uint16_decode_binary-Reads _ f.pico_seconds_range)) (
            >>=-Reads _ (read_if-Reads _ 0 (uint16_decode_binary-Reads _ f.status_range)) (
              >>=-Reads _ (read_if-Reads _ 0 (uint32_decode_binary-Reads _ f.major_range))
                (map-Reads _ (read_if-Reads _ 0 (uint32_decode_binary-Reads _ f.minor_range)))))))

  -- Without a second byte the header has no timestamp and is a key frame.
  flags2_value :
      let there : ℕ × Bool × Bool =
        (h.data_set_message_type, h.timestamp_enabled, h.pico_seconds_included) in
      (if data_set_flags2_enabled h then there else (0, false, false)) ≡ there
  unfolding data_set_flags2_enabled
  flags2_value = ground arith

  pub header-Reads : Reads decode_header (header_encoding h) (canonical_header h)
  unfolding decode_header header_encoding
  header-Reads =
      let v : ℕ = data_set_flags1 h in
      let (e1, e6, e8, e16, e32, e64, e128) = data_set_flags1_bits h f.encoding_bits in
      >>=-Reads _ (byte_decode_binary-Reads v) (
        >>=-Reads (decode_fields v) second (
          Reads-eq
            (λ i.
              flagged_bytes (e8 i) h.timestamp_enabled h.pico_seconds_included (e16 i) (e32 i)
                (e64 i) h)
            (λ i.
              flagged (e1 i) (e6 i) (e8 i) (e16 i) (e32 i) (e64 i)
                (h.data_set_message_type, h.timestamp_enabled, h.pico_seconds_included) h)
            (fields-Reads v h.data_set_message_type h.timestamp_enabled h.pico_seconds_included)))
    where
      second :
          Reads
            (read_if (has_flag (data_set_flags1 h) 128) decode_flags2 (0, false, false))
            (part (data_set_flags2_enabled h) (data_set_flags2 h ∷ []))
            (h.data_set_message_type, h.timestamp_enabled, h.pico_seconds_included)
      second =
          let (e1, e6, e8, e16, e32, e64, e128) = data_set_flags1_bits h f.encoding_bits in
          rw e128 (
            Reads-eq refl flags2_value
              (read_if-Reads (data_set_flags2_enabled h) (0, false, false) flags2-Reads))
