-- ===== src/Message/Header/Decode.antt =====
-- `UA_DataSetMessageHeader_decodeBinary`.
use open_pub_sub.Base.{ℕ, ◌/◌, ◌^◌, Bool, false, bit_and, has_flag}
use open_pub_sub.Binary.Reader.{Reader, pure, read_if, ◌>>=◌}
use open_pub_sub.Binary.Generated.{
  byte_decode_binary, uint16_decode_binary, uint32_decode_binary, date_time_decode_binary,
}
use open_pub_sub.Message.DataSetMessageType
use open_pub_sub.Message.Header.{DataSetMessageHeader}

-- What the second byte of flags sets: the message's type, and the two bits.
unfoldable pub decode_flags2 : Reader (ℕ × Bool × Bool)
decode_flags2 = byte_decode_binary >>= λ v. pure (bit_and v 15, has_flag v 16, has_flag v 32)

-- The fields behind the flags, by the first byte of flags and what the second one set.
unfoldable pub decode_fields : ℕ → ℕ × Bool × Bool → Reader DataSetMessageHeader
decode_fields v (message_type, with_timestamp, with_pico_seconds) = do
  sequence_nr ← read_if (has_flag v 8) uint16_decode_binary 0
  timestamp ← read_if with_timestamp date_time_decode_binary 0
  pico_seconds ← read_if with_pico_seconds uint16_decode_binary 0
  status ← read_if (has_flag v 16) uint16_decode_binary 0
  major ← read_if (has_flag v 32) uint32_decode_binary 0
  minor ← read_if (has_flag v 64) uint32_decode_binary 0
  pure (record {
    data_set_message_valid = has_flag v 1;
    field_encoding = bit_and v 6 / 2 ^ 1;
    data_set_message_sequence_nr_enabled = has_flag v 8;
    timestamp_enabled = with_timestamp;
    status_enabled = has_flag v 16;
    config_version_major_version_enabled = has_flag v 32;
    config_version_minor_version_enabled = has_flag v 64;
    data_set_message_type = message_type;
    pico_seconds_included = with_pico_seconds;
    data_set_message_sequence_nr = sequence_nr;
    timestamp = timestamp;
    pico_seconds = pico_seconds;
    status = status;
    config_version_major_version = major;
    config_version_minor_version = minor;
  })

unfoldable pub decode_header : Reader DataSetMessageHeader
decode_header = do
  v ← byte_decode_binary
  flags2 ← read_if (has_flag v 128) decode_flags2 (DataSetMessageType.data_key_frame, false, false)
  decode_fields v flags2
