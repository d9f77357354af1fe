-- ===== src/Message/Header/Encode.antt =====
-- `UA_DataSetMessageHeader_encodeBinary`.
use open_pub_sub.Base.{ℕ, ◌*◌, ◌%◌, ◌^◌, set_flag}
use open_pub_sub.Binary.Writer.{Encoder, ◌>>◌, when}
use open_pub_sub.Binary.Generated.{
  byte_encode_binary, uint16_encode_binary, uint32_encode_binary, date_time_encode_binary,
}
use open_pub_sub.Message.Header.{DataSetMessageHeader, data_set_flags2_enabled}

-- The masks are DS_MESSAGEHEADER_*; `(UA_Byte)(v << DS_MH_SHIFT_LEN)` shifts by one.
unfoldable pub data_set_flags1 : DataSetMessageHeader → ℕ
data_set_flags1 src = set_flag (data_set_flags2_enabled src) 128 (
    set_flag src.config_version_minor_version_enabled 64 (
      set_flag src.config_version_major_version_enabled 32 (
        set_flag src.status_enabled 16 (
          set_flag src.data_set_message_sequence_nr_enabled 8
            (set_flag src.data_set_message_valid 1 (src.field_encoding % 256 * 2 ^ 1 % 256))))))

unfoldable pub data_set_flags2 : DataSetMessageHeader → ℕ
data_set_flags2 src =
    set_flag src.pico_seconds_included 32
      (set_flag src.timestamp_enabled 16 (src.data_set_message_type % 256))

unfoldable pub encode_header : DataSetMessageHeader → Encoder
encode_header src =
    byte_encode_binary (data_set_flags1 src)
    >> when (data_set_flags2_enabled src) (byte_encode_binary (data_set_flags2 src))
    >> when src.data_set_message_sequence_nr_enabled
        (uint16_encode_binary src.data_set_message_sequence_nr)
    >> when src.timestamp_enabled (date_time_encode_binary src.timestamp)
    >> when src.pico_seconds_included (uint16_encode_binary src.pico_seconds)
    >> when src.status_enabled (uint16_encode_binary src.status)
    >> when src.config_version_major_version_enabled
        (uint32_encode_binary src.config_version_major_version)
    >> when src.config_version_minor_version_enabled
        (uint32_encode_binary src.config_version_minor_version)
