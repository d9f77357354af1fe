-- ===== src/Message/Header/Size.antt =====
-- `UA_DataSetMessageHeader_calcSizeBinary`, and what the encoder writes.
use open_pub_sub.Base.{ℕ, ◌≡◌, List, [], ◌∷◌, ◌++◌, length, arith}
use open_pub_sub.Binary.Writer.Writes.{Writes, >>-Writes, when-Writes, part}
use open_pub_sub.Binary.Scalars.{
  encode16, encode32, encode64, calc_size_binary1, calc_size_binary2, calc_size_binary4,
  calc_size_binary8,
}
use open_pub_sub.Binary.Generated.Laws.{
  byte_encode_binary-Writes, uint16_encode_binary-Writes, uint32_encode_binary-Writes,
  date_time_encode_binary-Writes,
}
use open_pub_sub.Binary.Parts.{add_if, sums}
use open_pub_sub.Message.Header.{DataSetMessageHeader, data_set_flags2_enabled}
use open_pub_sub.Message.Header.Encode.{data_set_flags1, data_set_flags2, encode_header}

unfoldable pub calc_size_header : DataSetMessageHeader → ℕ
calc_size_header p = add_if p.config_version_minor_version_enabled calc_size_binary4 (
    add_if p.config_version_major_version_enabled calc_size_binary4 (
      add_if p.status_enabled calc_size_binary2 (
        add_if p.pico_seconds_included calc_size_binary2 (
          add_if p.timestamp_enabled calc_size_binary8 (
            add_if p.data_set_message_sequence_nr_enabled calc_size_binary2
              (add_if (data_set_flags2_enabled p) calc_size_binary1 calc_size_binary1))))))

-- The bytes of a header.
unfoldable pub header_encoding : DataSetMessageHeader → List ℕ
header_encoding src =
    (data_set_flags1 src ∷ [])
    ++ (part (data_set_flags2_enabled src) (data_set_flags2 src ∷ [])
        ++ (part src.data_set_message_sequence_nr_enabled
              (encode16 src.data_set_message_sequence_nr)
            ++ (part src.timestamp_enabled (encode64 src.timestamp)
                ++ (part src.pico_seconds_included (encode16 src.pico_seconds)
                    ++ (part src.status_enabled (encode16 src.status)
                        ++ (part src.config_version_major_version_enabled
                              (encode32 src.config_version_major_version)
                            ++ part src.config_version_minor_version_enabled
                                (encode32 src.config_version_minor_version)))))))

pub header-Writes : (src : DataSetMessageHeader) → Writes (encode_header src) (header_encoding src)
unfolding encode_header header_encoding
header-Writes src = >>-Writes (byte_encode_binary-Writes _) (
    >>-Writes (when-Writes _ (byte_encode_binary-Writes _)) (
      >>-Writes (when-Writes _ (uint16_encode_binary-Writes _)) (
        >>-Writes (when-Writes _ (date_time_encode_binary-Writes _)) (
          >>-Writes (when-Writes _ (uint16_encode_binary-Writes _)) (
            >>-Writes (when-Writes _ (uint16_encode_binary-Writes _)) (
              >>-Writes (when-Writes _ (uint32_encode_binary-Writes _))
                (when-Writes _ (uint32_encode_binary-Writes _))))))))

pub length-header_encoding :
    (p : DataSetMessageHeader) → length (header_encoding p) ≡ calc_size_header p
unfolding header_encoding calc_size_header
length-header_encoding p = simp sums (omega arith)
