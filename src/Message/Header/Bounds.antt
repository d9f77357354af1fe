-- ===== src/Message/Header/Bounds.antt =====
-- The bounds of the header's encoder and decoder: neither leaves its buffer, on any branch.
use open_pub_sub.Base.{ℕ, Bool}
use open_pub_sub.Binary.Writer.Safe.{Safe, >>-Safe, when-Safe}
use open_pub_sub.Binary.Reader.Consumes.{Consumes, >>=-Consumes, pure-Consumes, read_if-Consumes}
use open_pub_sub.Binary.Generated.Laws.{
  byte_encode_binary-Safe, uint16_encode_binary-Safe, uint32_encode_binary-Safe,
  date_time_encode_binary-Safe, byte_decode_binary-Consumes, uint16_decode_binary-Consumes,
  uint32_decode_binary-Consumes, date_time_decode_binary-Consumes,
}
use open_pub_sub.Message.Header.{DataSetMessageHeader}
use open_pub_sub.Message.Header.Encode.{encode_header}
use open_pub_sub.Message.Header.Decode.{decode_flags2, decode_fields, decode_header}

pub header-Safe : (src : DataSetMessageHeader) → Safe (encode_header src)
unfolding encode_header
header-Safe src = >>-Safe (byte_encode_binary-Safe _) (
    >>-Safe (when-Safe _ (byte_encode_binary-Safe _)) (
      >>-Safe (when-Safe _ (uint16_encode_binary-Safe _)) (
        >>-Safe (when-Safe _ (date_time_encode_binary-Safe _)) (
          >>-Safe (when-Safe _ (uint16_encode_binary-Safe _)) (
            >>-Safe (when-Safe _ (uint16_encode_binary-Safe _)) (
              >>-Safe (when-Safe _ (uint32_encode_binary-Safe _))
                (when-Safe _ (uint32_encode_binary-Safe _))))))))

flags2-Consumes : Consumes decode_flags2
unfolding decode_flags2
flags2-Consumes = >>=-Consumes _ byte_decode_binary-Consumes (λ v. pure-Consumes _)

fields-Consumes : (v : ℕ) (flags2 : ℕ × Bool × Bool) → Consumes (decode_fields v flags2)
unfolding decode_fields
fields-Consumes v (t, time, pico) =
    >>=-Consumes _ (read_if-Consumes _ 0 uint16_decode_binary-Consumes) λ nr.
      >>=-Consumes _ (read_if-Consumes _ 0 date_time_decode_binary-Consumes) λ time.
        >>=-Consumes _ (read_if-Consumes _ 0 uint16_decode_binary-Consumes) λ pico.
          >>=-Consumes _ (read_if-Consumes _ 0 uint16_decode_binary-Consumes) λ status.
            >>=-Consumes _ (read_if-Consumes _ 0 uint32_decode_binary-Consumes) λ major.
              >>=-Consumes _ (read_if-Consumes _ 0 uint32_decode_binary-Consumes)
                λ minor. pure-Consumes _

pub header-Consumes : Consumes decode_header
unfolding decode_header
header-Consumes =
    >>=-Consumes _ byte_decode_binary-Consumes
      λ v. >>=-Consumes (decode_fields v) (read_if-Consumes _ _ flags2-Consumes) (fields-Consumes v)
