-- ===== src/Binary/Generated.antt =====
-- The functions of openPubSub/ua_pubsub/types_generated_encoding_binary.h that the messages call: one
-- value each, with no exchange callback. A DateTime is its 64-bit pattern; a `Text` is a String or a
-- ByteString.
pub mod Laws
use open_pub_sub.Base.{ℕ}
use open_pub_sub.Binary.Writer.{Encoder, encode_binary}
use open_pub_sub.Binary.Reader.{Reader, decode_binary}
use open_pub_sub.Binary.Scalars.{
  encode_byte, decode_byte, encode_uint16, decode_uint16, encode_uint32, decode_uint32,
  encode_uint64, decode_uint64,
}
use open_pub_sub.Binary.Text.{Text, encode_text, decode_text}
use open_pub_sub.Binary.Guid.{Guid, encode_guid, decode_guid}

unfoldable pub byte_encode_binary : ℕ → Encoder
byte_encode_binary v = encode_binary (encode_byte v)

unfoldable pub byte_decode_binary : Reader ℕ
byte_decode_binary = decode_binary decode_byte

unfoldable pub uint16_encode_binary : ℕ → Encoder
uint16_encode_binary v = encode_binary (encode_uint16 v)

unfoldable pub uint16_decode_binary : Reader ℕ
uint16_decode_binary = decode_binary decode_uint16

unfoldable pub uint32_encode_binary : ℕ → Encoder
uint32_encode_binary v = encode_binary (encode_uint32 v)

unfoldable pub uint32_decode_binary : Reader ℕ
uint32_decode_binary = decode_binary decode_uint32

unfoldable pub uint64_encode_binary : ℕ → Encoder
uint64_encode_binary v = encode_binary (encode_uint64 v)

unfoldable pub uint64_decode_binary : Reader ℕ
uint64_decode_binary = decode_binary decode_uint64

unfoldable pub date_time_encode_binary : ℕ → Encoder
date_time_encode_binary v = encode_binary (encode_uint64 v)

unfoldable pub date_time_decode_binary : Reader ℕ
date_time_decode_binary = decode_binary decode_uint64

unfoldable pub text_encode_binary : Text → Encoder
text_encode_binary v = encode_binary (encode_text v)

unfoldable pub text_decode_binary : Reader Text
text_decode_binary = decode_binary decode_text

unfoldable pub guid_encode_binary : Guid → Encoder
guid_encode_binary v = encode_binary (encode_guid v)

unfoldable pub guid_decode_binary : Reader Guid
guid_decode_binary = decode_binary decode_guid
