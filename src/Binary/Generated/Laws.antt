-- ===== src/Binary/Generated/Laws.antt =====
-- One value at a time: what is written, what is read back, and the bounds.
use open_pub_sub.Base.{ℕ, ◌<◌, ◌^◌, [], ◌∷◌}
use open_pub_sub.Binary.Writer.Writes.{Writes, encode_binary-Writes}
use open_pub_sub.Binary.Writer.Safe.{Safe, encode_binary-Safe}
use open_pub_sub.Binary.Reader.Reads.{Reads, decode_binary-Reads}
use open_pub_sub.Binary.Reader.Consumes.{Consumes, decode_binary-Consumes}
use open_pub_sub.Binary.Scalars.{encode16, encode32, encode64}
use open_pub_sub.Binary.Scalars.Laws
use open_pub_sub.Binary.Text.{Text}
use open_pub_sub.Binary.Text.Laws as Texts
use open_pub_sub.Binary.Text.Laws.{TextFits, text_encoding, canonical_text}
use open_pub_sub.Binary.Guid.{Guid}
use open_pub_sub.Binary.Guid.Laws as Guids
use open_pub_sub.Binary.Guid.Laws.{GuidFits, guid_encoding}
use open_pub_sub.Binary.Generated.{
  byte_encode_binary, byte_decode_binary, uint16_encode_binary, uint16_decode_binary,
  uint32_encode_binary, uint32_decode_binary, uint64_encode_binary, uint64_decode_binary,
  date_time_encode_binary, date_time_decode_binary, text_encode_binary, text_decode_binary,
  guid_encode_binary, guid_decode_binary,
}

pub byte_encode_binary-Writes : (v : ℕ) → Writes (byte_encode_binary v) (v ∷ [])
unfolding byte_encode_binary
byte_encode_binary-Writes v = encode_binary-Writes (Laws.byte-Writes v)

pub byte_encode_binary-Safe : (v : ℕ) → Safe (byte_encode_binary v)
unfolding byte_encode_binary
byte_encode_binary-Safe v = encode_binary-Safe (Laws.byte-Safe v)

pub byte_decode_binary-Reads : (v : ℕ) → Reads byte_decode_binary (v ∷ []) v
unfolding byte_decode_binary
byte_decode_binary-Reads v = decode_binary-Reads (Laws.byte-Reads v)

pub byte_decode_binary-Consumes : Consumes byte_decode_binary
unfolding byte_decode_binary
byte_decode_binary-Consumes = decode_binary-Consumes Laws.byte-Consumes

pub uint16_encode_binary-Writes : (v : ℕ) → Writes (uint16_encode_binary v) (encode16 v)
unfolding uint16_encode_binary
uint16_encode_binary-Writes v = encode_binary-Writes (Laws.uint16-Writes v)

pub uint16_encode_binary-Safe : (v : ℕ) → Safe (uint16_encode_binary v)
unfolding uint16_encode_binary
uint16_encode_binary-Safe v = encode_binary-Safe (Laws.uint16-Safe v)

pub uint16_decode_binary-Reads : (v : ℕ) → v < 2 ^ 16 → Reads uint16_decode_binary (encode16 v) v
unfolding uint16_decode_binary
uint16_decode_binary-Reads v h = decode_binary-Reads (Laws.uint16-Reads v h)

pub uint16_decode_binary-Consumes : Consumes uint16_decode_binary
unfolding uint16_decode_binary
uint16_decode_binary-Consumes = decode_binary-Consumes Laws.uint16-Consumes

pub uint32_encode_binary-Writes : (v : ℕ) → Writes (uint32_encode_binary v) (encode32 v)
unfolding uint32_encode_binary
uint32_encode_binary-Writes v = encode_binary-Writes (Laws.uint32-Writes v)

pub uint32_encode_binary-Safe : (v : ℕ) → Safe (uint32_encode_binary v)
unfolding uint32_encode_binary
uint32_encode_binary-Safe v = encode_binary-Safe (Laws.uint32-Safe v)

pub uint32_decode_binary-Reads : (v : ℕ) → v < 2 ^ 32 → Reads uint32_decode_binary (encode32 v) v
unfolding uint32_decode_binary
uint32_decode_binary-Reads v h = decode_binary-Reads (Laws.uint32-Reads v h)

pub uint32_decode_binary-Consumes : Consumes uint32_decode_binary
unfolding uint32_decode_binary
uint32_decode_binary-Consumes = decode_binary-Consumes Laws.uint32-Consumes

pub uint64_encode_binary-Writes : (v : ℕ) → Writes (uint64_encode_binary v) (encode64 v)
unfolding uint64_encode_binary
uint64_encode_binary-Writes v = encode_binary-Writes (Laws.uint64-Writes v)

pub uint64_encode_binary-Safe : (v : ℕ) → Safe (uint64_encode_binary v)
unfolding uint64_encode_binary
uint64_encode_binary-Safe v = encode_binary-Safe (Laws.uint64-Safe v)

pub uint64_decode_binary-Reads : (v : ℕ) → v < 2 ^ 64 → Reads uint64_decode_binary (encode64 v) v
unfolding uint64_decode_binary
uint64_decode_binary-Reads v h = decode_binary-Reads (Laws.uint64-Reads v h)

pub uint64_decode_binary-Consumes : Consumes uint64_decode_binary
unfolding uint64_decode_binary
uint64_decode_binary-Consumes = decode_binary-Consumes Laws.uint64-Consumes

pub date_time_encode_binary-Writes : (v : ℕ) → Writes (date_time_encode_binary v) (encode64 v)
unfolding date_time_encode_binary
date_time_encode_binary-Writes v = encode_binary-Writes (Laws.uint64-Writes v)

pub date_time_encode_binary-Safe : (v : ℕ) → Safe (date_time_encode_binary v)
unfolding date_time_encode_binary
date_time_encode_binary-Safe v = encode_binary-Safe (Laws.uint64-Safe v)

pub date_time_decode_binary-Reads :
    (v : ℕ) → v < 2 ^ 64 → Reads date_time_decode_binary (encode64 v) v
unfolding date_time_decode_binary
date_time_decode_binary-Reads v h = decode_binary-Reads (Laws.uint64-Reads v h)

pub date_time_decode_binary-Consumes : Consumes date_time_decode_binary
unfolding date_time_decode_binary
date_time_decode_binary-Consumes = decode_binary-Consumes Laws.uint64-Consumes

pub text_encode_binary-Writes :
    (v : Text) → TextFits v → Writes (text_encode_binary v) (text_encoding v)
unfolding text_encode_binary
text_encode_binary-Writes v h = encode_binary-Writes (Texts.text-Writes v h)

pub text_encode_binary-Safe : (v : Text) → Safe (text_encode_binary v)
unfolding text_encode_binary
text_encode_binary-Safe v = encode_binary-Safe (Texts.text-Safe v)

pub text_decode_binary-Reads :
    (v : Text) → TextFits v → Reads text_decode_binary (text_encoding v) (canonical_text v)
unfolding text_decode_binary
text_decode_binary-Reads v h = decode_binary-Reads (Texts.text-Reads v h)

pub text_decode_binary-Consumes : Consumes text_decode_binary
unfolding text_decode_binary
text_decode_binary-Consumes = decode_binary-Consumes Texts.text-Consumes

pub guid_encode_binary-Writes :
    (v : Guid) → GuidFits v → Writes (guid_encode_binary v) (guid_encoding v)
unfolding guid_encode_binary
guid_encode_binary-Writes v h = encode_binary-Writes (Guids.guid-Writes v h)

pub guid_encode_binary-Safe : (v : Guid) → GuidFits v → Safe (guid_encode_binary v)
unfolding guid_encode_binary
guid_encode_binary-Safe v h = encode_binary-Safe (Guids.guid-Safe v h)

pub guid_decode_binary-Reads :
    (v : Guid) → GuidFits v → Reads guid_decode_binary (guid_encoding v) v
unfolding guid_decode_binary
guid_decode_binary-Reads v h = decode_binary-Reads (Guids.guid-Reads v h)
