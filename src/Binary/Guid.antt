-- ===== src/Binary/Guid.antt =====
-- Guid in openPubSub/ua_pubsub/ua_types_encoding_binary.c. Its first three parts are or-ed with
-- `ret |=`, and the last eight bytes have a bounds check of their own.
pub mod Laws
pub mod Correct
use open_pub_sub.Base.{ℕ, Bool, List, length, ltb, drop, take, if◌then◌else◌}
use open_pub_sub.Binary.Status.{Status, bad_encoding_limits_exceeded, bad_decoding_error}
use open_pub_sub.Binary.Writer.{Buffer, Encoder, put, also}
use open_pub_sub.Binary.Reader
use open_pub_sub.Binary.Reader.{Reader, Read, ok, err}
use open_pub_sub.Binary.Scalars.{encode_uint16, encode_uint32, decode_uint16, decode_uint32}

pub record Guid : Type 0 where
  pub data1 : ℕ
  pub data2 : ℕ
  pub data3 : ℕ
  pub data4 : List ℕ

unfoldable pub encode_guid_head : Guid → Encoder
encode_guid_head g =
    also (also (encode_uint32 g.data1) (encode_uint16 g.data2)) (encode_uint16 g.data3)

unfoldable pub encode_guid : Guid → Encoder
encode_guid g b =
    let (s, b') = encode_guid_head g b in
    if ltb (length b'.after) 8 then (bad_encoding_limits_exceeded, b') else (s, put g.data4 b')

unfoldable pub decode_guid_head : Reader ((ℕ × ℕ) × ℕ)
decode_guid_head = Reader.also (Reader.also decode_uint32 decode_uint16) decode_uint16

-- The eight bytes are copied whether or not the head was decoded.
abbrev pub decode_guid_tail : Read ((ℕ × ℕ) × ℕ) → Read Guid
decode_guid_tail (ok ((a, b), c) r) =
    if ltb (length r) 8
    then err bad_decoding_error r
    else ok (record { data1 = a; data2 = b; data3 = c; data4 = take 8 r }) (drop 8 r)
decode_guid_tail (err s r) = if ltb (length r) 8 then err bad_decoding_error r else err s (drop 8 r)

unfoldable pub decode_guid : Reader Guid
decode_guid input = decode_guid_tail (decode_guid_head input)

unfoldable pub calc_size_guid : Guid → ℕ
calc_size_guid g = 16
