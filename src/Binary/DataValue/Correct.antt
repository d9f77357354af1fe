-- ===== src/Binary/DataValue/Correct.antt =====
-- A DataValue through a buffer: `UA_DataValue_encodeBinary` and `UA_DataValue_decodeBinary`.
use open_pub_sub.Base.{◌≤◌, ◌≡◌, [], length, drop, leb}
use open_pub_sub.Binary.Status.{good, is_good}
use open_pub_sub.Binary.Writer.{Buffer}
use open_pub_sub.Binary.Reader.{ok}
use open_pub_sub.Binary.Correct.{good_iff_room, round_trip}
use open_pub_sub.Binary.VariantCodec.{VariantCodec}
use open_pub_sub.Binary.DataValue.{
  DataValue, calc_size_data_value, data_value_encode_binary, data_value_decode_binary,
}
use open_pub_sub.Binary.DataValue.Laws.{
  DataValueFits, canonical_data_value, data_value_encode_binary-Writes, length-data_value_encoding,
}
use open_pub_sub.Binary.DataValue.Reading.{data_value_decode_binary-Reads}

-- Over any codec of variants, a DataValue in the ranges of its parts, encoded into a buffer with
-- room for its computed size, is encoded with status good, and decoding the appended bytes returns
-- it without the parts that its flags switch off and with picoseconds of at most 9999, and leaves
-- no input.
pub data_value_encode_binary-data_value_decode_binary :
    (c : VariantCodec) (v : DataValue c.Variant) (b : Buffer)
    → DataValueFits c v
    → calc_size_data_value c v ≤ length b.after
    → ((data_value_encode_binary c v b).0 ≡ good)
      × (data_value_decode_binary c
            (drop (length b.before) (data_value_encode_binary c v b).1.before)
          ≡ ok (canonical_data_value c v) [])
data_value_encode_binary-data_value_decode_binary c v b f room =
    round_trip (data_value_encode_binary-Writes c v f) (length-data_value_encoding c v f) b room
      (data_value_decode_binary-Reads c v f)

-- Over any codec of variants, a DataValue in the ranges of its parts is encoded with status good
-- exactly if the size computed for it is at most the room in the buffer.
pub data_value_encode_binary-good :
    (c : VariantCodec) (v : DataValue c.Variant) (b : Buffer)
    → DataValueFits c v
    → is_good (data_value_encode_binary c v b).0 ≡ leb (calc_size_data_value c v) (length b.after)
data_value_encode_binary-good c v b f =
    good_iff_room (data_value_encode_binary-Writes c v f) (length-data_value_encoding c v f) b
