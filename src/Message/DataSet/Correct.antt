-- ===== src/Message/DataSet/Correct.antt =====
-- DataSetMessages through a buffer: `UA_DataSetMessage_encodeBinary`, `_calcSizeBinary` and
-- `_decodeBinary` together.
use open_pub_sub.Base.{ℕ, ◌+◌, ◌≤◌, ◌≡◌, [], length, drop, leb, arith}
use open_pub_sub.Binary.Status.{good, is_good}
use open_pub_sub.Binary.Writer.{Buffer}
use open_pub_sub.Binary.Reader.{ok}
use open_pub_sub.Binary.Correct.{good_iff_room, round_trip}
use open_pub_sub.Binary.VariantCodec.{VariantCodec}
use open_pub_sub.Message.DataSet.{DataSetMessage}
use open_pub_sub.Message.DataSet.Encode.{encode_data_set_message}
use open_pub_sub.Message.DataSet.Decode.{decode_data_set_message}
use open_pub_sub.Message.DataSet.Size.{calc_size_data_set_message}
use open_pub_sub.Message.DataSet.Fits.{DataSetMessageFits, data_set_message_encoding}
use open_pub_sub.Message.DataSet.Laws.{data_set_message-Writes, length-data_set_message_encoding}
use open_pub_sub.Message.DataSet.RoundTrip.{canonical_message, data_set_message-Reads}

pub encoding_size :
    (c : VariantCodec) (m : DataSetMessage c.Variant)
    → DataSetMessageFits c m
    → length (data_set_message_encoding c m) ≡ calc_size_data_set_message c m 0
encoding_size c m f = omega (arith, length-data_set_message_encoding c m 0 f)

-- Over any codec of variants, a message that fits (a key or delta frame of Variants or DataValues
-- with as many fields as it counts, or a keep-alive) is encoded with status good exactly if the
-- size computed for it is at most the room in the buffer.
pub encode_data_set_message-good :
    (c : VariantCodec) (m : DataSetMessage c.Variant) (b : Buffer)
    → DataSetMessageFits c m
    → is_good (encode_data_set_message c m b).0
      ≡ leb (calc_size_data_set_message c m 0) (length b.after)
encode_data_set_message-good c m b f =
    good_iff_room (data_set_message-Writes c m f) (encoding_size c m f) b

-- Over any codec of variants, a message that fits, encoded into a buffer with room for its computed
-- size, is encoded with status good, and decoding the appended bytes returns the message without
-- what its flags, its type and its field encoding leave out, and leaves no input.
pub encode_data_set_message-decode_data_set_message :
    (c : VariantCodec) (m : DataSetMessage c.Variant) (b : Buffer)
    → DataSetMessageFits c m
    → calc_size_data_set_message c m 0 ≤ length b.after
    → ((encode_data_set_message c m b).0 ≡ good)
      × (decode_data_set_message c (drop (length b.before) (encode_data_set_message c m b).1.before)
          ≡ ok (canonical_message c m) [])
encode_data_set_message-decode_data_set_message c m b f room =
    round_trip (data_set_message-Writes c m f) (encoding_size c m f) b room
      (data_set_message-Reads c m f)

-- The size computed for a message that fits, counted from an offset, is the offset more than the
-- size counted from zero.
pub calc_size_data_set_message-offset :
    (c : VariantCodec) (m : DataSetMessage c.Variant) (offset : ℕ)
    → DataSetMessageFits c m
    → calc_size_data_set_message c m offset ≡ offset + calc_size_data_set_message c m 0
calc_size_data_set_message-offset c m offset f =
    omega (arith, length-data_set_message_encoding c m offset f, encoding_size c m f)
