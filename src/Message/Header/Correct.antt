-- ===== src/Message/Header/Correct.antt =====
-- The header of a DataSetMessage through a buffer: `UA_DataSetMessageHeader_encodeBinary`,
-- `_calcSizeBinary` and `_decodeBinary` together.
use open_pub_sub.Base.{ℕ, ◌≤◌, ◌≡◌, List, [], ◌++◌, length, drop, leb}
use open_pub_sub.Binary.Status.{good, is_good}
use open_pub_sub.Binary.Writer.{Buffer}
use open_pub_sub.Binary.Writer.Safe.{Extends}
use open_pub_sub.Binary.Reader.{ok}
use open_pub_sub.Binary.Reader.Consumes.{Suffix, local}
use open_pub_sub.Binary.Correct.{good_iff_room, round_trip}
use open_pub_sub.Message.Header.{DataSetMessageHeader}
use open_pub_sub.Message.Header.Encode.{encode_header}
use open_pub_sub.Message.Header.Decode.{decode_header}
use open_pub_sub.Message.Header.Size.{calc_size_header, header-Writes, length-header_encoding}
use open_pub_sub.Message.Header.RoundTrip.{HeaderFits, canonical_header, header-Reads}
use open_pub_sub.Message.Header.Bounds.{header-Safe, header-Consumes}

-- For every header and every buffer, the encoder returns good exactly if the size computed for the
-- header is at most the room in the buffer.
pub encode_header-good :
    (h : DataSetMessageHeader) (b : Buffer)
    → is_good (encode_header h b).0 ≡ leb (calc_size_header h) (length b.after)
encode_header-good h b = good_iff_room (header-Writes h) (length-header_encoding h) b

-- A header whose values are in the ranges of their types, encoded into a buffer with room for its
-- computed size, is encoded with status good, and decoding the appended bytes returns the header
-- with the values that its flags switch off set to zero, and leaves no input.
pub encode_header-decode_header :
    (h : DataSetMessageHeader) (b : Buffer)
    → HeaderFits h
    → calc_size_header h ≤ length b.after
    → ((encode_header h b).0 ≡ good)
      × (decode_header (drop (length b.before) (encode_header h b).1.before)
          ≡ ok (canonical_header h) [])
encode_header-decode_header h b f room =
    round_trip (header-Writes h) (length-header_encoding h) b room (header-Reads h f)

-- Encoding any header into any buffer, whether it succeeds or not, keeps the bytes before the
-- position and the length of the buffer.
pub encode_header-Extends :
    (h : DataSetMessageHeader) (b : Buffer) → Extends b (encode_header h b).1
encode_header-Extends h b = (header-Safe h).extends b

-- Where decoding a header from any input succeeds, what is left is the input without some bytes at
-- its front, and from the same input with any more bytes behind it the same is decoded, and those
-- bytes are left behind the rest.
pub decode_header-append :
    (input more : List ℕ) (a : DataSetMessageHeader) (rest : List ℕ)
    → decode_header input ≡ ok a rest
    → Suffix rest input × (decode_header (input ++ more) ≡ ok a (rest ++ more))
decode_header-append input more a rest e = local input more header-Consumes e
