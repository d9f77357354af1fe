-- ===== src/Binary/Guid/Correct.antt =====
-- A Guid through a buffer: `Guid_encodeBinary` and `Guid_decodeBinary`.
use open_pub_sub.Base.{◌≤◌, ◌≡◌, [], length, drop, leb}
use open_pub_sub.Binary.Status.{good, is_good}
use open_pub_sub.Binary.Writer.{Buffer}
use open_pub_sub.Binary.Reader.{ok}
use open_pub_sub.Binary.Correct.{good_iff_room, round_trip}
use open_pub_sub.Binary.Guid.{Guid, encode_guid, decode_guid, calc_size_guid}
use open_pub_sub.Binary.Guid.Laws.{GuidFits, guid-Writes, guid-Reads, length-guid_encoding}

-- A Guid in the ranges of its parts, encoded into a buffer with room for its computed size (16 bytes), is encoded with
-- status good, and decoding the appended bytes returns it and leaves no input.
pub encode_guid-decode_guid :
    (g : Guid) (b : Buffer)
    → GuidFits g
    → calc_size_guid g ≤ length b.after
    → ((encode_guid g b).0 ≡ good)
      × (decode_guid (drop (length b.before) (encode_guid g b).1.before) ≡ ok g [])
encode_guid-decode_guid g b f room =
    round_trip (guid-Writes g f) (length-guid_encoding g f) b room (guid-Reads g f)

-- A Guid in the ranges of its parts is encoded with status good exactly if its computed size, 16 bytes, is left in the
-- buffer: although the status of its first parts is or-ed, and its last part checks for its own
-- eight bytes alone, no shorter buffer passes.
pub encode_guid-good :
    (g : Guid) (b : Buffer)
    → GuidFits g
    → is_good (encode_guid g b).0 ≡ leb (calc_size_guid g) (length b.after)
encode_guid-good g b f = good_iff_room (guid-Writes g f) (length-guid_encoding g f) b
