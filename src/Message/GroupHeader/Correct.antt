-- ===== src/Message/GroupHeader/Correct.antt =====
-- The group header through a buffer.
use open_pub_sub.Base.{ℕ, ◌≤◌, ◌≡◌, List, [], ◌++◌, length, drop, arith}
use open_pub_sub.Binary.Status.{good}
use open_pub_sub.Binary.Writer.{Buffer}
use open_pub_sub.Binary.Reader.{ok}
use open_pub_sub.Binary.Reader.Consumes.{Suffix, local}
use open_pub_sub.Binary.Correct.{round_trip}
use open_pub_sub.Message.GroupHeader.{
  GroupHeader, encode_group_header, decode_group_header, calc_size_group_header,
}
use open_pub_sub.Message.GroupHeader.Laws.{
  GroupHeaderFits, canonical_group_header, group_header-Writes, group_header-Reads,
  group_header-Consumes, length-group_header_encoding,
}

-- A group header that fits (its values are in the ranges of their types), encoded
-- into a buffer with room for its computed size, is encoded with status good, and decoding the
-- appended bytes returns it with the values that its flags switch off set to zero, and leaves no
-- input.
pub encode_group_header-decode_group_header :
    (h : GroupHeader) (b : Buffer)
    → GroupHeaderFits h
    → calc_size_group_header h 0 ≤ length b.after
    → ((encode_group_header h b).0 ≡ good)
      × (decode_group_header (drop (length b.before) (encode_group_header h b).1.before)
          ≡ ok (canonical_group_header h) [])
encode_group_header-decode_group_header h b f room =
    round_trip (group_header-Writes h) (omega (arith, length-group_header_encoding h 0)) b room
      (group_header-Reads h f)

-- Where decoding a group header from any input succeeds, what is left is the input without some
-- bytes at its front, and from the same input with any more bytes behind it the same is decoded,
-- and those bytes are left behind the rest.
pub decode_group_header-append :
    (input more : List ℕ) (a : GroupHeader) (rest : List ℕ)
    → decode_group_header input ≡ ok a rest
    → Suffix rest input × (decode_group_header (input ++ more) ≡ ok a (rest ++ more))
decode_group_header-append input more a rest e = local input more group_header-Consumes e
