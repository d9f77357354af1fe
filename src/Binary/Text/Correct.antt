-- ===== src/Binary/Text/Correct.antt =====
-- A string through a buffer: `String_encodeBinary` and `String_decodeBinary`.
use open_pub_sub.Base.{ℕ, ◌≤◌, ◌≡◌, List, [], ◌++◌, length, drop, leb}
use open_pub_sub.Binary.Status.{good, is_good}
use open_pub_sub.Binary.Writer.{Buffer}
use open_pub_sub.Binary.Writer.Safe.{Extends}
use open_pub_sub.Binary.Reader.{ok}
use open_pub_sub.Binary.Reader.Consumes.{Suffix, local}
use open_pub_sub.Binary.Correct.{good_iff_room, round_trip}
use open_pub_sub.Binary.Text.{Text, encode_text, decode_text, calc_size_text}
use open_pub_sub.Binary.Text.Laws.{
  TextFits, canonical_text, text-Writes, text-Safe, text-Reads, text-Consumes, length-text_encoding,
}

-- A string of fewer than 2^31 bytes, encoded into a buffer with room for its computed size, is
-- encoded with status good, and decoding the appended bytes returns the string, with NULL for the
-- pointer of a string of no bytes unless that is the sentinel of empty arrays, and leaves no input.
pub encode_text-decode_text :
    (t : Text) (b : Buffer)
    → TextFits t
    → calc_size_text t ≤ length b.after
    → ((encode_text t b).0 ≡ good)
      × (decode_text (drop (length b.before) (encode_text t b).1.before) ≡ ok (canonical_text t) [])
encode_text-decode_text t b f room =
    round_trip (text-Writes t f) (length-text_encoding t) b room (text-Reads t f)

-- A string of fewer than 2^31 bytes is encoded with status good exactly if the size computed for it
-- is at most the room in the buffer.
pub encode_text-good :
    (t : Text) (b : Buffer)
    → TextFits t
    → is_good (encode_text t b).0 ≡ leb (calc_size_text t) (length b.after)
encode_text-good t b f = good_iff_room (text-Writes t f) (length-text_encoding t) b

-- Encoding any string into any buffer, whether it succeeds or not, keeps the bytes before the
-- position and the length of the buffer.
pub encode_text-Extends : (t : Text) (b : Buffer) → Extends b (encode_text t b).1
encode_text-Extends t b = (text-Safe t).extends b

-- Where decoding a string from any input succeeds, what is left is the input without some bytes at
-- its front, and from the same input with any more bytes behind it the same is decoded, and those
-- bytes are left behind the rest.
pub decode_text-append :
    (input more : List ℕ) (a : Text) (rest : List ℕ)
    → decode_text input ≡ ok a rest
    → Suffix rest input × (decode_text (input ++ more) ≡ ok a (rest ++ more))
decode_text-append input more a rest e = local input more text-Consumes e
