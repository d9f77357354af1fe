-- ===== src/Binary/NodeId/Correct.antt =====
-- A NodeId and a QualifiedName through a buffer.
use open_pub_sub.Base.{ℕ, ◌<◌, ◌≤◌, ◌^◌, ◌≡◌, List, [], ◌++◌, length, length-append, drop, arith}
use open_pub_sub.Binary.Status.{good}
use open_pub_sub.Binary.Writer.{Buffer}
use open_pub_sub.Binary.Writer.Writes.{Writes, >>-Writes}
use open_pub_sub.Binary.Reader.{ok}
use open_pub_sub.Binary.Reader.Reads.{Reads, also-Reads, map-Reads}
use open_pub_sub.Binary.Scalars.{encode16}
use open_pub_sub.Binary.Scalars.Laws.{uint16-Writes, uint16-Reads, length-encode16}
use open_pub_sub.Binary.Text.Laws.{
  TextFits, text_encoding, canonical_text, text-Writes, text-Reads, length-text_encoding,
}
use open_pub_sub.Binary.Correct.{round_trip}
use open_pub_sub.Binary.NodeId.{
  NodeId, encode_node_id, decode_node_id, calc_size_node_id, QualifiedName, encode_qualified_name,
  decode_qualified_name, calc_size_qualified_name,
}
use open_pub_sub.Binary.NodeId.Laws.{
  NodeIdFits, canonical_node_id, node_id-Writes, node_id-Reads, length-node_id_encoding,
}

-- A NodeId with an identifier of one of the four types, in range, encoded into a buffer with room for
-- its computed size in whichever of the three forms of a number it takes, is encoded with status good,
-- and decoding the appended bytes returns it, with a text that has no characters as the decoder builds
-- it, and leaves no input.
pub encode_node_id-decode_node_id :
    (n : NodeId) (b : Buffer)
    → NodeIdFits n
    → calc_size_node_id n ≤ length b.after
    → ((encode_node_id n b).0 ≡ good)
      × (decode_node_id (drop (length b.before) (encode_node_id n b).1.before)
          ≡ ok (canonical_node_id n) [])
encode_node_id-decode_node_id n b f room =
    round_trip (node_id-Writes n f) (length-node_id_encoding n f) b room (node_id-Reads n f)

abbrev pub qualified_name_encoding : QualifiedName → List ℕ
qualified_name_encoding q = encode16 q.namespace_index ++ text_encoding q.name

pub qualified_name-Writes :
    (q : QualifiedName)
    → TextFits q.name
    → Writes (encode_qualified_name q) (qualified_name_encoding q)
unfolding encode_qualified_name
qualified_name-Writes q h = >>-Writes (uint16-Writes q.namespace_index) (text-Writes q.name h)

pub qualified_name-Reads :
    (q : QualifiedName)
    → q.namespace_index < 2 ^ 16
    → TextFits q.name
    → Reads decode_qualified_name
        (qualified_name_encoding q)
        (record q { name = canonical_text q.name })
unfolding decode_qualified_name
qualified_name-Reads q k h =
    map-Reads (λ p. record { namespace_index = p.0; name = p.1 })
      (also-Reads (uint16-Reads q.namespace_index k) (text-Reads q.name h))

pub length-qualified_name_encoding :
    (q : QualifiedName) → length (qualified_name_encoding q) ≡ calc_size_qualified_name q
unfolding calc_size_qualified_name
length-qualified_name_encoding q = omega (
  arith,
  length-append (encode16 q.namespace_index) (text_encoding q.name),
  length-encode16 q.namespace_index,
  length-text_encoding q.name,
)

-- A QualifiedName whose namespace index is in range and whose name has an encoding, encoded into a
-- buffer with room for its computed size, is encoded with status good, and decoding the appended bytes
-- returns it, with a name that has no characters as the decoder builds it, and leaves no input.
pub encode_qualified_name-decode_qualified_name :
    (q : QualifiedName) (b : Buffer)
    → q.namespace_index < 2 ^ 16
    → TextFits q.name
    → calc_size_qualified_name q ≤ length b.after
    → ((encode_qualified_name q b).0 ≡ good)
      × (decode_qualified_name (drop (length b.before) (encode_qualified_name q b).1.before)
          ≡ ok (record q { name = canonical_text q.name }) [])
encode_qualified_name-decode_qualified_name q b k h room =
    round_trip (qualified_name-Writes q h) (length-qualified_name_encoding q) b room
      (qualified_name-Reads q k h)
