-- ===== src/Binary/NodeId/Safe.antt =====
-- The encoders of NodeIds and of QualifiedNames stay inside their buffer.
use open_pub_sub.Base.{ℕ, ◌%◌, ◌^◌, Bool-cases, inl, inr}
use open_pub_sub.Binary.Writer.Safe.{Safe, >>-Safe, also-Safe}
use open_pub_sub.Binary.Scalars.Laws.{byte-Safe, uint16-Safe, uint32-Safe}
use open_pub_sub.Binary.Text.Laws.{text-Safe}
use open_pub_sub.Binary.Guid.Laws.{guid-Safe}
use open_pub_sub.Binary.NodeId.{
  Identifier, numeric, string, guid, byte_string, unknown, NodeId, is_complete, is_four_byte,
  encode_identifier, encode_with_mask, encode_node_id, QualifiedName, encode_qualified_name,
}
use open_pub_sub.Binary.NodeId.Laws.{IdentifierFits, guid_fits, NodeIdFits}

numeric-Safe : (ns id : ℕ) → Safe (encode_identifier 0 ns (numeric id))
unfolding encode_identifier
numeric-Safe ns id = elim (Bool-cases (is_complete id ns)) [
  | inl p ↦ rw p (also-Safe (also-Safe (byte-Safe _) (uint16-Safe ns)) (uint32-Safe id))
  | inr p ↦ elim (Bool-cases (is_four_byte id ns)) [
    | inl q ↦
        rw (p, q) (also-Safe (also-Safe (byte-Safe _) (byte-Safe (ns % 2 ^ 8))) (uint16-Safe _))
    | inr q ↦ rw (p, q) (also-Safe (byte-Safe _) (byte-Safe (id % 2 ^ 8)))
  ]
]

identifier-Safe : (ns : ℕ) (id : Identifier) → IdentifierFits id → Safe (encode_identifier 0 ns id)
unfolding encode_identifier
identifier-Safe ns (numeric id) f = numeric-Safe ns id
identifier-Safe ns unknown f = elim f [ ]
identifier-Safe ns (string t) f = >>-Safe (also-Safe (byte-Safe _) (uint16-Safe ns)) (text-Safe t)
identifier-Safe ns (guid g) (guid_fits h) =
    also-Safe (also-Safe (byte-Safe _) (uint16-Safe ns)) (guid-Safe g h)
identifier-Safe ns (byte_string t) f =
    >>-Safe (also-Safe (byte-Safe _) (uint16-Safe ns)) (text-Safe t)

pub node_id-Safe : (n : NodeId) → NodeIdFits n → Safe (encode_node_id n)
unfolding encode_node_id encode_with_mask
node_id-Safe n f = identifier-Safe n.namespace_index n.identifier f.identifier_fits

pub qualified_name-Safe : (q : QualifiedName) → Safe (encode_qualified_name q)
unfolding encode_qualified_name
qualified_name-Safe q = >>-Safe (uint16-Safe q.namespace_index) (text-Safe q.name)
