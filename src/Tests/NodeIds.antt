-- ===== src/Tests/NodeIds.antt =====
-- NodeIds, a QualifiedName and a LocalizedText, and the theorems about them.
use open_pub_sub.Base.{◌≡◌, refl, [], ◌∷◌, drop, arith}
use open_pub_sub.Binary.Status.{good}
use open_pub_sub.Binary.Reader.{ok}
use open_pub_sub.Binary.Text.{chars, calc_size_text}
use open_pub_sub.Binary.NodeId.{
  numeric, string, NodeId, node_of, encode_node_id, decode_node_id, calc_size_node_id,
  QualifiedName, encode_qualified_name, decode_qualified_name, calc_size_qualified_name,
}
use open_pub_sub.Binary.NodeId.Laws.{string_fits, canonical_node_id}
use open_pub_sub.Binary.NodeId.Correct.{
  encode_node_id-decode_node_id, encode_qualified_name-decode_qualified_name,
}
use open_pub_sub.Binary.Text.{null}
use open_pub_sub.Binary.Parts.{add_if}
use open_pub_sub.Binary.LocalizedText.{
  LocalizedText, encode_localized_text, decode_localized_text, calc_size_localized_text,
}
use open_pub_sub.Binary.LocalizedText.Correct.{
  LocalizedTextFits, encode_localized_text-decode_localized_text,
}
use open_pub_sub.Tests.Examples.{room}

-- The three forms of a number take two, four and seven bytes.
two_bytes : calc_size_node_id (node_of 0 (numeric 255)) ≡ 2
unfolding calc_size_node_id
two_bytes = refl

four_bytes : calc_size_node_id (node_of 0 (numeric 256)) ≡ 4
unfolding calc_size_node_id
four_bytes = refl

seven_bytes : calc_size_node_id (node_of 256 (numeric 0)) ≡ 7
unfolding calc_size_node_id
seven_bytes = refl

abbrev named : NodeId
named = node_of 1 (string (chars (104 ∷ 105 ∷ [])))

encode_node_id-decode_node_id_example :
    ((encode_node_id named room).0 ≡ good)
    × (decode_node_id (drop 2 (encode_node_id named room).1.before)
        ≡ ok (canonical_node_id named) [])
unfolding calc_size_node_id calc_size_text
encode_node_id-decode_node_id_example =
    encode_node_id-decode_node_id named room
      (record { namespace_range = omega arith; identifier_fits = string_fits (omega arith) })
      (omega arith)

abbrev qualified : QualifiedName
qualified = record { namespace_index = 1; name = chars (104 ∷ 105 ∷ []) }

encode_qualified_name-decode_qualified_name_example :
    ((encode_qualified_name qualified room).0 ≡ good)
    × (decode_qualified_name (drop 2 (encode_qualified_name qualified room).1.before)
        ≡ ok qualified [])
unfolding calc_size_qualified_name calc_size_text
encode_qualified_name-decode_qualified_name_example =
    encode_qualified_name-decode_qualified_name qualified room (omega arith) (omega arith)
      (omega arith)

abbrev localized : LocalizedText
localized = record { locale = null; text = chars (104 ∷ 105 ∷ []) }

localized-LocalizedTextFits : LocalizedTextFits localized
localized-LocalizedTextFits = record { locale_fits = omega arith; text_fits = omega arith }

encode_localized_text-decode_localized_text_example :
    ((encode_localized_text localized room).0 ≡ good)
    × (decode_localized_text (drop 2 (encode_localized_text localized room).1.before)
        ≡ ok localized [])
unfolding calc_size_localized_text calc_size_text add_if
encode_localized_text-decode_localized_text_example =
    encode_localized_text-decode_localized_text localized room localized-LocalizedTextFits
      (omega arith)
