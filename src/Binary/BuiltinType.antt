-- ===== src/Binary/BuiltinType.antt =====
-- The builtin types that a scalar Variant of the model can have: their entries in
-- `encodeBinaryJumpTable`, `decodeBinaryJumpTable` and `calcSizeBinaryJumpTable` of
-- openPubSub/ua_pubsub/ua_types_encoding_binary.c, with the laws of those entries.
use open_pub_sub.Base.{
  ℕ, ◌<◌, ◌^◌, ◌≡◌, refl, Bool, List, [], ◌∷◌, bit, length, ◌==◌, Option, none, some, if◌then◌else◌,
}
use open_pub_sub.Binary.Writer.{Encoder}
use open_pub_sub.Binary.Writer.Writes.{Writes}
use open_pub_sub.Binary.Writer.Safe.{Safe}
use open_pub_sub.Binary.Reader.{Reader}
use open_pub_sub.Binary.Reader.Reads.{Reads}
use open_pub_sub.Binary.Scalars.{
  encode16, encode32, encode64, encode_boolean, encode_byte, encode_uint16, encode_uint32,
  encode_uint64, decode_boolean, decode_byte, decode_uint16, decode_uint32, decode_uint64,
  calc_size_binary1, calc_size_binary2, calc_size_binary4, calc_size_binary8,
}
use open_pub_sub.Binary.Scalars.Laws.{
  boolean-Writes, byte-Writes, uint16-Writes, uint32-Writes, uint64-Writes, boolean-Safe, byte-Safe,
  uint16-Safe, uint32-Safe, uint64-Safe, boolean-Reads, byte-Reads, uint16-Reads, uint32-Reads,
  uint64-Reads, length-encode16, length-encode32, length-encode64,
}
use open_pub_sub.Binary.Text.{Text, encode_text, decode_text, calc_size_text}
use open_pub_sub.Binary.Text.Laws.{
  TextFits, text_encoding, canonical_text, text-Writes, text-Safe, text-Reads, length-text_encoding,
}
use open_pub_sub.Binary.Guid.{Guid, encode_guid, decode_guid, calc_size_guid}
use open_pub_sub.Binary.Guid.Laws.{
  GuidFits, guid_encoding, guid-Writes, guid-Safe, guid-Reads, length-guid_encoding,
}
use open_pub_sub.Binary.NodeId.{
  NodeId, encode_node_id, decode_node_id, calc_size_node_id, QualifiedName, encode_qualified_name,
  decode_qualified_name, calc_size_qualified_name,
}
use open_pub_sub.Binary.NodeId.Laws.{
  NodeIdFits, node_id_encoding, canonical_node_id, node_id-Writes, node_id-Reads,
  length-node_id_encoding,
}
use open_pub_sub.Binary.NodeId.Safe.{node_id-Safe, qualified_name-Safe}
use open_pub_sub.Binary.NodeId.Correct.{
  qualified_name_encoding, qualified_name-Writes, qualified_name-Reads,
  length-qualified_name_encoding,
}
use open_pub_sub.Binary.LocalizedText.{
  LocalizedText, encode_localized_text, decode_localized_text, calc_size_localized_text,
}
use open_pub_sub.Binary.LocalizedText.Correct.{
  LocalizedTextFits, localized_text_encoding, localized_text-Writes, localized_text-Safe,
  localized_text-Reads, length-localized_text_encoding,
}

-- One row of the three tables. A signed integer is the number with its digits.
pub record BuiltinType : Type 1 where
  pub Value : Type 0
  pub encode : Value → Encoder
  pub decode : Reader Value
  pub calc_size : Value → ℕ
  pub Fits : Value → Type 0
  pub encoding : Value → List ℕ
  pub canonical : Value → Value
  pub encode-Writes : (v : Value) → Fits v → Writes (encode v) (encoding v)
  pub encode-Safe : (v : Value) → Fits v → Safe (encode v)
  pub decode-Reads : (v : Value) → Fits v → Reads decode (encoding v) (canonical v)
  pub length-encoding : (v : Value) → Fits v → length (encoding v) ≡ calc_size v

abbrev boolean_type : BuiltinType
boolean_type = record {
  Value = Bool;
  encode = encode_boolean;
  decode = decode_boolean;
  calc_size = λ v. calc_size_binary1;
  Fits = λ v. Unit;
  encoding = λ v. bit v ∷ [];
  canonical = λ v. v;
  encode-Writes = λ v f. boolean-Writes v;
  encode-Safe = λ v f. boolean-Safe v;
  decode-Reads = λ v f. boolean-Reads v;
  length-encoding = λ v f. refl;
}

abbrev byte_type : BuiltinType
byte_type = record {
  Value = ℕ;
  encode = encode_byte;
  decode = decode_byte;
  calc_size = λ v. calc_size_binary1;
  Fits = λ v. v < 2 ^ 8;
  encoding = λ v. v ∷ [];
  canonical = λ v. v;
  encode-Writes = λ v f. byte-Writes v;
  encode-Safe = λ v f. byte-Safe v;
  decode-Reads = λ v f. byte-Reads v;
  length-encoding = λ v f. refl;
}

abbrev uint16_type : BuiltinType
uint16_type = record {
  Value = ℕ;
  encode = encode_uint16;
  decode = decode_uint16;
  calc_size = λ v. calc_size_binary2;
  Fits = λ v. v < 2 ^ 16;
  encoding = encode16;
  canonical = λ v. v;
  encode-Writes = λ v f. uint16-Writes v;
  encode-Safe = λ v f. uint16-Safe v;
  decode-Reads = uint16-Reads;
  length-encoding = λ v f. length-encode16 v;
}

abbrev uint32_type : BuiltinType
uint32_type = record {
  Value = ℕ;
  encode = encode_uint32;
  decode = decode_uint32;
  calc_size = λ v. calc_size_binary4;
  Fits = λ v. v < 2 ^ 32;
  encoding = encode32;
  canonical = λ v. v;
  encode-Writes = λ v f. uint32-Writes v;
  encode-Safe = λ v f. uint32-Safe v;
  decode-Reads = uint32-Reads;
  length-encoding = λ v f. length-encode32 v;
}

abbrev uint64_type : BuiltinType
uint64_type = record {
  Value = ℕ;
  encode = encode_uint64;
  decode = decode_uint64;
  calc_size = λ v. calc_size_binary8;
  Fits = λ v. v < 2 ^ 64;
  encoding = encode64;
  canonical = λ v. v;
  encode-Writes = λ v f. uint64-Writes v;
  encode-Safe = λ v f. uint64-Safe v;
  decode-Reads = uint64-Reads;
  length-encoding = λ v f. length-encode64 v;
}

abbrev text_type : BuiltinType
text_type = record {
  Value = Text;
  encode = encode_text;
  decode = decode_text;
  calc_size = calc_size_text;
  Fits = TextFits;
  encoding = text_encoding;
  canonical = canonical_text;
  encode-Writes = text-Writes;
  encode-Safe = λ v f. text-Safe v;
  decode-Reads = text-Reads;
  length-encoding = λ v f. length-text_encoding v;
}

abbrev guid_type : BuiltinType
guid_type = record {
  Value = Guid;
  encode = encode_guid;
  decode = decode_guid;
  calc_size = calc_size_guid;
  Fits = GuidFits;
  encoding = guid_encoding;
  canonical = λ v. v;
  encode-Writes = guid-Writes;
  encode-Safe = guid-Safe;
  decode-Reads = guid-Reads;
  length-encoding = length-guid_encoding;
}

abbrev node_id_type : BuiltinType
node_id_type = record {
  Value = NodeId;
  encode = encode_node_id;
  decode = decode_node_id;
  calc_size = calc_size_node_id;
  Fits = NodeIdFits;
  encoding = node_id_encoding;
  canonical = canonical_node_id;
  encode-Writes = node_id-Writes;
  encode-Safe = node_id-Safe;
  decode-Reads = node_id-Reads;
  length-encoding = length-node_id_encoding;
}

abbrev qualified_name_type : BuiltinType
qualified_name_type = record {
  Value = QualifiedName;
  encode = encode_qualified_name;
  decode = decode_qualified_name;
  calc_size = calc_size_qualified_name;
  Fits = λ q. (q.namespace_index < 2 ^ 16) × TextFits q.name;
  encoding = qualified_name_encoding;
  canonical = λ q. record q { name = canonical_text q.name };
  encode-Writes = λ q f. qualified_name-Writes q f.1;
  encode-Safe = λ q f. qualified_name-Safe q;
  decode-Reads = λ q f. qualified_name-Reads q f.0 f.1;
  length-encoding = λ q f. length-qualified_name_encoding q;
}

abbrev localized_text_type : BuiltinType
localized_text_type = record {
  Value = LocalizedText;
  encode = encode_localized_text;
  decode = decode_localized_text;
  calc_size = calc_size_localized_text;
  Fits = LocalizedTextFits;
  encoding = localized_text_encoding;
  canonical = λ t. record { locale = canonical_text t.locale; text = canonical_text t.text };
  encode-Writes = localized_text-Writes;
  encode-Safe = λ t f. localized_text-Safe t;
  decode-Reads = localized_text-Reads;
  length-encoding = λ t f. length-localized_text_encoding t;
}

-- `UA_DataTypeKind`, as far as the values of those kinds are modelled.
pub data Kind : Type 0 where
  boolean : Kind
  sbyte : Kind
  byte : Kind
  int16 : Kind
  uint16 : Kind
  int32 : Kind
  uint32 : Kind
  int64 : Kind
  uint64 : Kind
  string : Kind
  date_time : Kind
  guid : Kind
  byte_string : Kind
  xml_element : Kind
  node_id : Kind
  status_code : Kind
  qualified_name : Kind
  localized_text : Kind

-- The index of a kind in the tables.
unfoldable pub type_kind : Kind → ℕ
type_kind boolean = 0
type_kind sbyte = 1
type_kind byte = 2
type_kind int16 = 3
type_kind uint16 = 4
type_kind int32 = 5
type_kind uint32 = 6
type_kind int64 = 7
type_kind uint64 = 8
type_kind string = 11
type_kind date_time = 12
type_kind guid = 13
type_kind byte_string = 14
type_kind xml_element = 15
type_kind node_id = 16
type_kind status_code = 18
type_kind qualified_name = 19
type_kind localized_text = 20

-- The kind with a given index.
unfoldable pub kind_at : ℕ → Option Kind
kind_at n =
    if n == 0
    then some boolean
    else if n == 1
    then some sbyte
    else if n == 2
    then some byte
    else if n == 3
    then some int16
    else if n == 4
    then some uint16
    else if n == 5
    then some int32
    else if n == 6
    then some uint32
    else if n == 7
    then some int64
    else if n == 8
    then some uint64
    else if n == 11
    then some string
    else if n == 12
    then some date_time
    else if n == 13
    then some guid
    else if n == 14
    then some byte_string
    else if n == 15
    then some xml_element
    else if n == 16
    then some node_id
    else if n == 18
    then some status_code
    else if n == 19
    then some qualified_name
    else if n == 20
    then some localized_text
    else none

-- `encodeBinaryJumpTable[kind]` and its partners.
unfoldable pub jump_table : Kind → BuiltinType
jump_table boolean = boolean_type
jump_table sbyte = byte_type
jump_table byte = byte_type
jump_table int16 = uint16_type
jump_table uint16 = uint16_type
jump_table int32 = uint32_type
jump_table uint32 = uint32_type
jump_table int64 = uint64_type
jump_table uint64 = uint64_type
jump_table string = text_type
jump_table date_time = uint64_type
jump_table guid = guid_type
jump_table byte_string = text_type
jump_table xml_element = text_type
jump_table node_id = node_id_type
jump_table status_code = uint32_type
jump_table qualified_name = qualified_name_type
jump_table localized_text = localized_text_type
