-- ===== src/Binary/NodeId.antt =====
-- NodeId and QualifiedName in openPubSub/ua_pubsub/ua_types_encoding_binary.c. The numbers that stand
-- for the types of identifiers are those of open62541's `UA_NodeIdType`.
pub mod Laws
pub mod Safe
pub mod Correct
use open_pub_sub.Base.{ℕ, ◌+◌, ◌%◌, ◌^◌, Bool, ◌||◌, ◌==◌, ltb, bit_and, bit_or, if◌then◌else◌}
use open_pub_sub.Binary.Status.{bad_internal_error}
use open_pub_sub.Binary.Writer.{Encoder, also, fail, ◌>>◌}
use open_pub_sub.Binary.Reader
use open_pub_sub.Binary.Reader.{Reader, pure, ◌>>=◌}
use open_pub_sub.Binary.Scalars.{
  encode_byte, encode_uint16, encode_uint32, decode_byte, decode_uint16, decode_uint32,
}
use open_pub_sub.Binary.Text.{Text, encode_text, decode_text, calc_size_text}
use open_pub_sub.Binary.Guid.{Guid, encode_guid, decode_guid}

-- `identifierType` and `identifier`. The last one is any other type.
pub data Identifier : Type 0 where
  numeric : ℕ → Identifier
  string : Text → Identifier
  guid : Guid → Identifier
  byte_string : Text → Identifier
  unknown : Identifier

pub record NodeId : Type 0 where
  pub namespace_index : ℕ
  pub identifier : Identifier

-- `identifier.numeric > UA_UINT16_MAX || namespaceIndex > UA_BYTE_MAX`
abbrev pub is_complete : ℕ → ℕ → Bool
is_complete id namespace = ltb 65535 id || ltb 255 namespace

-- `identifier.numeric > UA_BYTE_MAX || namespaceIndex > 0`
abbrev pub is_four_byte : ℕ → ℕ → Bool
is_four_byte id namespace = ltb 255 id || ltb 0 namespace

unfoldable pub encode_identifier : ℕ → ℕ → Identifier → Encoder
encode_identifier encoding namespace (numeric id) =
    if is_complete id namespace
    then also (also (encode_byte (bit_or encoding 2)) (encode_uint16 namespace)) (encode_uint32 id)
    else if is_four_byte id namespace
    then also (also (encode_byte (bit_or encoding 1)) (encode_byte (namespace % 2 ^ 8)))
        (encode_uint16 (id % 2 ^ 16))
    else also (encode_byte (bit_or encoding 0)) (encode_byte (id % 2 ^ 8))
encode_identifier encoding namespace (string text) =
    also (encode_byte (bit_or encoding 3)) (encode_uint16 namespace) >> encode_text text
encode_identifier encoding namespace (guid g) =
    also (also (encode_byte (bit_or encoding 4)) (encode_uint16 namespace)) (encode_guid g)
encode_identifier encoding namespace (byte_string text) =
    also (encode_byte (bit_or encoding 5)) (encode_uint16 namespace) >> encode_text text
encode_identifier encoding namespace unknown = fail bad_internal_error

unfoldable pub encode_with_mask : NodeId → ℕ → Encoder
encode_with_mask src encoding = encode_identifier encoding src.namespace_index src.identifier

unfoldable pub encode_node_id : NodeId → Encoder
encode_node_id src = encode_with_mask src 0

abbrev pub node_of : ℕ → Identifier → NodeId
node_of namespace identifier = record { namespace_index = namespace; identifier = identifier }

-- `switch(encodingByte)`
unfoldable pub decode_identifier : ℕ → Reader NodeId
decode_identifier encoding =
    if encoding == 0
    then decode_byte >>= (λ id. pure (node_of 0 (numeric id)))
    else if encoding == 1
    then Reader.also decode_byte decode_uint16 >>= (λ p. pure (node_of p.0 (numeric p.1)))
    else if encoding == 2
    then Reader.also decode_uint16 decode_uint32 >>= (λ p. pure (node_of p.0 (numeric p.1)))
    else if encoding == 3
    then Reader.also decode_uint16 decode_text >>= (λ p. pure (node_of p.0 (string p.1)))
    else if encoding == 4
    then Reader.also decode_uint16 decode_guid >>= (λ p. pure (node_of p.0 (guid p.1)))
    else if encoding == 5
    then Reader.also decode_uint16 decode_text >>= (λ p. pure (node_of p.0 (byte_string p.1)))
    else Reader.fail bad_internal_error

-- The two bits of an ExpandedNodeId are masked out.
unfoldable pub decode_node_id : Reader NodeId
decode_node_id = decode_byte >>= λ v. decode_identifier (bit_and v 63)

abbrev pub calc_size_identifier : ℕ → Identifier → ℕ
calc_size_identifier namespace (numeric id) =
    if is_complete id namespace then 1 + 6 else if is_four_byte id namespace then 1 + 3 else 1 + 1
calc_size_identifier namespace (string text) = 1 + 2 + calc_size_text text
calc_size_identifier namespace (guid g) = 1 + 18
calc_size_identifier namespace (byte_string text) = 1 + 2 + calc_size_text text
calc_size_identifier namespace unknown = 0

unfoldable pub calc_size_node_id : NodeId → ℕ
calc_size_node_id src = calc_size_identifier src.namespace_index src.identifier

pub record QualifiedName : Type 0 where
  pub namespace_index : ℕ
  pub name : Text

unfoldable pub encode_qualified_name : QualifiedName → Encoder
encode_qualified_name src = encode_uint16 src.namespace_index >> encode_text src.name

unfoldable pub decode_qualified_name : Reader QualifiedName
decode_qualified_name = Reader.also decode_uint16 decode_text >>= λ p.
    pure (record { namespace_index = p.0; name = p.1 })

unfoldable pub calc_size_qualified_name : QualifiedName → ℕ
calc_size_qualified_name src = 2 + calc_size_text src.name
