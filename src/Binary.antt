-- ===== src/Binary.antt =====
-- The binary encoding of the built-in types (openPubSub/ua_pubsub/ua_types_encoding_binary.c).
pub mod Status
pub mod Writer
pub mod Reader
pub mod Scalars
pub mod Text
pub mod Guid
pub mod NodeId
pub mod LocalizedText
pub mod Generated
pub mod Parts
pub mod Correct
pub mod Each
pub mod Bytes
pub mod BuiltinType
pub mod Variant
pub mod VariantCodec
pub mod DataValue
