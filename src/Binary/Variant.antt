-- ===== src/Binary/Variant.antt =====
-- Scalar Variants of builtin types: `Variant_encodeBinary`, `Variant_decodeBinary` and
-- `Variant_calcSizeBinary` of openPubSub/ua_pubsub/ua_types_encoding_binary.c.
pub mod Laws
pub mod Correct
use open_pub_sub.Base.{
  ℕ, ◌+◌, ◌-◌, ◌%◌, ◌==◌, ◌&&◌, ◌||◌, not, ltb, has_flag, List, Option, none, some, if◌then◌else◌,
}
use open_pub_sub.Binary.Status.{bad_decoding_error, bad_encoding_error}
use open_pub_sub.Binary.Writer.{Encoder, encode_with_exchange_buffer, ◌>>◌}
use open_pub_sub.Binary.Reader.{Reader, pure, fail, ◌>>=◌}
use open_pub_sub.Binary.Scalars.{encode_byte, decode_byte}
use open_pub_sub.Binary.BuiltinType.{BuiltinType, Kind, type_kind, kind_at, jump_table}
use open_pub_sub.Binary.DataValue.{max_recursion}

-- Variants of other types and arrays, which the model leaves open: their encoder and size, and what
-- follows an encoding byte in the decoder, which takes the nesting depth too. Nothing is assumed of
-- them.
pub record OtherVariants : Type 1 where
  pub Other : Type 0
  pub encode : Other → Encoder
  pub decode : ℕ → ℕ → Reader Other
  pub calc_size : Other → ℕ

pub data Variant (o : OtherVariants) : Type 0 where
  empty_variant : Variant o
  scalar : (k : Kind) → BuiltinType.Value (jump_table k) → Variant o
  other : o.Other → Variant o

-- `encoding | (UA_VARIANT_ENCODINGMASKTYPE_TYPEID_MASK & (typeKind + 1))`
unfoldable pub encoding_byte : Kind → ℕ
encoding_byte k = (type_kind k + 1) % 64

module _ (o : OtherVariants) where
  unfoldable pub encode_variant : Variant o → Encoder
  encode_variant empty_variant = encode_byte 0
  encode_variant (scalar k v) =
      encode_byte (encoding_byte k)
      >> encode_with_exchange_buffer (BuiltinType.encode (jump_table k) v)
  encode_variant (other x) = o.encode x

  -- The content of a scalar.
  unfoldable pub decode_scalar : ℕ → ℕ → Option Kind → Reader (Variant o)
  decode_scalar depth byte none = o.decode (depth + 1) byte >>= λ x. pure (other x)
  decode_scalar depth byte (some k) = BuiltinType.decode (jump_table k) >>= λ v. pure (scalar k v)

  -- What follows the encoding byte. The type id of a Variant is 24, and 25 is the last one.
  unfoldable pub decode_typed : ℕ → ℕ → Reader (Variant o)
  decode_typed depth byte =
      let is_array = has_flag byte 128 in
      let type_id = byte % 64 in
      if byte == 0
      then pure empty_variant
      else if (type_id == 0) || ltb 25 type_id
      then fail bad_decoding_error
      else if (type_id == 24) && not is_array
      then fail bad_decoding_error
      else if ltb max_recursion depth
      then fail bad_encoding_error
      else decode_scalar depth byte (if is_array then none else kind_at (type_id - 1))

  unfoldable pub decode_variant : ℕ → Reader (Variant o)
  decode_variant depth = decode_byte >>= decode_typed depth

  unfoldable pub calc_size_variant : Variant o → ℕ
  calc_size_variant empty_variant = 1
  calc_size_variant (scalar k v) = 1 + BuiltinType.calc_size (jump_table k) v
  calc_size_variant (other x) = o.calc_size x
