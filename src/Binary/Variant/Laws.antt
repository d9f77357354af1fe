-- ===== src/Binary/Variant/Laws.antt =====
-- Scalar Variants of builtin types are written, measured and read back as the messages need it.
use open_pub_sub.Base.{
  ℕ, ◌≤◌, ◌<◌, ◌≡◌, refl, ltb, has_flag, false, List, [], ◌∷◌, ◌++◌, length, some, arith,
}
use open_pub_sub.Binary.Writer.Writes.{Writes, >>-Writes, exchange-Writes}
use open_pub_sub.Binary.Writer.Safe.{Safe, >>-Safe, exchange-Safe}
use open_pub_sub.Binary.Reader.Reads.{Reads, >>=-Reads, map-Reads, pure-Reads}
use open_pub_sub.Binary.Scalars.Laws.{byte-Writes, byte-Safe, byte-Reads}
use open_pub_sub.Binary.BuiltinType.{
  BuiltinType, Kind, type_kind, kind_at, jump_table, boolean, sbyte, byte, int16, uint16, int32,
  uint32, int64, uint64, string, date_time, guid, byte_string, xml_element, node_id, status_code,
  qualified_name, localized_text,
}
use open_pub_sub.Binary.DataValue.{max_recursion}
use open_pub_sub.Binary.VariantCodec.{VariantCodec}
use open_pub_sub.Binary.Variant.{
  OtherVariants, Variant, empty_variant, scalar, other, encoding_byte, encode_variant,
  decode_scalar, decode_typed, decode_variant, calc_size_variant,
}

module _ (o : OtherVariants) where
  -- The empty Variant, and the scalars whose value has an encoding.
  unfoldable pub VariantFits : Variant o → Type 0
  VariantFits empty_variant = Unit
  VariantFits (scalar k v) = BuiltinType.Fits (jump_table k) v
  VariantFits (other x) = ⊥

  unfoldable pub variant_encoding : Variant o → List ℕ
  variant_encoding empty_variant = 0 ∷ []
  variant_encoding (scalar k v) = (encoding_byte k ∷ []) ++ BuiltinType.encoding (jump_table k) v
  variant_encoding (other x) = []

  unfoldable pub canonical_variant : Variant o → Variant o
  canonical_variant empty_variant = empty_variant
  canonical_variant (scalar k v) = scalar k (BuiltinType.canonical (jump_table k) v)
  canonical_variant (other x) = other x

  pub variant-Writes :
      (v : Variant o) → VariantFits v → Writes (encode_variant o v) (variant_encoding v)
  unfolding encode_variant VariantFits variant_encoding
  variant-Writes empty_variant f = byte-Writes 0
  variant-Writes (scalar k v) f =
      >>-Writes (byte-Writes (encoding_byte k))
        (exchange-Writes (BuiltinType.encode-Writes (jump_table k) v f))
  variant-Writes (other x) f = absurd f

  pub variant-Safe : (v : Variant o) → VariantFits v → Safe (encode_variant o v)
  unfolding encode_variant VariantFits
  variant-Safe empty_variant f = byte-Safe 0
  variant-Safe (scalar k v) f =
      >>-Safe (byte-Safe (encoding_byte k))
        (exchange-Safe (BuiltinType.encode-Safe (jump_table k) v f))
  variant-Safe (other x) f = absurd f

  -- The encoding byte of a kind is read as that kind.
  typed :
      (depth : ℕ) (k : Kind)
      → ltb max_recursion depth ≡ false
      → decode_typed o depth (encoding_byte k) ≡ decode_scalar o depth (encoding_byte k) (some k)
  unfolding decode_typed encoding_byte type_kind kind_at has_flag
  typed depth boolean p = rw p refl
  typed depth sbyte p = rw p refl
  typed depth byte p = rw p refl
  typed depth int16 p = rw p refl
  typed depth uint16 p = rw p refl
  typed depth int32 p = rw p refl
  typed depth uint32 p = rw p refl
  typed depth int64 p = rw p refl
  typed depth uint64 p = rw p refl
  typed depth string p = rw p refl
  typed depth date_time p = rw p refl
  typed depth guid p = rw p refl
  typed depth byte_string p = rw p refl
  typed depth xml_element p = rw p refl
  typed depth node_id p = rw p refl
  typed depth status_code p = rw p refl
  typed depth qualified_name p = rw p refl
  typed depth localized_text p = rw p refl

  pub variant-Reads :
      (depth : ℕ) (v : Variant o)
      → depth ≤ 1
      → VariantFits v
      → Reads (decode_variant o depth) (variant_encoding v) (canonical_variant v)
  unfolding decode_variant VariantFits variant_encoding canonical_variant decode_scalar decode_typed
  variant-Reads depth empty_variant h f =
      >>=-Reads (decode_typed o depth) (byte-Reads 0) (pure-Reads empty_variant)
  variant-Reads depth (scalar k v) h f =
      >>=-Reads (decode_typed o depth) (byte-Reads (encoding_byte k)) (
        rw (typed depth k (ground arith))
          (map-Reads (λ x. scalar k x) (BuiltinType.decode-Reads (jump_table k) v f)))
  variant-Reads depth (other x) h f = absurd f

  pub variant-NonEmpty : (v : Variant o) → VariantFits v → 0 < length (variant_encoding v)
  unfolding VariantFits variant_encoding
  variant-NonEmpty empty_variant f = omega arith
  variant-NonEmpty (scalar k v) f = omega arith
  variant-NonEmpty (other x) f = absurd f

  pub length-variant_encoding :
      (v : Variant o) → VariantFits v → length (variant_encoding v) ≡ calc_size_variant o v
  unfolding VariantFits variant_encoding calc_size_variant
  length-variant_encoding empty_variant f = refl
  length-variant_encoding (scalar k v) f =
      omega (arith, BuiltinType.length-encoding (jump_table k) v f)
  length-variant_encoding (other x) f = absurd f

-- The codec of the program's Variants, whose scalars of those builtin types meet the laws.
abbrev pub variant_codec : OtherVariants → VariantCodec
variant_codec o = record {
  Variant = Variant o;
  empty = empty_variant;
  encode = encode_variant o;
  decode = decode_variant o;
  calc_size = calc_size_variant o;
  Fits = VariantFits o;
  encoding = variant_encoding o;
  canonical = canonical_variant o;
  encode-Writes = variant-Writes o;
  encode-Safe = variant-Safe o;
  decode-Reads = variant-Reads o;
  encoding-NonEmpty = variant-NonEmpty o;
  length-encoding = length-variant_encoding o;
}
