-- ===== src/Binary/Variant/Correct.antt =====
-- A scalar Variant through a buffer: `Variant_encodeBinary` and `Variant_decodeBinary`.
use open_pub_sub.Base.{ℕ, ◌≤◌, ◌≡◌, [], length, drop, leb}
use open_pub_sub.Binary.Status.{good, is_good}
use open_pub_sub.Binary.Writer.{Buffer}
use open_pub_sub.Binary.Reader.{ok}
use open_pub_sub.Binary.Correct.{good_iff_room, round_trip}
use open_pub_sub.Binary.Variant.{
  OtherVariants, Variant, encode_variant, decode_variant, calc_size_variant,
}
use open_pub_sub.Binary.Variant.Laws.{
  VariantFits, canonical_variant, variant-Writes, variant-Reads, length-variant_encoding,
}

-- Whatever Variants of other types and arrays are: the empty Variant, or a scalar of one of the kinds
-- of the model with a value that has an encoding, encoded into a buffer with room for its computed
-- size, is encoded with status good, and decoding the appended bytes at nesting depth 0 or 1 returns
-- it, of the same kind, with a text of no bytes as one that is not there, and leaves no input.
pub encode_variant-decode_variant :
    (o : OtherVariants) (v : Variant o) (b : Buffer) (depth : ℕ)
    → depth ≤ 1
    → VariantFits o v
    → calc_size_variant o v ≤ length b.after
    → ((encode_variant o v b).0 ≡ good)
      × (decode_variant o depth (drop (length b.before) (encode_variant o v b).1.before)
          ≡ ok (canonical_variant o v) [])
encode_variant-decode_variant o v b depth h f room =
    round_trip (variant-Writes o v f) (length-variant_encoding o v f) b room
      (variant-Reads o depth v h f)

-- Whatever Variants of other types and arrays are: the empty Variant, or a scalar of one of the kinds
-- of the model with a value that has an encoding, is encoded with status good exactly if its computed
-- size is left in the buffer.
pub encode_variant-good :
    (o : OtherVariants) (v : Variant o) (b : Buffer)
    → VariantFits o v
    → is_good (encode_variant o v b).0 ≡ leb (calc_size_variant o v) (length b.after)
encode_variant-good o v b f = good_iff_room (variant-Writes o v f) (length-variant_encoding o v f) b
