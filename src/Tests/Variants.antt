-- ===== src/Tests/Variants.antt =====
-- A Variant with a string, and the theorems about it and about messages at the codec of Variants.
use open_pub_sub.Base.{◌≡◌, [], ◌∷◌, length, drop, leb, arith}
use open_pub_sub.Binary.Status.{good, is_good, bad_not_supported}
use open_pub_sub.Binary.Writer.{fail}
use open_pub_sub.Binary.Reader.{ok}
use open_pub_sub.Binary.Text.{chars, calc_size_text}
use open_pub_sub.Binary.BuiltinType.{string, jump_table}
use open_pub_sub.Binary.Variant.{
  OtherVariants, Variant, scalar, encode_variant, decode_variant, calc_size_variant,
}
use open_pub_sub.Binary.Variant.Laws.{VariantFits, canonical_variant}
use open_pub_sub.Binary.Variant.Correct.{encode_variant-decode_variant, encode_variant-good}
use open_pub_sub.Tests.Examples.{room}
use open_pub_sub.Binary.Reader

-- No other Variants are supported.
abbrev pub none_other : OtherVariants
none_other = record {
  Other = ⊥;
  encode = λ x. fail bad_not_supported;
  decode = λ depth byte. Reader.fail bad_not_supported;
  calc_size = λ x. 0;
}

abbrev pub greeting : Variant none_other
unfolding jump_table
greeting = scalar string (chars (104 ∷ 105 ∷ []))

pub greeting-VariantFits : VariantFits none_other greeting
unfolding VariantFits jump_table
greeting-VariantFits = omega arith

encode_variant-decode_variant_example :
    ((encode_variant none_other greeting room).0 ≡ good)
    × (decode_variant none_other 0
          (drop (length room.before) (encode_variant none_other greeting room).1.before)
        ≡ ok (canonical_variant none_other greeting) [])
unfolding calc_size_variant jump_table calc_size_text
encode_variant-decode_variant_example =
    encode_variant-decode_variant none_other greeting room 0 (omega arith) greeting-VariantFits
      (omega arith)

encode_variant-good_example :
    is_good (encode_variant none_other greeting room).0
    ≡ leb (calc_size_variant none_other greeting) (length room.after)
encode_variant-good_example = encode_variant-good none_other greeting room greeting-VariantFits
