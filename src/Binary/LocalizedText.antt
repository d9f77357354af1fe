-- ===== src/Binary/LocalizedText.antt =====
-- LocalizedText in openPubSub/ua_pubsub/ua_types_encoding_binary.c.
pub mod Correct
use open_pub_sub.Base.{ℕ, Bool, true, false, set_flag, has_flag}
use open_pub_sub.Binary.Writer.{Encoder, also, when, ◌>>◌}
use open_pub_sub.Binary.Reader
use open_pub_sub.Binary.Reader.{Reader, pure, read_if, ◌>>=◌}
use open_pub_sub.Binary.Scalars.{encode_byte, decode_byte, calc_size_binary1}
use open_pub_sub.Binary.Text.{
  Text, null, empty_sentinel, chars, encode_text, decode_text, calc_size_text,
}
use open_pub_sub.Binary.Parts.{add_if}

pub record LocalizedText : Type 0 where
  pub locale : Text
  pub text : Text

-- `data != NULL`; the sentinel is no null pointer.
abbrev pub has_data : Text → Bool
has_data null = false
has_data empty_sentinel = true
has_data (chars bs) = true

unfoldable pub localized_mask : Bool → Bool → ℕ
localized_mask locale text = set_flag text 2 (set_flag locale 1 0)

unfoldable pub encode_localized_text : LocalizedText → Encoder
encode_localized_text src =
    let encoding = localized_mask (has_data src.locale) (has_data src.text) in
    encode_byte encoding
    >> also (when (has_flag encoding 1) (encode_text src.locale))
        (when (has_flag encoding 2) (encode_text src.text))

unfoldable pub decode_localized_text : Reader LocalizedText
decode_localized_text = do
  encoding ← decode_byte
  texts ←
      Reader.also (read_if (has_flag encoding 1) decode_text null)
        (read_if (has_flag encoding 2) decode_text null)
  pure (record { locale = texts.0; text = texts.1 })

unfoldable pub calc_size_localized_text : LocalizedText → ℕ
calc_size_localized_text src =
    add_if (has_data src.text) (calc_size_text src.text)
      (add_if (has_data src.locale) (calc_size_text src.locale) calc_size_binary1)
