-- ===== src/Binary/LocalizedText/Correct.antt =====
-- A LocalizedText through a buffer.
use open_pub_sub.Base.{
  ℕ, ◌+◌, ◌≤◌, ◌≡◌, refl, Bool, true, false, set_flag, has_flag, List, [], ◌∷◌, ◌++◌, length,
  length-append, drop, if◌then◌else◌, arith,
}
use open_pub_sub.Binary.Status.{good}
use open_pub_sub.Binary.Writer.{Buffer}
use open_pub_sub.Binary.Writer.Writes.{Writes, part, >>-Writes, also-Writes, when-Writes}
use open_pub_sub.Binary.Writer.Safe.{>>-Safe, also-Safe, when-Safe, Safe}
use open_pub_sub.Binary.Reader.{ok}
use open_pub_sub.Binary.Reader.Reads.{
  Reads, Reads-eq, also-Reads, map-Reads, >>=-Reads, read_if-Reads,
}
use open_pub_sub.Binary.Scalars.Laws.{byte-Writes, byte-Safe, byte-Reads}
use open_pub_sub.Binary.Text.{Text, null, empty_sentinel, chars, calc_size_text}
use open_pub_sub.Binary.Text.Laws.{
  TextFits, text_encoding, canonical_text, text-Writes, text-Safe, text-Reads, length-text_encoding,
}
use open_pub_sub.Binary.Parts.{add_if}
use open_pub_sub.Binary.Correct.{round_trip}
use open_pub_sub.Binary.LocalizedText.{
  LocalizedText, has_data, localized_mask, encode_localized_text, decode_localized_text,
  calc_size_localized_text,
}

pub record LocalizedTextFits (t : LocalizedText) : Type 0 where
  pub locale_fits : TextFits t.locale
  pub text_fits : TextFits t.text

abbrev pub mask : LocalizedText → ℕ
mask t = localized_mask (has_data t.locale) (has_data t.text)

abbrev pub localized_text_encoding : LocalizedText → List ℕ
localized_text_encoding t =
    (mask t ∷ [])
    ++ (part (has_data t.locale) (text_encoding t.locale)
        ++ part (has_data t.text) (text_encoding t.text))

mask_flags :
    (a b : Bool) → (has_flag (localized_mask a b) 1 ≡ a) × (has_flag (localized_mask a b) 2 ≡ b)
unfolding localized_mask set_flag has_flag
mask_flags true true = (refl, refl)
mask_flags true false = (refl, refl)
mask_flags false true = (refl, refl)
mask_flags false false = (refl, refl)

-- A text that is not there comes back as one that is not there.
missing : (t : Text) → (if has_data t then canonical_text t else null) ≡ canonical_text t
missing null = refl
missing empty_sentinel = refl
missing (chars bs) = refl

module _ (t : LocalizedText) (f : LocalizedTextFits t) where
  pub localized_text-Writes : Writes (encode_localized_text t) (localized_text_encoding t)
  unfolding encode_localized_text
  localized_text-Writes =
      let (first, second) = mask_flags (has_data t.locale) (has_data t.text) in
      rw (first, second)
        (>>-Writes (byte-Writes (mask t)) (
          also-Writes (when-Writes _ (text-Writes t.locale f.locale_fits))
            (when-Writes _ (text-Writes t.text f.text_fits))))

  pub localized_text-Reads :
      Reads decode_localized_text
        (localized_text_encoding t)
        (record { locale = canonical_text t.locale; text = canonical_text t.text })
  unfolding decode_localized_text
  localized_text-Reads =
      let (first, second) = mask_flags (has_data t.locale) (has_data t.text) in
      >>=-Reads _ (byte-Reads (mask t)) (
        rw (first, second)
          (Reads-eq refl (λ i. record { locale = missing t.locale i; text = missing t.text i })
            (map-Reads (λ texts. record { locale = texts.0; text = texts.1 })
              (also-Reads
                (read_if-Reads (has_data t.locale) null (text-Reads t.locale f.locale_fits))
                (read_if-Reads (has_data t.text) null (text-Reads t.text f.text_fits))))))

pub localized_text-Safe : (t : LocalizedText) → Safe (encode_localized_text t)
unfolding encode_localized_text
localized_text-Safe t =
    >>-Safe (byte-Safe (mask t))
      (also-Safe (when-Safe _ (text-Safe t.locale)) (when-Safe _ (text-Safe t.text)))

part_size :
    (b : Bool) (t : Text) (size : ℕ)
    → add_if b (calc_size_text t) size ≡ size + length (part b (text_encoding t))
unfolding add_if part
part_size true t size = omega (arith, length-text_encoding t)
part_size false t size = omega arith

pub length-localized_text_encoding :
    (t : LocalizedText) → length (localized_text_encoding t) ≡ calc_size_localized_text t
unfolding calc_size_localized_text
length-localized_text_encoding t = omega (
  arith,
  length-append (part (has_data t.locale) (text_encoding t.locale))
      (part (has_data t.text) (text_encoding t.text)),
  part_size (has_data t.locale) t.locale 1,
  part_size (has_data t.text) t.text (add_if (has_data t.locale) (calc_size_text t.locale) 1),
)

-- A LocalizedText whose locale and text have an encoding, each of which may be missing, encoded into a
-- buffer with room for its computed size, is encoded with status good, and decoding the appended bytes
-- returns it, with texts that have no characters as the decoder builds them, and leaves no input.
pub encode_localized_text-decode_localized_text :
    (t : LocalizedText) (b : Buffer)
    → LocalizedTextFits t
    → calc_size_localized_text t ≤ length b.after
    → ((encode_localized_text t b).0 ≡ good)
      × (decode_localized_text (drop (length b.before) (encode_localized_text t b).1.before)
          ≡ ok (record { locale = canonical_text t.locale; text = canonical_text t.text }) [])
encode_localized_text-decode_localized_text t b f room =
    round_trip (localized_text-Writes t f) (length-localized_text_encoding t) b room
      (localized_text-Reads t f)
