-- ===== src/Message/Network/Reading.antt =====
-- What each section of `UA_NetworkMessage_decodeBinaryInternal` reads of what is encoded.
pub mod Front
pub mod Payload
use open_pub_sub.Base.{
  ap, ℕ, zero, suc, ◌+◌, ◌/◌, ◌%◌, ◌^◌, ◌<◌, ◌≡◌, refl, sym, Bool, true, false, ◌&&◌, ltb, le→ltb,
  lt→ltb, has_flag, bit_and, List, [], ◌∷◌, ◌++◌, map, length, All, Option, some, none,
  if◌then◌else◌, arith,
}
use mathlib.Core.Bool.{false≢true}
use open_pub_sub.Binary.Reader.{pure, read_if, ◌>>=◌}
use open_pub_sub.Binary.Reader.Reads.{
  Reads, >>=-Reads, map-Reads, Reads-eq, read_if-Reads, pure-Reads,
}
use open_pub_sub.Binary.Writer.Writes.{part}
use open_pub_sub.Binary.Scalars.{encode16}
use open_pub_sub.Binary.Text.{null}
use open_pub_sub.Binary.Text.Laws.{text_encoding, canonical_text}
use open_pub_sub.Binary.Generated.Laws.{
  byte_decode_binary-Reads, uint16_decode_binary-Reads, uint32_decode_binary-Reads,
  uint64_decode_binary-Reads, text_decode_binary-Reads,
}
use open_pub_sub.Binary.Generated.{uint16_decode_binary}
use open_pub_sub.Binary.Each.{decode_each, concat, each-Reads}
use open_pub_sub.Binary.Bytes.{bytes-Reads}
use open_pub_sub.Binary.VariantCodec.{VariantCodec}
use open_pub_sub.Message.SecurityHeader.Laws.{canonical_security_header}
use open_pub_sub.Message.DataSet.{DataSetMessage}
use open_pub_sub.Message.DataSet.Decode.{decode_data_set_message}
use open_pub_sub.Message.DataSet.Fits.{DataSetMessageFits, data_set_message_encoding}
use open_pub_sub.Message.DataSet.RoundTrip.{canonical_message, data_set_message-Reads}
use open_pub_sub.Message.Network.{
  NetworkMessage, PublisherId, number, string, id_number, extended_flags1_enabled,
  extended_flags2_enabled,
}
use open_pub_sub.Message.Network.Encode.{
  uadp_flags, extended_flags1, extended_flags2, announced_size,
}
use open_pub_sub.Message.Network.Footer.{footer-Reads}
use open_pub_sub.Message.Network.Fits.{
  PublisherIdFits, PayloadFits, single, counted, NetworkMessageFits, flags_encoding, sizes_encoding,
  payload_encoding, publisher_id_encoding, writer_ids,
}
use open_pub_sub.Message.Network.Decode.{
  Flags, zero_security_header, decode_extended_flags2, decode_extended_flags1, flags_of_bytes,
  decode_flags, decode_publisher_id, decode_payload_header, decode_security_footer,
  decode_footer_and_signature, decode_payload,
}
use open_pub_sub.Message.Network.FlagBits.{
  uadp_flags_bits, extended_flags1_bits, extended_flags2_bits,
}
use open_pub_sub.Message.Network.Canonical.{
  id_limit, canonical_publisher_id, InWord, announced, NetworkMessageInRange, canonical_counted,
  canonical_footer, flags_of,
}

pub publisher_id-Reads :
    (type : ℕ) (id : PublisherId)
    → PublisherIdFits type id
    → id_number id < id_limit type
    → Reads
        (decode_publisher_id type)
        (publisher_id_encoding type id)
        (canonical_publisher_id type id)
unfolding decode_publisher_id
publisher_id-Reads zero id f r =
    Reads-eq refl (ap number (omega (arith, r)))
      (map-Reads number (byte_decode_binary-Reads (id_number id % 256)))
publisher_id-Reads (suc zero) id f r = map-Reads number (uint16_decode_binary-Reads _ r)
publisher_id-Reads (suc (suc zero)) id f r = map-Reads number (uint32_decode_binary-Reads _ r)
publisher_id-Reads (suc (suc (suc zero))) id f r = map-Reads number (uint64_decode_binary-Reads _ r)
publisher_id-Reads (suc (suc (suc (suc zero)))) id f r =
    map-Reads string (text_decode_binary-Reads _ f.string_fits)
publisher_id-Reads (suc (suc (suc (suc (suc n))))) id f r = absurd (omega (arith, f.named))

pub words-Reads :
    (ws : List ℕ)
    → All InWord ws
    → Reads (decode_each uint16_decode_binary (length ws)) (concat encode16 ws) ws
unfolding decode_each
words-Reads [] h = pure-Reads []
words-Reads (w ∷ ws) h =
    >>=-Reads _ (uint16_decode_binary-Reads w h.0) (map-Reads (λ us. w ∷ us) (words-Reads ws h.1))

-- The count and the ids that it counts.
pub ids-Reads :
    (type count : ℕ) (ids : List ℕ)
    → type ≡ 0
    → count ≡ length ids
    → All InWord ids
    → Reads (decode_payload_header type) ((count ∷ []) ++ concat encode16 ids) (count, some ids)
unfolding decode_payload_header
ids-Reads type count ids t n h = rw t (
    >>=-Reads _ (byte_decode_binary-Reads count)
      (map-Reads (λ us. (count, some us)) (rw n (words-Reads ids h))))

-- A footer of no bytes is not read.
pub optional_footer-Reads :
    (on : Bool) (size : ℕ) (footer : List ℕ)
    → size < 256
    → size ≡ length footer
    → Reads
        (read_if
          (on && ltb 0 (if on then size else 0))
          (decode_security_footer (if on then size else 0))
          [])
        (part on footer)
        (if on then footer else [])
unfolding read_if part pure
optional_footer-Reads true size [] h e = rw e (pure-Reads [])
optional_footer-Reads true size (x ∷ xs) h e =
    rw (lt→ltb 0 size (omega (arith, e))) (footer-Reads size (x ∷ xs) h e)
optional_footer-Reads false size footer h e = pure-Reads []
