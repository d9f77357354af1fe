-- ===== src/Message/Network/Sections.antt =====
-- What each section of `UA_NetworkMessage_encodeBinary` writes.
use open_pub_sub.Base.{
  take_counted, ℕ, zero, suc, ◌<◌, ◌≤◌, ◌≡◌, ◌&&◌, ltb, List, [], ◌∷◌, ◌++◌, length, length-append,
  take, All, arith,
}
use open_pub_sub.Binary.Writer.{done, ◌>>◌, when}
use open_pub_sub.Binary.Writer.Writes.{
  Writes, >>-Writes, when-Writes, also-Writes, done-Writes, part,
}
use open_pub_sub.Binary.Writer.Safe.{Safe, also-Safe, done-Safe}
use open_pub_sub.Binary.Writer.Unchecked.{unchecked-Writes}
use open_pub_sub.Binary.Scalars.{encode16}
use open_pub_sub.Binary.Generated.{uint16_encode_binary}
use open_pub_sub.Binary.Generated.Laws.{
  byte_encode_binary-Writes, uint16_encode_binary-Writes, uint32_encode_binary-Writes,
  uint64_encode_binary-Writes, text_encode_binary-Writes, byte_encode_binary-Safe,
  uint16_encode_binary-Safe,
}
use open_pub_sub.Binary.Scalars.Laws.{length-encode16}
use open_pub_sub.Binary.Text.Laws.{text_encoding}
use open_pub_sub.Binary.Each.{encode_each, concat, each-Writes}
use open_pub_sub.Binary.VariantCodec.{VariantCodec}
use open_pub_sub.Binary.DataValue.Laws.{variant_encode_binary-Writes, variant_encode_binary-Safe}
use open_pub_sub.Message.SecurityHeader.{encode_security_header}
use open_pub_sub.Message.SecurityHeader.Laws.{security_header-Writes}
use open_pub_sub.Message.DataSet.{DataSetMessage}
use open_pub_sub.Message.DataSet.Encode.{encode_data_set_message}
use open_pub_sub.Message.DataSet.Fits.{DataSetMessageFits, data_set_message_encoding}
use open_pub_sub.Message.DataSet.Laws.{data_set_message-Writes}
use open_pub_sub.Message.Network.{NetworkMessage, PublisherId, message_count}
use open_pub_sub.Message.Network.Encode.{
  encode_flags, encode_payload_header, encode_publisher_id, encode_writer_ids,
  encode_promoted_values, encode_promoted_fields, encode_sizes, encode_payload,
  encode_footer_and_signature,
}
use open_pub_sub.Message.Network.Footer.{footer-Writes}
use open_pub_sub.Message.Network.Fits.{
  PublisherIdFits, PayloadFits, single, counted, PromotedFits, NetworkMessageFits, flags_encoding,
  sizes_encoding, promoted_encoding, payload_encoding, tail_encoding, publisher_id_encoding,
  writer_ids,
}

pub publisher_id-Writes :
    (type : ℕ) (id : PublisherId)
    → PublisherIdFits type id
    → Writes (encode_publisher_id type id) (publisher_id_encoding type id)
unfolding encode_publisher_id
publisher_id-Writes zero id f = byte_encode_binary-Writes _
publisher_id-Writes (suc zero) id f = uint16_encode_binary-Writes _
publisher_id-Writes (suc (suc zero)) id f = uint32_encode_binary-Writes _
publisher_id-Writes (suc (suc (suc zero))) id f = uint64_encode_binary-Writes _
publisher_id-Writes (suc (suc (suc (suc zero)))) id f = text_encode_binary-Writes _ f.string_fits
publisher_id-Writes (suc (suc (suc (suc (suc n))))) id f = absurd (omega (arith, f.named))

ids-Writes : (ids : List ℕ) → Writes (encode_each uint16_encode_binary ids) (concat encode16 ids)
unfolding encode_each
ids-Writes [] = done-Writes
ids-Writes (x ∷ xs) = >>-Writes (uint16_encode_binary-Writes x) (ids-Writes xs)

-- One id takes more room than the byte that counts them.
ids_room : (ids : List ℕ) → 0 < length ids → 1 ≤ length (concat encode16 ids)
ids_room [] h = absurd (omega arith)
ids_room (x ∷ xs) h =
    omega (arith, length-append (encode16 x) (concat encode16 xs), length-encode16 x)

module _ (c : VariantCodec) where
  pub flags-Writes : (m : NetworkMessage c.Variant) → Writes (encode_flags m) (flags_encoding c m)
  unfolding encode_flags
  flags-Writes m = >>-Writes (byte_encode_binary-Writes _) (
      when-Writes _
        (>>-Writes (byte_encode_binary-Writes _) (when-Writes _ (byte_encode_binary-Writes _))))

  sizes-Writes :
      (sizes : List ℕ) (ms : List (DataSetMessage c.Variant))
      → Writes (encode_sizes c sizes ms) (sizes_encoding c sizes ms)
  unfolding encode_sizes sizes_encoding
  sizes-Writes sizes [] = done-Writes
  sizes-Writes [] (m ∷ ms) = >>-Writes (uint16_encode_binary-Writes _) (sizes-Writes [] ms)
  sizes-Writes (s ∷ ss) (m ∷ ms) = >>-Writes (uint16_encode_binary-Writes _) (sizes-Writes ss ms)

  promoted_values-Writes :
      (vs : List c.Variant)
      → All (PromotedFits c) vs
      → Writes (encode_promoted_values c vs) (concat c.encoding vs)
  unfolding encode_promoted_values
  promoted_values-Writes [] fs = done-Writes
  promoted_values-Writes (v ∷ vs) fs =
      also-Writes (variant_encode_binary-Writes c v fs.0.fits) (promoted_values-Writes vs fs.1)

  promoted_values-Safe :
      (vs : List c.Variant) → All (PromotedFits c) vs → Safe (encode_promoted_values c vs)
  unfolding encode_promoted_values
  promoted_values-Safe [] fs = done-Safe
  promoted_values-Safe (v ∷ vs) fs =
      also-Safe (variant_encode_binary-Safe c v fs.0.fits) (promoted_values-Safe vs fs.1)

  pub promoted-Writes :
      (m : NetworkMessage c.Variant)
      → NetworkMessageFits c m
      → Writes (encode_promoted_fields c m) (promoted_encoding c m)
  unfolding encode_promoted_fields
  promoted-Writes m f = rw (take_counted f.promoted_counted) (
      also-Writes (uint16_encode_binary-Writes _)
        (promoted_values-Writes m.promoted_fields f.promoted_fit))

  pub promoted-Safe :
      (m : NetworkMessage c.Variant) → NetworkMessageFits c m → Safe (encode_promoted_fields c m)
  unfolding encode_promoted_fields
  promoted-Safe m f = rw (take_counted f.promoted_counted) (
      also-Safe (uint16_encode_binary-Safe _)
        (promoted_values-Safe m.promoted_fields f.promoted_fit))

  pub payload_header-Writes :
      (m : NetworkMessage c.Variant)
      → m.network_message_type ≡ 0
      → PayloadFits c m
      → Writes (when m.payload_header_enabled (encode_payload_header m)) (
          part m.payload_header_enabled
            ((m.count ∷ []) ++ concat encode16 (writer_ids c m.data_set_writer_ids)))
  unfolding when part encode_payload_header encode_writer_ids
  payload_header-Writes m t (single off one) = rw off done-Writes
  payload_header-Writes m t (counted on ids given n k p) =
      rw (on, given, t)
        (unchecked-Writes (byte_encode_binary-Writes m.count) (byte_encode_binary-Safe m.count)
          (rw (take_counted n) (ids-Writes ids)) (ids_room ids (omega (arith, n, p))))

  messages-Writes :
      (n : ℕ) (ms : List (DataSetMessage c.Variant))
      → n ≡ length ms
      → All (DataSetMessageFits c) ms
      → Writes
          (encode_each (encode_data_set_message c) (take n ms))
          (concat (data_set_message_encoding c) ms)
  messages-Writes n ms e fs =
      rw (take_counted e) (each-Writes _ _ ms (λ m g. data_set_message-Writes c m g) fs)

  pub counted_messages :
      (m : NetworkMessage c.Variant)
      → PayloadFits c m
      → message_count m ≡ length m.data_set_messages
  counted_messages m (single off one) = rw off one
  counted_messages m (counted on ids given n k p) = rw on k

  announced-Writes :
      (m : NetworkMessage c.Variant)
      → PayloadFits c m
      → Writes
          (when
            (m.payload_header_enabled && ltb 1 m.count)
            (encode_sizes c m.sizes (take m.count m.data_set_messages)))
          (part
            (m.payload_header_enabled && ltb 1 m.count)
            (sizes_encoding c m.sizes m.data_set_messages))
  unfolding when done part
  announced-Writes m (single off one) = rw off done-Writes
  announced-Writes m (counted on ids given n k p) = rw (take_counted k) (
      when-Writes (m.payload_header_enabled && ltb 1 m.count)
        (sizes-Writes m.sizes m.data_set_messages))

  pub payload-Writes :
      (m : NetworkMessage c.Variant)
      → NetworkMessageFits c m
      → Writes (encode_payload c m) (payload_encoding c m)
  unfolding encode_payload
  payload-Writes m f = rw f.is_data_set (
      >>-Writes (announced-Writes m f.payload_fits) (
        messages-Writes (message_count m) m.data_set_messages (counted_messages m f.payload_fits)
          f.messages_fit))

  pub footer_and_signature-Writes :
      (m : NetworkMessage c.Variant)
      → NetworkMessageFits c m
      → Writes (encode_footer_and_signature c m) (
          part m.security_header.security_footer_enabled m.security_footer
          ++ part m.security_header.network_message_signed (text_encoding m.signature))
  unfolding encode_footer_and_signature
  footer_and_signature-Writes m f =
      >>-Writes (when-Writes _ (footer-Writes _ _ f.footer_range f.footer_counted))
        (when-Writes _ (text_encode_binary-Writes _ f.signature_fits))

  pub tail-Writes :
      (m : NetworkMessage c.Variant)
      → NetworkMessageFits c m
      → Writes
          (when m.security_enabled (encode_security_header m.security_header)
            >> encode_payload c m
            >> when m.security_enabled (encode_footer_and_signature c m))
          (tail_encoding c m)
  tail-Writes m f =
      >>-Writes (when-Writes _ (security_header-Writes m.security_header f.security_fits))
        (>>-Writes (payload-Writes m f) (when-Writes _ (footer_and_signature-Writes m f)))
