-- ===== src/Message/Network/RoundTrip.antt =====
-- What is encoded by `UA_NetworkMessage_encodeBinary` decodes to the same message.
use open_pub_sub.Base.{◌≤◌, ◌^◌, ◌%◌, ◌≡◌, [], length, drop, map, arith}
use open_pub_sub.Binary.Status.{good}
use open_pub_sub.Binary.Writer.{Buffer}
use open_pub_sub.Binary.Reader.{ok}
use open_pub_sub.Binary.Reader.Reads.{Reads, >>=-Reads, map-Reads, read_if-Reads}
use open_pub_sub.Binary.Generated.Laws.{
  uint16_decode_binary-Reads, date_time_decode_binary-Reads, guid_decode_binary-Reads,
}
use open_pub_sub.Binary.Each.{sum, length-concat}
use open_pub_sub.Binary.Correct.{round_trip}
use open_pub_sub.Binary.VariantCodec.{VariantCodec}
use open_pub_sub.Message.GroupHeader.Laws.{group_header-Reads}
use open_pub_sub.Message.SecurityHeader.Laws.{security_header-Reads}
use open_pub_sub.Message.Network.{NetworkMessage, number}
use open_pub_sub.Message.Network.Encode.{encode_network_message}
use open_pub_sub.Message.Network.Size.{calc_size_network_message}
use open_pub_sub.Message.Network.Fits.{
  NetworkMessageFits, LateParts, promoted_encoding, network_message_encoding,
}
use open_pub_sub.Message.Network.Total.{length-network_message_encoding}
use open_pub_sub.Message.Network.Correct.{network_message-Writes}
use open_pub_sub.Message.Network.Decode.{
  zero_guid, zero_group_header, zero_security_header, decode_promoted_content,
  decode_promoted_fields, decode_sections, decode_network_message,
}
use open_pub_sub.Message.Network.Promoted.{content-Reads}
use open_pub_sub.Message.Network.Canonical.{NetworkMessageInRange, canonical_network_message}
use open_pub_sub.Message.Network.Reading.{publisher_id-Reads}
use open_pub_sub.Message.Network.Reading.Front.{flags-Reads, footer_and_signature-Reads}
use open_pub_sub.Message.Network.Reading.Payload.{payload_header-Reads, payload-Reads}

module _ (c : VariantCodec) (m : NetworkMessage c.Variant) (f : NetworkMessageFits c m)
    (r : NetworkMessageInRange c m) where
  promoted_fields-Reads :
      Reads (decode_promoted_fields c) (promoted_encoding c m) (map c.canonical m.promoted_fields)
  unfolding decode_promoted_fields
  promoted_fields-Reads =
      >>=-Reads (decode_promoted_content c) (uint16_decode_binary-Reads _ (omega arith)) (
        content-Reads c m.promoted_fields (sum c.calc_size m.promoted_fields % 2 ^ 16)
          f.promoted_fit
          (omega (
            arith,
            r.promoted_range,
            length-concat c.encoding c.calc_size m.promoted_fields
                (λ v g. c.length-encoding v g.fits) f.promoted_fit,
          )))

  network_message-Reads :
      Reads
        (decode_network_message c)
        (network_message_encoding c m)
        (canonical_network_message c m)
  unfolding decode_network_message decode_sections
  network_message-Reads = >>=-Reads (decode_sections c) (flags-Reads c m f r) (
      >>=-Reads _
        (read_if-Reads m.publisher_id_enabled (number 0)
          (publisher_id-Reads _ m.publisher_id f.publisher_id_fits r.publisher_id_range))
        (>>=-Reads _
          (read_if-Reads m.data_set_class_id_enabled zero_guid
            (guid_decode_binary-Reads _ f.class_id_fits))
          (>>=-Reads _
            (read_if-Reads m.group_header_enabled zero_group_header
              (group_header-Reads _ r.group_header_fits))
            (>>=-Reads _ (payload_header-Reads c m f.is_data_set f.payload_fits r.writer_ids_range)
              (>>=-Reads _
                (read_if-Reads m.timestamp_enabled 0
                  (date_time_decode_binary-Reads _ r.timestamp_range))
                (>>=-Reads _
                  (read_if-Reads m.picoseconds_enabled 0
                    (uint16_decode_binary-Reads _ r.picoseconds_range))
                  (>>=-Reads _ (read_if-Reads m.promoted_fields_enabled [] promoted_fields-Reads) (
                    >>=-Reads _
                      (read_if-Reads m.security_enabled zero_security_header
                        (security_header-Reads _ f.security_fits))
                      (>>=-Reads _ (payload-Reads c m f r)
                        (map-Reads _ (footer_and_signature-Reads c m m.security_enabled f)))))))))))

-- Over any codec of variants, a NetworkMessage that fits and whose values are in their ranges, none
-- of whose timestamp, picoseconds and promoted fields is longer than what follows it, encoded into a
-- buffer with room for its computed size, is encoded with status good, and decoding the appended
-- bytes returns the message without what its flags switch off and leaves no input.
pub encode_network_message-decode_network_message :
    (c : VariantCodec) (m : NetworkMessage c.Variant) (b : Buffer)
    → NetworkMessageFits c m
    → NetworkMessageInRange c m
    → LateParts c m
    → calc_size_network_message c m ≤ length b.after
    → ((encode_network_message c m b).0 ≡ good)
      × (decode_network_message c (drop (length b.before) (encode_network_message c m b).1.before)
          ≡ ok (canonical_network_message c m) [])
encode_network_message-decode_network_message c m b f r l room =
    round_trip (network_message-Writes c m f l) (length-network_message_encoding c m f) b room
      (network_message-Reads c m f r)
