-- ===== src/Message/Network/Correct.antt =====
-- What `UA_NetworkMessage_encodeBinary` writes, and when it says that it did.
use open_pub_sub.Base.{◌+◌, ◌-◌, ◌≤◌, ◌≡◌, length, leb}
use open_pub_sub.Binary.Status.{good, is_good}
use open_pub_sub.Binary.Writer.{Buffer}
use open_pub_sub.Binary.Writer.Writes.{Writes, >>-Writes, when-Writes}
use open_pub_sub.Binary.Writer.Safe.{when-Safe}
use open_pub_sub.Binary.Writer.Unchecked.{unchecked-Writes}
use open_pub_sub.Binary.Generated.Laws.{
  uint16_encode_binary-Writes, date_time_encode_binary-Writes, guid_encode_binary-Writes,
  uint16_encode_binary-Safe, date_time_encode_binary-Safe,
}
use open_pub_sub.Binary.Correct.{good_iff_room, written_size}
use open_pub_sub.Binary.VariantCodec.{VariantCodec}
use open_pub_sub.Message.GroupHeader.Laws.{group_header-Writes}
use open_pub_sub.Message.Network.{NetworkMessage}
use open_pub_sub.Message.Network.Encode.{encode_network_message}
use open_pub_sub.Message.Network.Size.{calc_size_network_message}
use open_pub_sub.Message.Network.Total.{length-network_message_encoding}
use open_pub_sub.Message.Network.Fits.{NetworkMessageFits, LateParts, network_message_encoding}
use open_pub_sub.Message.Network.Sections.{
  flags-Writes, publisher_id-Writes, payload_header-Writes, promoted-Writes, promoted-Safe,
  tail-Writes,
}

module _ (c : VariantCodec) where
  pub network_message-Writes :
      (m : NetworkMessage c.Variant)
      → NetworkMessageFits c m
      → LateParts c m
      → Writes (encode_network_message c m) (network_message_encoding c m)
  unfolding encode_network_message
  network_message-Writes m f l = >>-Writes (flags-Writes c m) (
      >>-Writes (when-Writes _ (publisher_id-Writes _ _ f.publisher_id_fits)) (
        >>-Writes (when-Writes _ (guid_encode_binary-Writes _ f.class_id_fits)) (
          >>-Writes (when-Writes _ (group_header-Writes _)) (
            >>-Writes (payload_header-Writes c m f.is_data_set f.payload_fits) (
              unchecked-Writes (when-Writes _ (date_time_encode_binary-Writes _))
                (when-Safe _ (date_time_encode_binary-Safe _))
                (unchecked-Writes (when-Writes _ (uint16_encode_binary-Writes _))
                  (when-Safe _ (uint16_encode_binary-Safe _))
                  (unchecked-Writes (when-Writes _ (promoted-Writes c m f))
                    (when-Safe _ (promoted-Safe c m f)) (tail-Writes c m f) l.promoted)
                  l.picoseconds)
                l.timestamp)))))

-- Over any codec of variants, a NetworkMessage of DataSetMessages that fits (its counts are the
-- lengths of its arrays, and its parts have encodings), and whose timestamp, picoseconds and
-- promoted fields, where they are enabled, are each at most as long as what follows them, is encoded
-- with status good exactly if the size computed for it is at most the room in the buffer.
pub encode_network_message-good :
    (c : VariantCodec) (m : NetworkMessage c.Variant) (b : Buffer)
    → NetworkMessageFits c m
    → LateParts c m
    → is_good (encode_network_message c m b).0
      ≡ leb (calc_size_network_message c m) (length b.after)
encode_network_message-good c m b f l =
    good_iff_room (network_message-Writes c m f l) (length-network_message_encoding c m f) b

-- Over any codec of variants, a NetworkMessage that fits, none of whose timestamp, picoseconds and
-- promoted fields is longer than what follows it, encoded into a buffer with room for its computed size, is encoded with
-- status good, exactly as many bytes as were computed are appended, and what is left of the buffer
-- is shorter by those.
pub encode_network_message-size :
    (c : VariantCodec) (m : NetworkMessage c.Variant) (b : Buffer)
    → NetworkMessageFits c m
    → LateParts c m
    → calc_size_network_message c m ≤ length b.after
    → ((encode_network_message c m b).0 ≡ good)
      × (length (encode_network_message c m b).1.before
          ≡ length b.before + calc_size_network_message c m)
      × (length (encode_network_message c m b).1.after
          ≡ length b.after - calc_size_network_message c m)
encode_network_message-size c m b f l room =
    written_size (network_message-Writes c m f l) (length-network_message_encoding c m f) b room
