-- ===== src/Message/Network/Safe.antt =====
-- `UA_NetworkMessage_encodeBinary` stays inside its buffer.
use open_pub_sub.Base.{
  ℕ, zero, suc, ◌+◌, ◌%◌, ◌^◌, ◌<◌, ◌≤◌, ◌≡◌, List, [], ◌∷◌, length, take, All, Option, none, some,
}
use open_pub_sub.Binary.Writer.{Buffer}
use open_pub_sub.Binary.Writer.Safe.{
  Safe, Extends, >>-Safe, unchecked-Safe, also-Safe, when-Safe, fail-Safe, done-Safe,
}
use open_pub_sub.Binary.Generated.{uint16_encode_binary}
use open_pub_sub.Binary.Generated.Laws.{
  byte_encode_binary-Safe, uint16_encode_binary-Safe, uint32_encode_binary-Safe,
  uint64_encode_binary-Safe, date_time_encode_binary-Safe, text_encode_binary-Safe,
  guid_encode_binary-Safe,
}
use open_pub_sub.Binary.Guid.Laws.{GuidFits}
use open_pub_sub.Binary.Each.{encode_each, each-Safe}
use open_pub_sub.Binary.VariantCodec.{VariantCodec}
use open_pub_sub.Binary.DataValue.Laws.{variant_encode_binary-Safe}
use open_pub_sub.Message.GroupHeader.Laws.{group_header-Safe}
use open_pub_sub.Message.SecurityHeader.Laws.{security_header-Safe}
use open_pub_sub.Message.DataSet.{DataSetMessage}
use open_pub_sub.Message.DataSet.Safe.{All-take, if-Safe, FieldsFit, data_set_message-Safe}
use open_pub_sub.Message.Network.{NetworkMessage, PublisherId, message_count}
use open_pub_sub.Message.Network.Encode.{
  encode_flags, encode_publisher_id, encode_writer_ids, encode_payload_header, encode_footer_from,
  encode_security_footer, encode_promoted_values, encode_promoted_fields, encode_sizes,
  encode_payload, encode_footer_and_signature, encode_network_message,
}
use open_pub_sub.Message.Network.Fits.{PromotedFits}

publisher_id-Safe : (type : ℕ) (id : PublisherId) → Safe (encode_publisher_id type id)
unfolding encode_publisher_id
publisher_id-Safe type id = if-Safe _ (byte_encode_binary-Safe _) (
    if-Safe _ (uint16_encode_binary-Safe _) (
      if-Safe _ (uint32_encode_binary-Safe _) (
        if-Safe _ (uint64_encode_binary-Safe _)
          (if-Safe _ (text_encode_binary-Safe _) (fail-Safe _)))))

words-Safe : (ws : List ℕ) → Safe (encode_each uint16_encode_binary ws)
unfolding encode_each
words-Safe [] = done-Safe
words-Safe (w ∷ ws) = >>-Safe (uint16_encode_binary-Safe w) (words-Safe ws)

writer_ids-Safe : (count : ℕ) (ids : Option (List ℕ)) → Safe (encode_writer_ids count ids)
unfolding encode_writer_ids
writer_ids-Safe count none = fail-Safe _
writer_ids-Safe count (some ids) = words-Safe (take count ids)

footer_from-Safe :
    (fuel i size : ℕ) (footer : List ℕ) → Safe (encode_footer_from fuel i size footer)
unfolding encode_footer_from
footer_from-Safe zero i size footer = fail-Safe _
footer_from-Safe (suc fuel) i size footer =
    if-Safe _
      (>>-Safe (byte_encode_binary-Safe _) (footer_from-Safe fuel ((i + 1) % 2 ^ 8) size footer))
      done-Safe

footer-Safe : (size : ℕ) (footer : List ℕ) → Safe (encode_security_footer size footer)
unfolding encode_security_footer
footer-Safe size footer = record {
  extends = λ b. (footer_from-Safe (suc (length b.after)) 0 size footer).extends b;
}

module _ (c : VariantCodec) where
  -- The values of the message can be encoded, and no count or size is above the length of the array
  -- that it counts; it may be below. The types and encodings are arbitrary.
  pub record ValuesFit (m : NetworkMessage c.Variant) : Type 0 where
    pub ids_counted : (ids : List ℕ) → m.data_set_writer_ids ≡ some ids → m.count ≤ length ids
    pub sizes_counted : 0 < length m.sizes → m.count ≤ length m.sizes
    pub messages_counted : message_count m ≤ length m.data_set_messages
    pub promoted_counted : m.promoted_fields_size ≤ length m.promoted_fields
    pub footer_counted : m.security_header.security_footer_size ≤ length m.security_footer
    pub nonce_counted : m.security_header.nonce_length ≤ length m.security_header.message_nonce
    pub class_id : GuidFits m.data_set_class_id
    pub promoted : All (PromotedFits c) m.promoted_fields
    pub messages : All (FieldsFit c) m.data_set_messages

  promoted-Safe :
      (vs : List c.Variant) → All (PromotedFits c) vs → Safe (encode_promoted_values c vs)
  unfolding encode_promoted_values
  promoted-Safe [] fs = done-Safe
  promoted-Safe (v ∷ vs) fs =
      also-Safe (variant_encode_binary-Safe c v fs.0.fits) (promoted-Safe vs fs.1)

  sizes-Safe :
      (sizes : List ℕ) (ms : List (DataSetMessage c.Variant)) → Safe (encode_sizes c sizes ms)
  unfolding encode_sizes
  sizes-Safe sizes [] = done-Safe
  sizes-Safe [] (m ∷ ms) = >>-Safe (uint16_encode_binary-Safe _) (sizes-Safe [] ms)
  sizes-Safe (s ∷ ss) (m ∷ ms) = >>-Safe (uint16_encode_binary-Safe _) (sizes-Safe ss ms)

  module _ (m : NetworkMessage c.Variant) (f : ValuesFit m) where
    flags-Safe : Safe (encode_flags m)
    unfolding encode_flags
    flags-Safe = >>-Safe (byte_encode_binary-Safe _) (
        when-Safe _ (>>-Safe (byte_encode_binary-Safe _) (when-Safe _ (byte_encode_binary-Safe _))))

    payload_header-Safe : Safe (encode_payload_header m)
    unfolding encode_payload_header
    payload_header-Safe =
        if-Safe _ (fail-Safe _) (unchecked-Safe (byte_encode_binary-Safe _) (writer_ids-Safe _ _))

    promoted_fields-Safe : Safe (encode_promoted_fields c m)
    unfolding encode_promoted_fields
    promoted_fields-Safe = also-Safe (uint16_encode_binary-Safe _) (
        promoted-Safe _
          (All-take (PromotedFits c) m.promoted_fields_size m.promoted_fields f.promoted))

    payload-Safe : Safe (encode_payload c m)
    unfolding encode_payload
    payload-Safe =
        let messages = All-take (FieldsFit c) (message_count m) m.data_set_messages f.messages in
        if-Safe _ (fail-Safe _) (
          >>-Safe (when-Safe _ (sizes-Safe m.sizes (take m.count m.data_set_messages)))
            (each-Safe _ _ (data_set_message-Safe c) messages))

    end-Safe : Safe (encode_footer_and_signature c m)
    unfolding encode_footer_and_signature
    end-Safe = >>-Safe (when-Safe _ (footer-Safe _ _)) (when-Safe _ (text_encode_binary-Safe _))

    network_message-Safe : Safe (encode_network_message c m)
    unfolding encode_network_message
    network_message-Safe =
        let tail =
          >>-Safe (when-Safe _ (security_header-Safe m.security_header))
            (>>-Safe payload-Safe (when-Safe m.security_enabled end-Safe)) in
        let late =
          unchecked-Safe (when-Safe m.timestamp_enabled (date_time_encode_binary-Safe m.timestamp))
            (unchecked-Safe
              (when-Safe m.picoseconds_enabled (uint16_encode_binary-Safe m.picoseconds))
              (unchecked-Safe (when-Safe m.promoted_fields_enabled promoted_fields-Safe) tail)) in
        >>-Safe flags-Safe (
          >>-Safe (when-Safe _ (publisher_id-Safe m.publisher_id_type m.publisher_id)) (
            >>-Safe (when-Safe _ (guid_encode_binary-Safe m.data_set_class_id f.class_id)) (
              >>-Safe (when-Safe _ (group_header-Safe m.group_header))
                (>>-Safe (when-Safe _ payload_header-Safe) late))))

-- Over any codec of variants, encoding a NetworkMessage whose values can be encoded and none of whose
-- counts and sizes is above the length of the array that it counts, whatever its flags, types and
-- encodings are, into any buffer and with any status, keeps the bytes before the position, adds bytes
-- behind them, and moves the position by as many bytes as are added and no further than the end.
pub encode_network_message-Extends :
    (c : VariantCodec) (m : NetworkMessage c.Variant) (b : Buffer)
    → ValuesFit c m
    → Extends b (encode_network_message c m b).1
encode_network_message-Extends c m b f = (network_message-Safe c m f).extends b
