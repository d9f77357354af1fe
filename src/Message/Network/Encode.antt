-- ===== src/Message/Network/Encode.antt =====
-- `UA_NetworkMessage_encodeBinary`, section by section.
use open_pub_sub.Base.{
  ℕ, zero, suc, ◌+◌, ◌*◌, ◌%◌, ◌^◌, ◌&&◌, not, ◌==◌, ltb, List, [], ◌∷◌, Option, none, some, length,
  get_or, take, set_flag, if◌then◌else◌,
}
use open_pub_sub.Binary.Status.{bad_internal_error, bad_encoding_error, bad_not_implemented}
use open_pub_sub.Binary.Writer.{Encoder, done, fail, ◌>>◌, unchecked, also, when}
use open_pub_sub.Binary.Generated.{
  byte_encode_binary, uint16_encode_binary, uint32_encode_binary, uint64_encode_binary,
  date_time_encode_binary, text_encode_binary, guid_encode_binary,
}
use open_pub_sub.Binary.Each.{encode_each, sum}
use open_pub_sub.Binary.VariantCodec.{VariantCodec}
use open_pub_sub.Binary.DataValue.{variant_encode_binary}
use open_pub_sub.Message.GroupHeader.{encode_group_header}
use open_pub_sub.Message.SecurityHeader.{encode_security_header}
use open_pub_sub.Message.DataSet.{DataSetMessage}
use open_pub_sub.Message.DataSet.Encode.{encode_data_set_message}
use open_pub_sub.Message.DataSet.Size.{calc_size_data_set_message}
use open_pub_sub.Message.Network.{
  NetworkMessage, PublisherId, id_number, id_string, extended_flags1_enabled,
  extended_flags2_enabled, message_count,
}

module _ {V : Type 0} where
  -- The masks are NM_*.
  unfoldable pub uadp_flags : NetworkMessage V → ℕ
  uadp_flags src = set_flag (extended_flags1_enabled src) 128 (
      set_flag src.payload_header_enabled 64
        (set_flag src.group_header_enabled 32 (set_flag src.publisher_id_enabled 16 src.version)))

  unfoldable pub extended_flags1 : NetworkMessage V → ℕ
  extended_flags1 src = set_flag (extended_flags2_enabled src) 128 (
      set_flag src.picoseconds_enabled 64 (
        set_flag src.timestamp_enabled 32 (
          set_flag src.security_enabled 16
            (set_flag src.data_set_class_id_enabled 8 (src.publisher_id_type % 256)))))

  -- `(UA_Byte)(v << NM_SHIFT_LEN)` shifts by two.
  unfoldable pub extended_flags2 : NetworkMessage V → ℕ
  extended_flags2 src =
      set_flag src.promoted_fields_enabled 2
        (set_flag src.chunk_message 1 (src.network_message_type % 256 * 2 ^ 2 % 256))

  unfoldable pub encode_flags : NetworkMessage V → Encoder
  encode_flags src =
      byte_encode_binary (uadp_flags src)
      >> when (extended_flags1_enabled src) (
          byte_encode_binary (extended_flags1 src)
          >> when (extended_flags2_enabled src) (byte_encode_binary (extended_flags2 src)))

-- `switch(src->publisherIdType)`
unfoldable pub encode_publisher_id : ℕ → PublisherId → Encoder
encode_publisher_id type id =
    if type == 0
    then byte_encode_binary (id_number id % 256)
    else if type == 1
    then uint16_encode_binary (id_number id)
    else if type == 2
    then uint32_encode_binary (id_number id)
    else if type == 3
    then uint64_encode_binary (id_number id)
    else if type == 4
    then text_encode_binary (id_string id)
    else fail bad_internal_error

unfoldable pub encode_writer_ids : ℕ → Option (List ℕ) → Encoder
encode_writer_ids count none = fail bad_encoding_error
encode_writer_ids count (some ids) = encode_each uint16_encode_binary (take count ids)

-- The status of the count is overwritten before it is read.
unfoldable pub encode_payload_header : {V : Type 0} → NetworkMessage V → Encoder
encode_payload_header src =
    if not (src.network_message_type == 0)
    then fail bad_not_implemented
    else unchecked (byte_encode_binary src.count)
        (encode_writer_ids src.count src.data_set_writer_ids)

-- `for(UA_Byte i = …; i < securityFooterSize; i++)`. The counter is a byte, so that behind 255 it is 0
-- again. A round takes room, so that the fuel is more than the rounds that succeed.
unfoldable pub encode_footer_from : ℕ → ℕ → ℕ → List ℕ → Encoder
encode_footer_from zero i size footer = fail bad_encoding_error
encode_footer_from (suc fuel) i size footer =
    if ltb i size
    then byte_encode_binary (get_or footer i 0)
      >> encode_footer_from fuel ((i + 1) % 2 ^ 8) size footer
    else done

unfoldable pub encode_security_footer : ℕ → List ℕ → Encoder
encode_security_footer size footer b = encode_footer_from (suc (length b.after)) 0 size footer b

module _ (c : VariantCodec) where
  -- `for(…) rv |= UA_Variant_encodeBinary(…)`
  unfoldable pub encode_promoted_values : List c.Variant → Encoder
  encode_promoted_values [] = done
  encode_promoted_values (v ∷ vs) = also (variant_encode_binary c v) (encode_promoted_values vs)

  unfoldable pub encode_promoted_fields : NetworkMessage c.Variant → Encoder
  encode_promoted_fields src =
      let fields = take src.promoted_fields_size src.promoted_fields in
      also (uint16_encode_binary (sum c.calc_size fields % 2 ^ 16)) (encode_promoted_values fields)

  -- The size of a message: the given one, unless it is zero or there is none.
  unfoldable pub announced_size : ℕ → DataSetMessage c.Variant → ℕ
  announced_size given m = if given == 0 then calc_size_data_set_message c m 0 % 2 ^ 16 else given

  unfoldable pub encode_sizes : List ℕ → List (DataSetMessage c.Variant) → Encoder
  encode_sizes sizes [] = done
  encode_sizes [] (m ∷ ms) = uint16_encode_binary (announced_size 0 m) >> encode_sizes [] ms
  encode_sizes (s ∷ ss) (m ∷ ms) = uint16_encode_binary (announced_size s m) >> encode_sizes ss ms

  unfoldable pub encode_payload : NetworkMessage c.Variant → Encoder
  encode_payload src =
      if not (src.network_message_type == 0)
      then fail bad_not_implemented
      else when (src.payload_header_enabled && ltb 1 src.count)
          (encode_sizes src.sizes (take src.count src.data_set_messages))
        >> encode_each (encode_data_set_message c) (take (message_count src) src.data_set_messages)

  unfoldable pub encode_footer_and_signature : NetworkMessage c.Variant → Encoder
  encode_footer_and_signature src =
      when src.security_header.security_footer_enabled
        (encode_security_footer src.security_header.security_footer_size src.security_footer)
      >> when src.security_header.network_message_signed (text_encode_binary src.signature)

  -- Each of the three parts behind the payload header assigns a status that the next part, or the
  -- security header or the payload, assigns anew.
  unfoldable pub encode_network_message : NetworkMessage c.Variant → Encoder
  encode_network_message src =
      encode_flags src
      >> when src.publisher_id_enabled (encode_publisher_id src.publisher_id_type src.publisher_id)
      >> when src.data_set_class_id_enabled (guid_encode_binary src.data_set_class_id)
      >> when src.group_header_enabled (encode_group_header src.group_header)
      >> when src.payload_header_enabled (encode_payload_header src)
      >> unchecked (when src.timestamp_enabled (date_time_encode_binary src.timestamp)) (
          unchecked (when src.picoseconds_enabled (uint16_encode_binary src.picoseconds)) (
            unchecked (when src.promoted_fields_enabled (encode_promoted_fields src)) (
              when src.security_enabled (encode_security_header src.security_header)
              >> encode_payload src
              >> when src.security_enabled (encode_footer_and_signature src))))
