-- ===== src/Message/Network/Fits.antt =====
-- The NetworkMessages that have an encoding, and their bytes.
use open_pub_sub.Base.{
  ℕ, ◌<◌, ◌≤◌, ◌^◌, ◌%◌, ◌≡◌, ◌==◌, true, false, ◌&&◌, ltb, List, [], ◌∷◌, ◌++◌, length, All,
  Option, none, some, if◌then◌else◌,
}
use open_pub_sub.Binary.Writer.Writes.{part}
use open_pub_sub.Binary.Scalars.{encode16, encode32, encode64}
use open_pub_sub.Binary.Text.Laws.{TextFits, text_encoding}
use open_pub_sub.Binary.Guid.Laws.{GuidFits, guid_encoding}
use open_pub_sub.Binary.Each.{concat, sum}
use open_pub_sub.Binary.VariantCodec.{VariantCodec}
use open_pub_sub.Message.GroupHeader.Laws.{group_header_encoding}
use open_pub_sub.Message.SecurityHeader.Laws.{SecurityHeaderFits, security_header_encoding}
use open_pub_sub.Message.DataSet.{DataSetMessage}
use open_pub_sub.Message.DataSet.Fits.{DataSetMessageFits, data_set_message_encoding}
use open_pub_sub.Message.Network.{
  NetworkMessage, PublisherId, id_number, id_string, extended_flags1_enabled,
  extended_flags2_enabled,
}
use open_pub_sub.Message.Network.Encode.{
  uadp_flags, extended_flags1, extended_flags2, announced_size,
}

-- The types of a publisher id are 0 to 4; a string is one that has an encoding.
pub record PublisherIdFits (type : ℕ) (id : PublisherId) : Type 0 where
  pub named : type < 5
  pub string_fits : TextFits (id_string id)

abbrev pub publisher_id_encoding : ℕ → PublisherId → List ℕ
publisher_id_encoding type id =
    if type == 0
    then (id_number id % 256) ∷ []
    else if type == 1
    then encode16 (id_number id)
    else if type == 2
    then encode32 (id_number id)
    else if type == 3
    then encode64 (id_number id)
    else text_encoding (id_string id)

module _ (c : VariantCodec) where
  -- Without a payload header there is one message; with it, the header counts them and has an id
  -- for each.
  pub data PayloadFits (m : NetworkMessage c.Variant) : Type 0 where
    single : m.payload_header_enabled ≡ false → 1 ≡ length m.data_set_messages → PayloadFits m
    counted :
        m.payload_header_enabled ≡ true
        → (ids : List ℕ) → m.data_set_writer_ids ≡ some ids
        → m.count ≡ length ids
        → m.count ≡ length m.data_set_messages
        → 0 < m.count
        → PayloadFits m

  pub record PromotedFits (v : c.Variant) : Type 0 where
    pub fits : c.Fits v

  pub record NetworkMessageFits (m : NetworkMessage c.Variant) : Type 0 where
    pub is_data_set : m.network_message_type ≡ 0
    pub publisher_id_fits : PublisherIdFits m.publisher_id_type m.publisher_id
    pub class_id_fits : GuidFits m.data_set_class_id
    pub promoted_counted : m.promoted_fields_size ≡ length m.promoted_fields
    pub promoted_fit : All PromotedFits m.promoted_fields
    pub security_fits : SecurityHeaderFits m.security_header
    pub footer_range : m.security_header.security_footer_size < 256
    pub footer_counted : m.security_header.security_footer_size ≡ length m.security_footer
    pub signature_fits : TextFits m.signature
    pub payload_fits : PayloadFits m
    pub messages_fit : All (DataSetMessageFits c) m.data_set_messages

  abbrev pub flags_encoding : NetworkMessage c.Variant → List ℕ
  flags_encoding m =
      (uadp_flags m ∷ [])
      ++ part (extended_flags1_enabled m)
          ((extended_flags1 m ∷ []) ++ part (extended_flags2_enabled m) (extended_flags2 m ∷ []))

  unfoldable pub sizes_encoding : List ℕ → List (DataSetMessage c.Variant) → List ℕ
  sizes_encoding sizes [] = []
  sizes_encoding [] (m ∷ ms) = encode16 (announced_size c 0 m) ++ sizes_encoding [] ms
  sizes_encoding (s ∷ ss) (m ∷ ms) = encode16 (announced_size c s m) ++ sizes_encoding ss ms

  abbrev pub writer_ids : Option (List ℕ) → List ℕ
  writer_ids none = []
  writer_ids (some ids) = ids

  abbrev pub promoted_encoding : NetworkMessage c.Variant → List ℕ
  promoted_encoding m =
      encode16 (sum c.calc_size m.promoted_fields % 2 ^ 16) ++ concat c.encoding m.promoted_fields

  abbrev pub payload_encoding : NetworkMessage c.Variant → List ℕ
  payload_encoding m =
      part (m.payload_header_enabled && ltb 1 m.count) (sizes_encoding m.sizes m.data_set_messages)
      ++ concat (data_set_message_encoding c) m.data_set_messages

  abbrev pub tail_encoding : NetworkMessage c.Variant → List ℕ
  tail_encoding m =
      part m.security_enabled (security_header_encoding m.security_header)
      ++ (payload_encoding m
          ++ part m.security_enabled (
              part m.security_header.security_footer_enabled m.security_footer
              ++ part m.security_header.network_message_signed (text_encoding m.signature)))

  abbrev pub promoted_part : NetworkMessage c.Variant → List ℕ
  promoted_part m = part m.promoted_fields_enabled (promoted_encoding m)

  abbrev pub picoseconds_part : NetworkMessage c.Variant → List ℕ
  picoseconds_part m = part m.picoseconds_enabled (encode16 m.picoseconds)

  abbrev pub timestamp_part : NetworkMessage c.Variant → List ℕ
  timestamp_part m = part m.timestamp_enabled (encode64 m.timestamp)

  -- Every part whose status is overwritten is at most as long as what follows it.
  pub record LateParts (m : NetworkMessage c.Variant) : Type 0 where
    pub promoted : length (promoted_part m) ≤ length (tail_encoding m)
    pub picoseconds : length (picoseconds_part m) ≤ length (promoted_part m ++ tail_encoding m)
    pub timestamp :
        length (timestamp_part m)
        ≤ length (picoseconds_part m ++ (promoted_part m ++ tail_encoding m))

  abbrev pub network_message_encoding : NetworkMessage c.Variant → List ℕ
  network_message_encoding m =
      flags_encoding m
      ++ (part m.publisher_id_enabled (publisher_id_encoding m.publisher_id_type m.publisher_id)
          ++ (part m.data_set_class_id_enabled (guid_encoding m.data_set_class_id)
              ++ (part m.group_header_enabled (group_header_encoding m.group_header)
                  ++ (part m.payload_header_enabled
                        ((m.count ∷ []) ++ concat encode16 (writer_ids m.data_set_writer_ids))
                      ++ (timestamp_part m
                          ++ (picoseconds_part m ++ (promoted_part m ++ tail_encoding m)))))))
