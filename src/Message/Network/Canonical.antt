-- ===== src/Message/Network/Canonical.antt =====
-- What comes back of a NetworkMessage that is encoded and decoded.
use open_pub_sub.Base.{
  ℕ, ◌<◌, ◌^◌, ◌%◌, ◌==◌, ◌&&◌, ltb, List, [], ◌∷◌, length, map, All, Option, none, some,
  if◌then◌else◌,
}
use open_pub_sub.Binary.Text.{Text, null}
use open_pub_sub.Binary.Text.Laws.{canonical_text}
use open_pub_sub.Binary.Each.{sum}
use open_pub_sub.Binary.VariantCodec.{VariantCodec}
use open_pub_sub.Message.GroupHeader.Laws.{GroupHeaderFits, canonical_group_header}
use open_pub_sub.Message.SecurityHeader.Laws.{canonical_security_header}
use open_pub_sub.Message.DataSet.{DataSetMessage}
use open_pub_sub.Message.DataSet.RoundTrip.{canonical_message}
use open_pub_sub.Message.Network.{NetworkMessage, PublisherId, number, string, id_number, id_string}
use open_pub_sub.Message.Network.Encode.{announced_size}
use open_pub_sub.Message.Network.Fits.{writer_ids}
use open_pub_sub.Message.Network.Decode.{Flags, zero_guid, zero_group_header, zero_security_header}

-- The width of the number that a publisher id type names; for a string this is the width of its
-- length.
abbrev pub id_limit : ℕ → ℕ
id_limit type =
    if type == 0 then 2 ^ 8 else if type == 1 then 2 ^ 16 else if type == 2 then 2 ^ 32 else 2 ^ 64

abbrev pub canonical_publisher_id : ℕ → PublisherId → PublisherId
canonical_publisher_id type id =
    if type == 4 then string (canonical_text (id_string id)) else number (id_number id)

abbrev pub InWord : ℕ → Type 0
InWord n = n < 2 ^ 16

module _ (c : VariantCodec) where
  -- The sizes that are written in front of the messages.
  unfoldable pub announced : List ℕ → List (DataSetMessage c.Variant) → List ℕ
  announced sizes [] = []
  announced [] (m ∷ ms) = announced_size c 0 m ∷ announced [] ms
  announced (s ∷ ss) (m ∷ ms) = announced_size c s m ∷ announced ss ms

  -- The values are in the ranges of their C types; the enumerations and the version fit their bits;
  -- and the promoted fields take less than 2 ^ 16 bytes.
  pub record NetworkMessageInRange (m : NetworkMessage c.Variant) : Type 0 where
    pub version_bits : m.version < 16
    pub publisher_id_range : id_number m.publisher_id < id_limit m.publisher_id_type
    pub group_header_fits : GroupHeaderFits m.group_header
    pub writer_ids_range : All InWord (writer_ids c m.data_set_writer_ids)
    pub timestamp_range : m.timestamp < 2 ^ 64
    pub picoseconds_range : m.picoseconds < 2 ^ 16
    pub promoted_range : sum c.calc_size m.promoted_fields < 2 ^ 16
    pub sizes_range : All InWord m.sizes

  abbrev pub canonical_counted : NetworkMessage c.Variant → ℕ × Option (List ℕ)
  canonical_counted m =
      if m.payload_header_enabled
      then (m.count, some (writer_ids c m.data_set_writer_ids))
      else (0, none)

  abbrev pub canonical_promoted : NetworkMessage c.Variant → List c.Variant
  canonical_promoted m = if m.promoted_fields_enabled then map c.canonical m.promoted_fields else []

  abbrev pub canonical_footer : NetworkMessage c.Variant → List ℕ × Text
  canonical_footer m =
      if m.security_enabled
      then (
        (if m.security_header.security_footer_enabled then m.security_footer else []),
        (if m.security_header.network_message_signed then canonical_text m.signature else null),
      )
      else ([], null)

  abbrev pub flags_of : NetworkMessage c.Variant → Flags
  flags_of m = record {
    version = m.version;
    publisher_id_enabled = m.publisher_id_enabled;
    group_header_enabled = m.group_header_enabled;
    payload_header_enabled = m.payload_header_enabled;
    publisher_id_type = m.publisher_id_type;
    data_set_class_id_enabled = m.data_set_class_id_enabled;
    security_enabled = m.security_enabled;
    timestamp_enabled = m.timestamp_enabled;
    picoseconds_enabled = m.picoseconds_enabled;
    chunk_message = m.chunk_message;
    promoted_fields_enabled = m.promoted_fields_enabled;
    network_message_type = m.network_message_type;
  }

  -- The message without what its flags switch off, with the sizes that were written, and each part
  -- as it comes back.
  abbrev pub canonical_network_message : NetworkMessage c.Variant → NetworkMessage c.Variant
  canonical_network_message m = record m {
    publisher_id =
        if m.publisher_id_enabled
        then canonical_publisher_id m.publisher_id_type m.publisher_id
        else number 0;
    data_set_class_id = if m.data_set_class_id_enabled then m.data_set_class_id else zero_guid;
    group_header =
        if m.group_header_enabled then canonical_group_header m.group_header else zero_group_header;
    count = (canonical_counted m).0;
    data_set_writer_ids = (canonical_counted m).1;
    timestamp = if m.timestamp_enabled then m.timestamp else 0;
    picoseconds = if m.picoseconds_enabled then m.picoseconds else 0;
    promoted_fields_size = length (canonical_promoted m) % 2 ^ 16;
    promoted_fields = canonical_promoted m;
    security_header =
        if m.security_enabled
        then canonical_security_header m.security_header
        else zero_security_header;
    sizes =
        if m.payload_header_enabled && ltb 1 m.count
        then announced m.sizes m.data_set_messages
        else [];
    data_set_messages = map (canonical_message c) m.data_set_messages;
    security_footer = (canonical_footer m).0;
    signature = (canonical_footer m).1;
  }
