-- ===== src/Message/Network/Size.antt =====
-- `UA_NetworkMessage_calcSizeBinary` without an offset buffer.
use open_pub_sub.Base.{ℕ, ◌+◌, ◌*◌, ◌&&◌, ◌==◌, ltb, List, Option, none, some, take, if◌then◌else◌}
use open_pub_sub.Binary.Scalars.{
  calc_size_binary1, calc_size_binary2, calc_size_binary4, calc_size_binary8,
}
use open_pub_sub.Binary.Text.{calc_size_text}
use open_pub_sub.Binary.Guid.{calc_size_guid}
use open_pub_sub.Binary.Parts.{add_if}
use open_pub_sub.Binary.Each.{sum}
use open_pub_sub.Binary.VariantCodec.{VariantCodec}
use open_pub_sub.Message.GroupHeader.{calc_size_group_header}
use open_pub_sub.Message.SecurityHeader.{calc_size_security_header}
use open_pub_sub.Message.DataSet.{DataSetMessage}
use open_pub_sub.Message.DataSet.Size.{calc_size_data_set_message}
use open_pub_sub.Message.Network.{
  NetworkMessage, PublisherId, id_string, extended_flags1_enabled, extended_flags2_enabled,
  message_count,
}

unfoldable pub calc_size_publisher_id : ℕ → PublisherId → ℕ
calc_size_publisher_id type id =
    if type == 0
    then calc_size_binary1
    else if type == 1
    then calc_size_binary2
    else if type == 2
    then calc_size_binary4
    else if type == 3
    then calc_size_binary8
    else if type == 4
    then calc_size_text (id_string id)
    else 0

unfoldable pub calc_size_flags : {V : Type 0} → NetworkMessage V → ℕ
calc_size_flags p =
    if extended_flags1_enabled p
    then add_if (extended_flags2_enabled p) calc_size_binary1
        (calc_size_binary1 + calc_size_binary1)
    else calc_size_binary1

-- A missing array of writer ids ends the computation with the size 0: `none`.
unfoldable pub calc_size_writer_ids : ℕ → Option (List ℕ) → ℕ → Option ℕ
calc_size_writer_ids count none size = none
calc_size_writer_ids count (some ids) size =
    some (size + calc_size_binary1 + calc_size_binary2 * count)

unfoldable pub calc_size_payload_header : {V : Type 0} → NetworkMessage V → ℕ → Option ℕ
calc_size_payload_header p size =
    if p.network_message_type == 0
    then calc_size_writer_ids p.count p.data_set_writer_ids size
    else some size

module _ (c : VariantCodec) where
  abbrev pub calc_size_message : DataSetMessage c.Variant → ℕ
  calc_size_message m = calc_size_data_set_message c m 0

  unfoldable pub calc_size_payload : NetworkMessage c.Variant → ℕ → ℕ
  calc_size_payload p size =
      if p.network_message_type == 0
      then add_if (p.payload_header_enabled && ltb 1 p.count) (calc_size_binary2 * p.count) size
        + sum calc_size_message (take (message_count p) p.data_set_messages)
      else size

  unfoldable pub calc_size_footer_and_signature : NetworkMessage c.Variant → ℕ → ℕ
  calc_size_footer_and_signature p size =
      add_if p.security_header.network_message_signed (calc_size_text p.signature) (
        add_if p.security_header.security_footer_enabled p.security_header.security_footer_size
          size)

  -- What follows the payload header.
  unfoldable pub calc_size_rest : NetworkMessage c.Variant → ℕ → ℕ
  calc_size_rest p size =
      let timed = add_if p.timestamp_enabled calc_size_binary8 size in
      let fine = add_if p.picoseconds_enabled calc_size_binary2 timed in
      let fields = take p.promoted_fields_size p.promoted_fields in
      let promoted =
        add_if p.promoted_fields_enabled (calc_size_binary2 + sum c.calc_size fields) fine in
      let secured =
        if p.security_enabled
        then calc_size_security_header p.security_header promoted
        else promoted in
      let loaded = calc_size_payload p secured in
      if p.security_enabled then calc_size_footer_and_signature p loaded else loaded

  -- What precedes the payload header.
  unfoldable pub calc_size_front : NetworkMessage c.Variant → ℕ
  calc_size_front p =
      let identified =
        add_if p.publisher_id_enabled (calc_size_publisher_id p.publisher_id_type p.publisher_id)
          (calc_size_flags p) in
      let classed =
        add_if p.data_set_class_id_enabled (calc_size_guid p.data_set_class_id) identified in
      if p.group_header_enabled then calc_size_group_header p.group_header classed else classed

  unfoldable pub calc_size_behind : NetworkMessage c.Variant → Option ℕ → ℕ
  calc_size_behind p none = 0
  calc_size_behind p (some size) = calc_size_rest p size

  unfoldable pub calc_size_network_message : NetworkMessage c.Variant → ℕ
  calc_size_network_message p =
      if p.payload_header_enabled
      then calc_size_behind p (calc_size_payload_header p (calc_size_front p))
      else calc_size_rest p (calc_size_front p)
