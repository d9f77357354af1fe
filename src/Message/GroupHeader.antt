-- ===== src/Message/GroupHeader.antt =====
-- The group header of a NetworkMessage: `UA_NetworkMessageGroupHeader` of
-- openPubSub/ua_pubsub/ua_pubsub_networkmessage.h, with its parts of
-- `UA_NetworkMessage_encodeBinary`, `_decodeBinaryInternal` and `_calcSizeBinary`.
pub mod Laws
pub mod Correct
use open_pub_sub.Base.{ℕ, ◌+◌, Bool, has_flag}
use open_pub_sub.Binary.Writer.{Encoder, ◌>>◌, when}
use open_pub_sub.Binary.Reader.{Reader, pure, read_if, ◌>>=◌}
use open_pub_sub.Binary.Scalars.{calc_size_binary1, calc_size_binary2, calc_size_binary4}
use open_pub_sub.Binary.Generated.{
  byte_encode_binary, uint16_encode_binary, uint32_encode_binary, byte_decode_binary,
  uint16_decode_binary, uint32_decode_binary,
}
use open_pub_sub.Binary.Parts.{add_if}
use open_pub_sub.Message.FourFlags.{four_flags}

pub record GroupHeader : Type 0 where
  pub writer_group_id_enabled : Bool
  pub group_version_enabled : Bool
  pub network_message_number_enabled : Bool
  pub sequence_number_enabled : Bool
  pub writer_group_id : ℕ
  pub group_version : ℕ
  pub network_message_number : ℕ
  pub sequence_number : ℕ

unfoldable pub group_flags : GroupHeader → ℕ
group_flags g =
    four_flags g.writer_group_id_enabled g.group_version_enabled g.network_message_number_enabled
      g.sequence_number_enabled

unfoldable pub encode_group_header : GroupHeader → Encoder
encode_group_header g =
    byte_encode_binary (group_flags g)
    >> when g.writer_group_id_enabled (uint16_encode_binary g.writer_group_id)
    >> when g.group_version_enabled (uint32_encode_binary g.group_version)
    >> when g.network_message_number_enabled (uint16_encode_binary g.network_message_number)
    >> when g.sequence_number_enabled (uint16_encode_binary g.sequence_number)

-- The values behind the byte of flags.
unfoldable pub decode_group_values : ℕ → Reader GroupHeader
decode_group_values v = do
  writer_group_id ← read_if (has_flag v 1) uint16_decode_binary 0
  group_version ← read_if (has_flag v 2) uint32_decode_binary 0
  network_message_number ← read_if (has_flag v 4) uint16_decode_binary 0
  sequence_number ← read_if (has_flag v 8) uint16_decode_binary 0
  pure (record {
    writer_group_id_enabled = has_flag v 1;
    group_version_enabled = has_flag v 2;
    network_message_number_enabled = has_flag v 4;
    sequence_number_enabled = has_flag v 8;
    writer_group_id = writer_group_id;
    group_version = group_version;
    network_message_number = network_message_number;
    sequence_number = sequence_number;
  })

unfoldable pub decode_group_header : Reader GroupHeader
decode_group_header = byte_decode_binary >>= decode_group_values

unfoldable pub calc_size_group_header : GroupHeader → ℕ → ℕ
calc_size_group_header g size = add_if g.sequence_number_enabled calc_size_binary2 (
    add_if g.network_message_number_enabled calc_size_binary2 (
      add_if g.group_version_enabled calc_size_binary4
        (add_if g.writer_group_id_enabled calc_size_binary2 (size + calc_size_binary1))))
