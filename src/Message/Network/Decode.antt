-- ===== src/Message/Network/Decode.antt =====
-- `UA_NetworkMessage_decodeBinaryInternal`, section by section.
use open_pub_sub.Base.{
  ℕ, zero, suc, ◌+◌, ◌/◌, ◌%◌, ◌^◌, Bool, false, ◌&&◌, not, ◌==◌, ltb, List, [], ◌∷◌, Option, none,
  some, length, bit_and, has_flag, if◌then◌else◌,
}
use open_pub_sub.Binary.Status.{bad_internal_error, bad_decoding_error, bad_not_implemented}
use open_pub_sub.Binary.Reader.{Reader, ok, pure, fail, read_if, ◌>>=◌}
use open_pub_sub.Binary.Generated.{
  byte_decode_binary, uint16_decode_binary, uint32_decode_binary, uint64_decode_binary,
  date_time_decode_binary, text_decode_binary, guid_decode_binary,
}
use open_pub_sub.Binary.Text.{Text, null}
use open_pub_sub.Binary.Guid.{Guid}
use open_pub_sub.Binary.Each.{decode_each}
use open_pub_sub.Binary.VariantCodec.{VariantCodec}
use open_pub_sub.Binary.DataValue.{variant_decode_binary}
use open_pub_sub.Message.GroupHeader.{GroupHeader, decode_group_header}
use open_pub_sub.Message.SecurityHeader.{SecurityHeader, decode_security_header}
use open_pub_sub.Message.DataSet.{DataSetMessage}
use open_pub_sub.Message.DataSet.Decode.{decode_data_set_message}
use open_pub_sub.Message.Network.{NetworkMessage, PublisherId, number, string}

-- What the first bytes of a message say of it.
pub record Flags : Type 0 where
  pub version : ℕ
  pub publisher_id_enabled : Bool
  pub group_header_enabled : Bool
  pub payload_header_enabled : Bool
  pub publisher_id_type : ℕ
  pub data_set_class_id_enabled : Bool
  pub security_enabled : Bool
  pub timestamp_enabled : Bool
  pub picoseconds_enabled : Bool
  pub chunk_message : Bool
  pub promoted_fields_enabled : Bool
  pub network_message_type : ℕ

-- `memset(dst, 0, sizeof(UA_NetworkMessage))`, for the parts that a message may leave out.
abbrev pub zero_guid : Guid
zero_guid = record { data1 = 0; data2 = 0; data3 = 0; data4 = 0 ∷ 0 ∷ 0 ∷ 0 ∷ 0 ∷ 0 ∷ 0 ∷ 0 ∷ [] }

abbrev pub zero_group_header : GroupHeader
zero_group_header = record {
  writer_group_id_enabled = false;
  group_version_enabled = false;
  network_message_number_enabled = false;
  sequence_number_enabled = false;
  writer_group_id = 0;
  group_version = 0;
  network_message_number = 0;
  sequence_number = 0;
}

abbrev pub zero_security_header : SecurityHeader
zero_security_header = record {
  network_message_signed = false;
  network_message_encrypted = false;
  security_footer_enabled = false;
  force_key_reset = false;
  security_token_id = 0;
  nonce_length = 0;
  message_nonce = [];
  security_footer_size = 0;
}

-- The type of the message, and the two flags beside it.
unfoldable pub decode_extended_flags2 : Reader (ℕ × Bool × Bool)
decode_extended_flags2 =
    byte_decode_binary >>= λ v. pure (bit_and v 28 / 2 ^ 2, has_flag v 1, has_flag v 2)

-- The publisher id type, four flags, and what a third byte says.
unfoldable pub decode_extended_flags1 : Reader (ℕ × Bool × Bool × Bool × Bool × (ℕ × Bool × Bool))
decode_extended_flags1 = do
  v ← byte_decode_binary
  flags2 ← read_if (has_flag v 128) decode_extended_flags2 (0, false, false)
  pure (bit_and v 7, has_flag v 8, has_flag v 16, has_flag v 32, has_flag v 64, flags2)

abbrev pub flags_of_bytes : ℕ → ℕ × Bool × Bool × Bool × Bool × (ℕ × Bool × Bool) → Flags
flags_of_bytes v (id_type, class_id, security, timestamp, picoseconds, (type, chunk, promoted)) =
    record {
      version = bit_and v 15;
      publisher_id_enabled = has_flag v 16;
      group_header_enabled = has_flag v 32;
      payload_header_enabled = has_flag v 64;
      publisher_id_type = id_type;
      data_set_class_id_enabled = class_id;
      security_enabled = security;
      timestamp_enabled = timestamp;
      picoseconds_enabled = picoseconds;
      chunk_message = chunk;
      promoted_fields_enabled = promoted;
      network_message_type = type;
    }

unfoldable pub decode_flags : Reader Flags
decode_flags = do
  v ← byte_decode_binary
  flags1 ←
      read_if (has_flag v 128) decode_extended_flags1
        (0, false, false, false, false, (0, false, false))
  pure (flags_of_bytes v flags1)

-- `switch(dst->publisherIdType)`
unfoldable pub decode_publisher_id : ℕ → Reader PublisherId
decode_publisher_id type =
    if type == 0
    then byte_decode_binary >>= (λ n. pure (number n))
    else if type == 1
    then uint16_decode_binary >>= (λ n. pure (number n))
    else if type == 2
    then uint32_decode_binary >>= (λ n. pure (number n))
    else if type == 3
    then uint64_decode_binary >>= (λ n. pure (number n))
    else if type == 4
    then text_decode_binary >>= (λ t. pure (string t))
    else fail bad_internal_error

-- The count, and the ids that it counts.
unfoldable pub decode_payload_header : ℕ → Reader (ℕ × Option (List ℕ))
decode_payload_header type =
    if not (type == 0)
    then fail bad_not_implemented
    else byte_decode_binary >>= λ count.
        decode_each uint16_decode_binary count >>= λ ids. pure (count, some ids)

-- `for(UA_Byte i = …; i < securityFooterSize; i++)`. The counter is a byte, so that behind 255 it is 0
-- again, and a byte that is read replaces an earlier one; no such run succeeds. A round takes input, so
-- that the fuel is more than the rounds that succeed.
unfoldable pub decode_footer_from : ℕ → ℕ → ℕ → Reader (List ℕ)
decode_footer_from zero i size = fail bad_decoding_error
decode_footer_from (suc fuel) i size =
    let more = decode_footer_from fuel ((i + 1) % 2 ^ 8) size in
    if ltb i size then byte_decode_binary >>= (λ v. more >>= λ vs. pure (v ∷ vs)) else pure []

unfoldable pub decode_security_footer : ℕ → Reader (List ℕ)
decode_security_footer size input = decode_footer_from (suc (length input)) 0 size input

unfoldable pub decode_footer_and_signature : SecurityHeader → Reader (List ℕ × Text)
decode_footer_and_signature security = do
  footer ←
      read_if (security.security_footer_enabled && ltb 0 security.security_footer_size)
        (decode_security_footer security.security_footer_size) []
  signature ← read_if security.network_message_signed text_decode_binary null
  pure (footer, signature)

module _ (c : VariantCodec) where
  -- `do { … } while((*offset) < offsetEnd)`, where `whole` bytes were left when the loop began and
  -- the fields take `size` of them. A round takes input, which bounds the rounds.
  unfoldable pub decode_promoted_values : ℕ → ℕ → ℕ → Reader (List c.Variant)
  decode_promoted_values zero whole size = fail bad_decoding_error
  decode_promoted_values (suc fuel) whole size =
      let more = decode_promoted_values fuel whole size in
      variant_decode_binary c >>= λ v. (λ rest.
        if ltb whole (length rest + size)
        then (more >>= λ vs. pure (v ∷ vs)) rest
        else ok (v ∷ []) rest)

  -- The size of the fields in bytes, and the fields.
  unfoldable pub decode_promoted_content : ℕ → Reader (List c.Variant)
  decode_promoted_content size input =
      if ltb 0 size
      then decode_promoted_values (suc (length input)) (length input) size input
      else ok [] input

  unfoldable pub decode_promoted_fields : Reader (List c.Variant)
  decode_promoted_fields = uint16_decode_binary >>= decode_promoted_content

  -- The sizes of the messages, and the messages.
  unfoldable pub decode_payload : Flags → ℕ → Reader (List ℕ × List (DataSetMessage c.Variant))
  decode_payload flags counted =
      if not (flags.network_message_type == 0)
      then fail bad_not_implemented
      else read_if (flags.payload_header_enabled && ltb 1 counted)
          (decode_each uint16_decode_binary counted) []
        >>= λ sizes.
            decode_each (decode_data_set_message c)
              (if flags.payload_header_enabled then counted else 1)
            >>= λ messages. pure (sizes, messages)

  unfoldable pub decode_sections : Flags → Reader (NetworkMessage c.Variant)
  decode_sections flags = do
    publisher_id ←
        read_if flags.publisher_id_enabled (decode_publisher_id flags.publisher_id_type) (number 0)
    class_id ← read_if flags.data_set_class_id_enabled guid_decode_binary zero_guid
    group_header ← read_if flags.group_header_enabled decode_group_header zero_group_header
    header ←
        read_if flags.payload_header_enabled (decode_payload_header flags.network_message_type)
          (0, none)
    timestamp ← read_if flags.timestamp_enabled date_time_decode_binary 0
    picoseconds ← read_if flags.picoseconds_enabled uint16_decode_binary 0
    promoted ← read_if flags.promoted_fields_enabled decode_promoted_fields []
    security ← read_if flags.security_enabled decode_security_header zero_security_header
    payload ← decode_payload flags header.0
    footer ← read_if flags.security_enabled (decode_footer_and_signature security) ([], null)
    pure (record {
      version = flags.version;
      publisher_id_enabled = flags.publisher_id_enabled;
      group_header_enabled = flags.group_header_enabled;
      payload_header_enabled = flags.payload_header_enabled;
      publisher_id_type = flags.publisher_id_type;
      data_set_class_id_enabled = flags.data_set_class_id_enabled;
      security_enabled = flags.security_enabled;
      timestamp_enabled = flags.timestamp_enabled;
      picoseconds_enabled = flags.picoseconds_enabled;
      chunk_message = flags.chunk_message;
      promoted_fields_enabled = flags.promoted_fields_enabled;
      network_message_type = flags.network_message_type;
      publisher_id = publisher_id;
      data_set_class_id = class_id;
      group_header = group_header;
      count = header.0;
      data_set_writer_ids = header.1;
      timestamp = timestamp;
      picoseconds = picoseconds;
      promoted_fields_size = length promoted % 2 ^ 16;
      promoted_fields = promoted;
      security_header = security;
      sizes = payload.0;
      data_set_messages = payload.1;
      security_footer = footer.0;
      signature = footer.1;
    })

  unfoldable pub decode_network_message : Reader (NetworkMessage c.Variant)
  decode_network_message = decode_flags >>= decode_sections
