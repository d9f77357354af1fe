-- ===== src/Tests/Network.antt =====
-- A NetworkMessage of two DataSetMessages, and the theorems about NetworkMessages at it.
use open_pub_sub.Base.{
  ap, ℕ, zero, suc, ◌≤◌, ◌+◌, ◌-◌, ◌≡◌, refl, true, false, some, List, [], ◌∷◌, ◌++◌, length, drop,
  leb, arith,
}
use open_pub_sub.Binary.Status.{good, is_good}
use open_pub_sub.Binary.Writer.{Buffer}
use open_pub_sub.Binary.Reader.{ok}
use open_pub_sub.Binary.Reader.Reads.{Reads}
use open_pub_sub.Binary.Reader.Consumes.{Suffix}
use open_pub_sub.Binary.Parts.{add_if}
use open_pub_sub.Binary.Writer.Writes.{part}
use open_pub_sub.Binary.Scalars.{encode16, encode32, encode64}
use open_pub_sub.Binary.Text.{chars, calc_size_text}
use open_pub_sub.Message.GroupHeader.{
  GroupHeader, encode_group_header, decode_group_header, calc_size_group_header,
}
use open_pub_sub.Message.GroupHeader.Laws.{
  GroupHeaderFits, canonical_group_header, group_header_encoding, group_header-Reads,
}
use open_pub_sub.Message.GroupHeader.Correct.{
  encode_group_header-decode_group_header, decode_group_header-append,
}
use open_pub_sub.Message.SecurityHeader.{
  SecurityHeader, encode_security_header, decode_security_header, calc_size_security_header,
}
use open_pub_sub.Message.SecurityHeader.Laws.{
  SecurityHeaderFits, canonical_security_header, security_header_encoding, security_header-Reads,
}
use open_pub_sub.Message.SecurityHeader.Correct.{
  encode_security_header-decode_security_header, decode_security_header-append,
}
use open_pub_sub.Message.Network.{
  NetworkMessage, number, extended_flags1_enabled, extended_flags2_enabled,
}
use open_pub_sub.Message.Network.Encode.{encode_network_message}
use open_pub_sub.Message.Network.Size.{
  calc_size_network_message, calc_size_behind, calc_size_payload_header, calc_size_writer_ids,
  calc_size_rest, calc_size_front, calc_size_footer_and_signature, calc_size_payload,
  calc_size_flags, calc_size_publisher_id,
}
use open_pub_sub.Message.DataSet.Size.{
  calc_size_data_set_message, calc_size_message_header, calc_size_key_frame, calc_size_delta_frame,
}
use open_pub_sub.Binary.DataValue.{calc_size_data_value}
use open_pub_sub.Message.Header.{data_set_flags2_enabled}
use open_pub_sub.Message.Network.Fits.{NetworkMessageFits, LateParts, counted, writer_ids}
use open_pub_sub.Message.Network.Safe.{ValuesFit, encode_network_message-Extends}
use open_pub_sub.Binary.Writer.Safe.{Extends}
use open_pub_sub.Message.Network.Correct.{encode_network_message-good, encode_network_message-size}
use open_pub_sub.Tests.Codec.{option_codec}
use open_pub_sub.Tests.Examples.{
  room, small, guid, guid-GuidFits, key_message, key_message-DataSetMessageFits, delta_message,
  delta_message-DataSetMessageFits, answer-DataValueFits,
}

-- Two hundred bytes of room.
abbrev pub zeros : ℕ → List ℕ
zeros zero = []
zeros (suc n) = 0 ∷ zeros n

abbrev pub large : Buffer
large = record { before = []; after = zeros 200 }

abbrev pub group : GroupHeader
group = record {
  writer_group_id_enabled = true;
  group_version_enabled = false;
  network_message_number_enabled = true;
  sequence_number_enabled = false;
  writer_group_id = 100;
  group_version = 5;
  network_message_number = 7;
  sequence_number = 9;
}

abbrev pub security : SecurityHeader
security = record {
  network_message_signed = true;
  network_message_encrypted = false;
  security_footer_enabled = true;
  force_key_reset = false;
  security_token_id = 1;
  nonce_length = 2;
  message_nonce = 8 ∷ 9 ∷ [];
  security_footer_size = 1;
}

abbrev pub message : NetworkMessage option_codec.Variant
message = record {
  version = 1;
  publisher_id_enabled = true;
  group_header_enabled = true;
  payload_header_enabled = true;
  publisher_id_type = 1;
  data_set_class_id_enabled = false;
  security_enabled = true;
  timestamp_enabled = true;
  picoseconds_enabled = true;
  chunk_message = false;
  promoted_fields_enabled = true;
  network_message_type = 0;
  publisher_id = number 2234;
  data_set_class_id = guid;
  group_header = group;
  count = 2;
  data_set_writer_ids = some (62541 ∷ 62542 ∷ []);
  timestamp = 11111111111111;
  picoseconds = 12;
  promoted_fields_size = 1;
  promoted_fields = some 5 ∷ [];
  security_header = security;
  sizes = 0 ∷ 0 ∷ [];
  data_set_messages = key_message ∷ delta_message ∷ [];
  security_footer = 77 ∷ [];
  signature = chars (1 ∷ 2 ∷ 3 ∷ []);
}

pub group-GroupHeaderFits : GroupHeaderFits group
group-GroupHeaderFits = record {
  writer_group_id_range = omega arith;
  group_version_range = omega arith;
  network_message_number_range = omega arith;
  sequence_number_range = omega arith;
}

pub security-SecurityHeaderFits : SecurityHeaderFits security
security-SecurityHeaderFits = record {
  security_token_id_range = omega arith;
  nonce_counted = refl;
  nonce_range = omega arith;
  security_footer_size_range = omega arith;
}

pub message-NetworkMessageFits : NetworkMessageFits option_codec message
message-NetworkMessageFits = record {
  is_data_set = refl;
  publisher_id_fits = record { named = omega arith; string_fits = omega arith };
  class_id_fits = guid-GuidFits;
  promoted_counted = refl;
  promoted_fit = (record { fits = omega arith }, tt);
  security_fits = security-SecurityHeaderFits;
  footer_range = omega arith;
  footer_counted = refl;
  signature_fits = omega arith;
  payload_fits = counted refl (62541 ∷ 62542 ∷ []) refl refl refl (omega arith);
  messages_fit = (key_message-DataSetMessageFits, (delta_message-DataSetMessageFits, tt));
}

pub message-LateParts : LateParts option_codec message
unfolding part encode16 encode32 encode64 security_header_encoding
message-LateParts = record {
  promoted = omega arith;
  picoseconds = omega arith;
  timestamp = omega arith;
}

encode_group_header-decode_group_header_example :
    ((encode_group_header group room).0 ≡ good)
    × (decode_group_header (drop 2 (encode_group_header group room).1.before)
        ≡ ok (canonical_group_header group) [])
unfolding calc_size_group_header add_if
encode_group_header-decode_group_header_example =
    encode_group_header-decode_group_header group room group-GroupHeaderFits (omega arith)

encode_security_header-decode_security_header_example :
    ((encode_security_header security room).0 ≡ good)
    × (decode_security_header (drop 2 (encode_security_header security room).1.before)
        ≡ ok (canonical_security_header security) [])
unfolding calc_size_security_header add_if
encode_security_header-decode_security_header_example =
    encode_security_header-decode_security_header security room security-SecurityHeaderFits
      (omega arith)

encode_network_message-good_example :
    is_good (encode_network_message option_codec message small).0
    ≡ leb (calc_size_network_message option_codec message) 3
encode_network_message-good_example =
    encode_network_message-good option_codec message small message-NetworkMessageFits
      message-LateParts

pub message_size : calc_size_network_message option_codec message ≡ 114
unfolding calc_size_network_message calc_size_behind calc_size_payload_header calc_size_writer_ids
    calc_size_rest calc_size_front calc_size_footer_and_signature calc_size_payload calc_size_flags
    calc_size_publisher_id calc_size_text calc_size_security_header calc_size_group_header
    calc_size_data_set_message calc_size_message_header calc_size_key_frame calc_size_delta_frame
    calc_size_data_value add_if data_set_flags2_enabled extended_flags1_enabled
    extended_flags2_enabled
message_size = refl

encode_network_message-size_example :
    ((encode_network_message option_codec message large).0 ≡ good)
    × (length (encode_network_message option_codec message large).1.before
        ≡ 0 + calc_size_network_message option_codec message)
    × (length (encode_network_message option_codec message large).1.after
        ≡ 200 - calc_size_network_message option_codec message)
encode_network_message-size_example =
    encode_network_message-size option_codec message large message-NetworkMessageFits
      message-LateParts (omega (arith, message_size))

two_ids : (ids : List ℕ) → message.data_set_writer_ids ≡ some ids → 2 ≤ length ids
two_ids ids e = omega (arith, ap (λ x. length (writer_ids option_codec x)) e)

message-ValuesFit : ValuesFit option_codec message
message-ValuesFit = record {
  ids_counted = two_ids;
  sizes_counted = λ h. omega arith;
  messages_counted = omega arith;
  promoted_counted = omega arith;
  footer_counted = omega arith;
  nonce_counted = omega arith;
  class_id = guid-GuidFits;
  promoted = (record { fits = omega arith }, tt);
  messages = (
    record {
      key_counted = λ e. omega arith;
      delta_counted = λ e. absurd (omega (arith, e));
      key_fields = (
        answer-DataValueFits,
        (
          record {
            value_fits = tt;
            status_range = omega arith;
            source_timestamp_range = omega arith;
            server_timestamp_range = omega arith;
            source_picoseconds_range = omega arith;
            server_picoseconds_range = omega arith;
          },
          tt,
        ),
      );
      delta_fields = tt;
    },
    (
      record {
        key_counted = λ e. absurd (omega (arith, e));
        delta_counted = λ e. omega arith;
        key_fields = tt;
        delta_fields = (record { fits = answer-DataValueFits }, tt);
      },
      tt,
    ),
  );
}

encode_network_message-Extends_example :
    Extends small (encode_network_message option_codec message small).1
encode_network_message-Extends_example =
    encode_network_message-Extends option_codec message small message-ValuesFit

decode_group_header-append_example :
    Suffix (9 ∷ []) (group_header_encoding group ++ (9 ∷ []))
    × (decode_group_header ((group_header_encoding group ++ (9 ∷ [])) ++ (8 ∷ []))
        ≡ ok (canonical_group_header group) ((9 ∷ []) ++ (8 ∷ [])))
decode_group_header-append_example =
    decode_group_header-append (group_header_encoding group ++ (9 ∷ [])) (8 ∷ [])
      (canonical_group_header group) (9 ∷ [])
      (Reads.reads (group_header-Reads group group-GroupHeaderFits) (9 ∷ []))

decode_security_header-append_example :
    Suffix (9 ∷ []) (security_header_encoding security ++ (9 ∷ []))
    × (decode_security_header ((security_header_encoding security ++ (9 ∷ [])) ++ (8 ∷ []))
        ≡ ok (canonical_security_header security) ((9 ∷ []) ++ (8 ∷ [])))
decode_security_header-append_example =
    decode_security_header-append (security_header_encoding security ++ (9 ∷ [])) (8 ∷ [])
      (canonical_security_header security) (9 ∷ [])
      (Reads.reads (security_header-Reads security security-SecurityHeaderFits) (9 ∷ []))
