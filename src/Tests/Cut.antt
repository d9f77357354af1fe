-- ===== src/Tests/Cut.antt =====
-- A keep-alive with a timestamp, and a buffer that ends eight bytes too soon.
use open_pub_sub.Base.{◌+◌, ◌<◌, ◌≡◌, refl, sym, false, [], ◌∷◌, length, arith}
use open_pub_sub.Binary.Status.{good}
use open_pub_sub.Binary.Writer.{Buffer}
use open_pub_sub.Binary.Parts.{add_if}
use open_pub_sub.Binary.Writer.Writes.{part}
use open_pub_sub.Binary.Text.{calc_size_text}
use open_pub_sub.Message.GroupHeader.{calc_size_group_header}
use open_pub_sub.Message.SecurityHeader.{calc_size_security_header}
use open_pub_sub.Message.Network.{NetworkMessage, extended_flags1_enabled, extended_flags2_enabled}
use open_pub_sub.Message.Network.Encode.{encode_network_message}
use open_pub_sub.Message.Network.Size.{
  calc_size_network_message, calc_size_behind, calc_size_payload_header, calc_size_writer_ids,
  calc_size_rest, calc_size_front, calc_size_footer_and_signature, calc_size_payload,
  calc_size_flags, calc_size_publisher_id,
}
use open_pub_sub.Message.DataSet.Size.{
  calc_size_data_set_message, calc_size_message_header, calc_size_key_frame, calc_size_delta_frame,
}
use open_pub_sub.Binary.DataValue.{calc_size_data_value}
use open_pub_sub.Message.Header.{data_set_flags2_enabled}
use open_pub_sub.Message.Network.Fits.{NetworkMessageFits}
use open_pub_sub.Tests.Codec.{option_codec}
use open_pub_sub.Message.FieldEncoding
use open_pub_sub.Message.DataSetMessageType
use open_pub_sub.Message.Header.RoundTrip.{HeaderFits}
use open_pub_sub.Message.Header.Size.{header_encoding}
use open_pub_sub.Message.DataSet.{DataSetMessage}
use open_pub_sub.Message.DataSet.Fits.{DataSetMessageFits, keep_alive, body_encoding}
use open_pub_sub.Message.Network.Fits.{single, tail_encoding}
use open_pub_sub.Message.Network.Cut.{encode_network_message-without_timestamp}
use open_pub_sub.Tests.Examples.{header_of}
use open_pub_sub.Tests.Network.{zeros, message, message-NetworkMessageFits}

abbrev keep_alive_message : DataSetMessage option_codec.Variant
keep_alive_message = record {
  header = record (header_of DataSetMessageType.keep_alive FieldEncoding.variant) {
    data_set_message_sequence_nr_enabled = false;
    timestamp_enabled = false;
    config_version_minor_version_enabled = false;
  };
  field_count = 0;
  data_set_fields = [];
  delta_frame_fields = [];
}

abbrev heartbeat : NetworkMessage option_codec.Variant
heartbeat = record message {
  payload_header_enabled = false;
  security_enabled = false;
  picoseconds_enabled = false;
  promoted_fields_enabled = false;
  data_set_messages = keep_alive_message ∷ [];
}

abbrev short_buffer : Buffer
short_buffer = record { before = []; after = zeros 11 }

keep_alive-HeaderFits : HeaderFits keep_alive_message.header
keep_alive-HeaderFits = record {
  encoding_bits = omega arith;
  type_bits = omega arith;
  sequence_nr_range = omega arith;
  timestamp_range = omega arith;
  pico_seconds_range = omega arith;
  status_range = omega arith;
  major_range = omega arith;
  minor_range = omega arith;
}

keep_alive-DataSetMessageFits : DataSetMessageFits option_codec keep_alive_message
keep_alive-DataSetMessageFits = record {
  header_fits = keep_alive-HeaderFits;
  count_range = omega arith;
  body_fits = keep_alive refl;
}

heartbeat-NetworkMessageFits : NetworkMessageFits option_codec heartbeat
heartbeat-NetworkMessageFits = record {
  is_data_set = refl;
  publisher_id_fits = message-NetworkMessageFits.publisher_id_fits;
  class_id_fits = message-NetworkMessageFits.class_id_fits;
  promoted_counted = refl;
  promoted_fit = message-NetworkMessageFits.promoted_fit;
  security_fits = message-NetworkMessageFits.security_fits;
  footer_range = omega arith;
  footer_counted = refl;
  signature_fits = omega arith;
  payload_fits = single refl refl;
  messages_fit = (keep_alive-DataSetMessageFits, tt);
}

heartbeat_size : calc_size_network_message option_codec heartbeat ≡ 19
unfolding calc_size_network_message calc_size_behind calc_size_payload_header calc_size_writer_ids
    calc_size_rest calc_size_front calc_size_footer_and_signature calc_size_payload calc_size_flags
    calc_size_publisher_id calc_size_text calc_size_security_header calc_size_group_header
    calc_size_data_set_message calc_size_message_header calc_size_key_frame calc_size_delta_frame
    calc_size_data_value add_if data_set_flags2_enabled extended_flags1_enabled
    extended_flags2_enabled
heartbeat_size = refl

tail_of_heartbeat : length (tail_encoding option_codec heartbeat) < 8
unfolding part header_encoding data_set_flags2_enabled body_encoding
tail_of_heartbeat = omega arith

encode_network_message-without_timestamp_example :
    ((encode_network_message option_codec heartbeat short_buffer).0 ≡ good)
    × (length (encode_network_message option_codec heartbeat short_buffer).1.before + 8
        ≡ 0 + calc_size_network_message option_codec heartbeat)
encode_network_message-without_timestamp_example =
    encode_network_message-without_timestamp option_codec heartbeat short_buffer
      heartbeat-NetworkMessageFits refl refl refl tail_of_heartbeat (sym heartbeat_size)
