-- ===== src/Tests/Program.antt =====
-- A NetworkMessage with a string and a number, encoded and decoded with the codec of Variants.
use open_pub_sub.Base.{◌≡◌, refl, true, false, some, [], ◌∷◌, drop, arith}
use open_pub_sub.Binary.Status.{good}
use open_pub_sub.Binary.Reader.{ok}
use open_pub_sub.Binary.Writer.Writes.{part}
use open_pub_sub.Binary.Scalars.{encode16, encode32, encode64}
use open_pub_sub.Message.SecurityHeader.Laws.{security_header_encoding}
use open_pub_sub.Binary.Parts.{add_if}
use open_pub_sub.Binary.Text.{chars, calc_size_text}
use open_pub_sub.Binary.BuiltinType.{uint16, jump_table}
use open_pub_sub.Binary.Variant.{Variant, scalar, calc_size_variant}
use open_pub_sub.Binary.Variant.Laws.{VariantFits, variant_encoding, variant_codec}
use open_pub_sub.Binary.VariantCodec.{VariantCodec}
use open_pub_sub.Binary.DataValue.{init_data_value, calc_size_data_value}
use open_pub_sub.Message.Header.{data_set_flags2_enabled}
use open_pub_sub.Message.GroupHeader.{calc_size_group_header}
use open_pub_sub.Message.SecurityHeader.{calc_size_security_header}
use open_pub_sub.Message.DataSet.{DataSetMessage}
use open_pub_sub.Message.DataSet.Size.{
  calc_size_data_set_message, calc_size_message_header, calc_size_key_frame, calc_size_delta_frame,
}
use open_pub_sub.Message.DataSet.Fits.{DataSetMessageFits, key_variants}
use open_pub_sub.Message.Network.{
  NetworkMessage, number, extended_flags1_enabled, extended_flags2_enabled,
}
use open_pub_sub.Message.Network.Size.{
  calc_size_network_message, calc_size_behind, calc_size_payload_header, calc_size_writer_ids,
  calc_size_rest, calc_size_front, calc_size_footer_and_signature, calc_size_payload,
  calc_size_flags, calc_size_publisher_id,
}
use open_pub_sub.Message.Network.Fits.{NetworkMessageFits, LateParts, counted}
use open_pub_sub.Message.Network.Encode.{encode_network_message}
use open_pub_sub.Message.Network.Decode.{decode_network_message}
use open_pub_sub.Message.Network.Canonical.{NetworkMessageInRange, canonical_network_message}
use open_pub_sub.Message.Network.RoundTrip.{encode_network_message-decode_network_message}
use open_pub_sub.Tests.Examples.{guid, guid-GuidFits, key_header, key_header-HeaderFits}
use open_pub_sub.Tests.Network.{
  group, security, large, group-GroupHeaderFits, security-SecurityHeaderFits,
}
use open_pub_sub.Tests.Variants.{none_other, greeting, greeting-VariantFits}

abbrev program_codec : VariantCodec
program_codec = variant_codec none_other

abbrev seven : Variant none_other
unfolding jump_table
seven = scalar uint16 7

seven-VariantFits : VariantFits none_other seven
unfolding VariantFits jump_table
seven-VariantFits = omega arith

abbrev frame : DataSetMessage (Variant none_other)
frame = record {
  header = key_header;
  field_count = 2;
  data_set_fields = init_data_value greeting ∷ init_data_value seven ∷ [];
  delta_frame_fields = [];
}

frame-DataSetMessageFits : DataSetMessageFits program_codec frame
frame-DataSetMessageFits = record {
  header_fits = key_header-HeaderFits;
  count_range = omega arith;
  body_fits =
      key_variants refl refl refl
        (record { fits = greeting-VariantFits }, (record { fits = seven-VariantFits }, tt));
}

abbrev published : NetworkMessage (Variant none_other)
published = record {
  version = 1;
  publisher_id_enabled = true;
  group_header_enabled = true;
  payload_header_enabled = true;
  publisher_id_type = 1;
  data_set_class_id_enabled = false;
  security_enabled = true;
  timestamp_enabled = true;
  picoseconds_enabled = true;
  chunk_message = false;
  promoted_fields_enabled = true;
  network_message_type = 0;
  publisher_id = number 2234;
  data_set_class_id = guid;
  group_header = group;
  count = 1;
  data_set_writer_ids = some (62541 ∷ []);
  timestamp = 11111111111111;
  picoseconds = 12;
  promoted_fields_size = 1;
  promoted_fields = seven ∷ [];
  security_header = security;
  sizes = [];
  data_set_messages = frame ∷ [];
  security_footer = 77 ∷ [];
  signature = chars (1 ∷ 2 ∷ 3 ∷ []);
}

published-NetworkMessageFits : NetworkMessageFits program_codec published
published-NetworkMessageFits = record {
  is_data_set = refl;
  publisher_id_fits = record { named = omega arith; string_fits = omega arith };
  class_id_fits = guid-GuidFits;
  promoted_counted = refl;
  promoted_fit = (record { fits = seven-VariantFits }, tt);
  security_fits = security-SecurityHeaderFits;
  footer_range = omega arith;
  footer_counted = refl;
  signature_fits = omega arith;
  payload_fits = counted refl (62541 ∷ []) refl refl refl (omega arith);
  messages_fit = (frame-DataSetMessageFits, tt);
}

published_size : calc_size_network_message program_codec published ≡ 74
unfolding calc_size_network_message calc_size_behind calc_size_payload_header calc_size_writer_ids
    calc_size_rest calc_size_front calc_size_footer_and_signature calc_size_payload calc_size_flags
    calc_size_publisher_id calc_size_text calc_size_security_header calc_size_group_header
    calc_size_data_set_message calc_size_message_header calc_size_key_frame calc_size_delta_frame
    calc_size_data_value add_if data_set_flags2_enabled extended_flags1_enabled
    extended_flags2_enabled calc_size_variant jump_table
published_size = refl

published-LateParts : LateParts program_codec published
unfolding part encode16 encode32 encode64 security_header_encoding variant_encoding jump_table
published-LateParts = record {
  promoted = omega arith;
  picoseconds = omega arith;
  timestamp = omega arith;
}

published-NetworkMessageInRange : NetworkMessageInRange program_codec published
unfolding calc_size_variant jump_table
published-NetworkMessageInRange = record {
  version_bits = omega arith;
  publisher_id_range = omega arith;
  group_header_fits = group-GroupHeaderFits;
  writer_ids_range = (omega arith, tt);
  timestamp_range = omega arith;
  picoseconds_range = omega arith;
  promoted_range = omega arith;
  sizes_range = tt;
}

encode_network_message-decode_network_message_example :
    ((encode_network_message program_codec published large).0 ≡ good)
    × (decode_network_message program_codec
          (drop 0 (encode_network_message program_codec published large).1.before)
        ≡ ok (canonical_network_message program_codec published) [])
encode_network_message-decode_network_message_example =
    encode_network_message-decode_network_message program_codec published large
      published-NetworkMessageFits published-NetworkMessageInRange published-LateParts
      (omega (arith, published_size))
