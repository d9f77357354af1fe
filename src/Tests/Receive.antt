-- ===== src/Tests/Receive.antt =====
-- The theorems about the subscriber's side of the offset buffers at concrete messages.
use open_pub_sub.Base.{ℕ, ◌≤◌, ◌≡◌, refl, true, false, some, none, [], ◌∷◌, ◌++◌, length, arith}
use open_pub_sub.Binary.Status.{good, is_good}
use open_pub_sub.Binary.DataValue.{init_data_value, calc_size_data_value}
use open_pub_sub.Binary.Text.{calc_size_text}
use open_pub_sub.Binary.Parts.{add_if}
use open_pub_sub.Message.Header.{data_set_flags2_enabled}
use open_pub_sub.Message.GroupHeader.{calc_size_group_header}
use open_pub_sub.Message.SecurityHeader.{calc_size_security_header}
use open_pub_sub.Message.DataSet.{DataSetMessage}
use open_pub_sub.Message.DataSet.Fits.{DataSetMessageFits, key_variants}
use open_pub_sub.Message.DataSet.Size.{
  calc_size_data_set_message, calc_size_message_header, calc_size_key_frame, calc_size_delta_frame,
}
use open_pub_sub.Message.Network.{NetworkMessage, extended_flags1_enabled, extended_flags2_enabled}
use open_pub_sub.Message.Network.Encode.{encode_network_message}
use open_pub_sub.Message.Network.Size.{
  calc_size_network_message, calc_size_behind, calc_size_payload_header, calc_size_writer_ids,
  calc_size_rest, calc_size_front, calc_size_footer_and_signature, calc_size_payload,
  calc_size_flags, calc_size_publisher_id,
}
use open_pub_sub.Message.Offsets.Record.{
  record_variants, record_key_frame, record_sequence_nr, record_data_set_message,
}
use open_pub_sub.Message.Offsets.Network.{
  record_group_header, record_front, record_messages, record_rest, record_behind, record_writer_ids,
  record_network_message,
}
use open_pub_sub.Message.Offsets.Receive.{update_buffered_nw_message}
use open_pub_sub.Message.Offsets.Receive.Expected.{RealTime, Template, received_message}
use open_pub_sub.Message.Offsets.Receive.Correct.{
  status_and_message, update_buffered_nw_message-encode_network_message,
}
use open_pub_sub.Message.Offsets.Receive.Numbered.{update_buffered_nw_message-numbered}
use open_pub_sub.Tests.Codec.{option_codec}
use open_pub_sub.Tests.Examples.{key_header, key_message, key_message-DataSetMessageFits}
use open_pub_sub.Tests.Network.{large}
use open_pub_sub.Tests.Offsets.{cyclic, cyclic-NetworkMessageFits, cyclic-LateParts, variant_memory}

-- A key frame without a sequence number, of one given value and an empty one.
abbrev silent : ℕ → DataSetMessage option_codec.Variant
silent value = record key_message {
  header = record key_header { data_set_message_sequence_nr_enabled = false };
  data_set_fields = init_data_value (some value) ∷ init_data_value none ∷ [];
}

silent-DataSetMessageFits : DataSetMessageFits option_codec (silent 43)
silent-DataSetMessageFits = record {
  header_fits = record {
    encoding_bits = omega arith;
    type_bits = omega arith;
    sequence_nr_range = omega arith;
    timestamp_range = omega arith;
    pico_seconds_range = omega arith;
    status_range = omega arith;
    major_range = omega arith;
    minor_range = omega arith;
  };
  count_range = omega arith;
  body_fits =
      key_variants refl refl refl (record { fits = omega arith }, (record { fits = tt }, tt));
}

abbrev sent : NetworkMessage option_codec.Variant
sent = cyclic 8 (silent 43)

abbrev first_seen : NetworkMessage option_codec.Variant
first_seen = cyclic 7 (silent 42)

abbrev sent-RealTime : RealTime option_codec sent
sent-RealTime = record {
  fits = cyclic-NetworkMessageFits 8 (silent 43) silent-DataSetMessageFits;
  in_range = record {
    version_bits = omega arith;
    publisher_id_range = omega arith;
    group_header_fits = record {
      writer_group_id_range = omega arith;
      group_version_range = omega arith;
      network_message_number_range = omega arith;
      sequence_number_range = omega arith;
    };
    writer_ids_range = (omega arith, tt);
    timestamp_range = omega arith;
    picoseconds_range = omega arith;
    promoted_range = omega arith;
    sizes_range = tt;
  };
  numbered = omega arith;
  untimed = refl;
  coarse = refl;
  frame = silent 43;
  one_message = refl;
  key_frame = record {
    is_key_frame = refl;
    of_variants = refl;
    unnumbered = refl;
    counted = refl;
    values_fit = (record { fits = omega arith }, (record { fits = tt }, tt));
  };
}

abbrev first_seen-Template : Template option_codec sent sent-RealTime first_seen
first_seen-Template = record {
  same_type = refl;
  first = silent 42;
  others = [];
  messages = refl;
  room = omega arith;
}

same_offsets :
    record_network_message option_codec variant_memory true first_seen
    ≡ record_network_message option_codec variant_memory true sent
unfolding record_network_message record_front record_group_header record_writer_ids record_behind
    record_rest record_messages record_data_set_message record_sequence_nr record_key_frame
    record_variants calc_size_front calc_size_payload_header calc_size_writer_ids calc_size_flags
    calc_size_publisher_id calc_size_group_header calc_size_message_header add_if
    extended_flags1_enabled extended_flags2_enabled
same_offsets = refl

sent_room : calc_size_network_message option_codec sent ≤ length large.after
unfolding calc_size_network_message calc_size_behind calc_size_payload_header calc_size_writer_ids
    calc_size_rest calc_size_front calc_size_footer_and_signature calc_size_payload calc_size_flags
    calc_size_publisher_id calc_size_text calc_size_security_header calc_size_group_header
    calc_size_data_set_message calc_size_message_header calc_size_key_frame calc_size_delta_frame
    calc_size_data_value add_if data_set_flags2_enabled extended_flags1_enabled
    extended_flags2_enabled
sent_room = omega arith

update_buffered_nw_message-encode_network_message_example :
    status_and_message (
      update_buffered_nw_message option_codec
        ((encode_network_message option_codec sent large).1.before
          ++ (encode_network_message option_codec sent large).1.after)
        (length large.before)
        (record_network_message option_codec variant_memory true first_seen)
        first_seen)
    ≡ (good, received_message option_codec sent first_seen sent-RealTime first_seen-Template)
update_buffered_nw_message-encode_network_message_example =
    update_buffered_nw_message-encode_network_message option_codec variant_memory sent first_seen
      first_seen large sent-RealTime first_seen-Template same_offsets
      (cyclic-LateParts 8 (silent 43)) sent_room

update_buffered_nw_message-numbered_example :
    let numbered : NetworkMessage option_codec.Variant = cyclic 7 key_message in
    let x =
      update_buffered_nw_message option_codec
        (1 ∷ 2 ∷ 3 ∷ [])
        1
        (record_network_message option_codec variant_memory true numbered)
        first_seen in
    (is_good x.0 ≡ false) × (x.2 ≡ 1)
update_buffered_nw_message-numbered_example =
    update_buffered_nw_message-numbered option_codec variant_memory (cyclic 7 key_message)
      first_seen key_message [] (1 ∷ 2 ∷ 3 ∷ []) 1
      (cyclic-NetworkMessageFits 7 key_message key_message-DataSetMessageFits) refl refl
