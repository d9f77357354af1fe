-- ===== src/Tests/Offsets.antt =====
-- The theorems about offset buffers at concrete messages.
use open_pub_sub.Base.{
  ℕ, ◌<◌, ◌≤◌, ◌^◌, ◌≡◌, refl, Bool, true, false, some, none, List, [], ◌∷◌, ◌++◌, length, arith,
}
use open_pub_sub.Binary.Status.{good, bad_not_supported}
use open_pub_sub.Binary.Writer.Writes.{part}
use open_pub_sub.Binary.Each.{concat}
use open_pub_sub.Binary.DataValue.{DataValue, init_data_value}
use open_pub_sub.Binary.DataValue.Laws.{DataValueFits, data_value_encoding}
use open_pub_sub.Message.DataSet.{DataSetMessage}
use open_pub_sub.Message.DataSet.Fits.{DataSetMessageFits, key_variants}
use open_pub_sub.Message.Network.{NetworkMessage, extended_flags1_enabled, extended_flags2_enabled}
use open_pub_sub.Message.Network.Encode.{encode_network_message}
use open_pub_sub.Message.Network.Size.{
  calc_size_network_message, calc_size_behind, calc_size_payload_header, calc_size_writer_ids,
  calc_size_rest, calc_size_front, calc_size_footer_and_signature, calc_size_payload,
  calc_size_flags, calc_size_publisher_id,
}
use open_pub_sub.Message.DataSet.Size.{
  calc_size_data_set_message, calc_size_message_header, calc_size_key_frame, calc_size_delta_frame,
}
use open_pub_sub.Binary.DataValue.{calc_size_data_value}
use open_pub_sub.Message.Header.{data_set_flags2_enabled}
use open_pub_sub.Message.GroupHeader.{calc_size_group_header}
use open_pub_sub.Message.SecurityHeader.{calc_size_security_header}
use open_pub_sub.Binary.Text.{calc_size_text}
use open_pub_sub.Binary.Parts.{add_if}
use open_pub_sub.Message.Network.Fits.{NetworkMessageFits, LateParts, counted}
use open_pub_sub.Message.Offsets.{update_buffered_message}
use open_pub_sub.Message.Offsets.Memory.{VariantMemory, Memory}
use open_pub_sub.Message.Offsets.Record.{record_data_values}
use open_pub_sub.Message.Offsets.DataSet.{AllReplace, with_values}
use open_pub_sub.Message.Offsets.Network.{record_network_message}
use open_pub_sub.Message.Offsets.Update.{AllRefresh}
use open_pub_sub.Message.Offsets.Correct.{
  NetworkRefreshes, update_buffered_message-encode_network_message,
}
use open_pub_sub.Message.Offsets.Refused.{update_buffered_message-timestamp}
use open_pub_sub.Message.Offsets.Stale.{update_buffered_message-data_values}
use open_pub_sub.Tests.Codec.{option_codec}
use open_pub_sub.Tests.Examples.{
  guid-GuidFits, key_header, key_message, key_message-DataSetMessageFits,
}
use open_pub_sub.Tests.Network.{
  group, message, security-SecurityHeaderFits, message-NetworkMessageFits, zeros, large,
}

-- A message without timestamps, as it was recorded, and as it is later.
abbrev pub cyclic : ℕ → DataSetMessage option_codec.Variant → NetworkMessage option_codec.Variant
cyclic number m = record message {
  timestamp_enabled = false;
  picoseconds_enabled = false;
  promoted_fields_enabled = false;
  security_enabled = false;
  group_header = record group { sequence_number_enabled = true; sequence_number = number };
  count = 1;
  data_set_writer_ids = some (62541 ∷ []);
  sizes = [];
  data_set_messages = m ∷ [];
}

abbrev later_message : DataSetMessage option_codec.Variant
later_message = record key_message {
  header = record key_header { data_set_message_sequence_nr = 4712 };
  data_set_fields = init_data_value (some 43) ∷ init_data_value none ∷ [];
}

later_message-DataSetMessageFits : DataSetMessageFits option_codec later_message
later_message-DataSetMessageFits = record {
  header_fits = record {
    encoding_bits = omega arith;
    type_bits = omega arith;
    sequence_nr_range = omega arith;
    timestamp_range = omega arith;
    pico_seconds_range = omega arith;
    status_range = omega arith;
    major_range = omega arith;
    minor_range = omega arith;
  };
  count_range = omega arith;
  body_fits =
      key_variants refl refl refl (record { fits = omega arith }, (record { fits = tt }, tt));
}

pub cyclic-NetworkMessageFits :
    (number : ℕ) (m : DataSetMessage option_codec.Variant)
    → DataSetMessageFits option_codec m
    → NetworkMessageFits option_codec (cyclic number m)
cyclic-NetworkMessageFits number m f = record {
  is_data_set = refl;
  publisher_id_fits = message-NetworkMessageFits.publisher_id_fits;
  class_id_fits = guid-GuidFits;
  promoted_counted = refl;
  promoted_fit = message-NetworkMessageFits.promoted_fit;
  security_fits = security-SecurityHeaderFits;
  footer_range = omega arith;
  footer_counted = refl;
  signature_fits = message-NetworkMessageFits.signature_fits;
  payload_fits = counted refl (62541 ∷ []) refl refl refl (omega arith);
  messages_fit = (f, tt);
}

pub cyclic-LateParts :
    (number : ℕ) (m : DataSetMessage option_codec.Variant)
    → LateParts option_codec (cyclic number m)
unfolding part
cyclic-LateParts number m = record {
  promoted = omega arith;
  picoseconds = omega arith;
  timestamp = omega arith;
}

abbrev is_number : option_codec.Variant → Bool
is_number none = false
is_number (some n) = true

-- The variant of a type, which is missing or a UInt32, with the number that stands at an address.
abbrev number_at : Bool → ℕ × ℕ → (ℕ × ℕ → ℕ) → option_codec.Variant
number_at false a h = none
number_at true a h = some (h a)

-- The blocks hold one number for each field of each message.
abbrev pub variant_memory : VariantMemory option_codec
variant_memory = record {
  DataType = Bool;
  Address = ℕ × ℕ;
  Heap = ℕ × ℕ → ℕ;
  data_type = is_number;
  address = λ i j. (i, j);
  scalar = number_at;
}

-- Every number is 43 now.
abbrev blocks : ℕ × ℕ → ℕ
blocks a = 43

abbrev now : Memory option_codec variant_memory
now = record { message = cyclic 8 later_message; heap = blocks }

later-NetworkRefreshes :
    NetworkRefreshes option_codec variant_memory blocks
      (cyclic 8 later_message)
      (cyclic 7 key_message)
unfolding AllRefresh AllReplace
later-NetworkRefreshes = record {
  same = refl;
  messages = (
    with_values refl refl refl refl refl (
      record { recorded_fits = omega arith; fits = omega arith; same_size = refl; in_place = refl },
      (record { recorded_fits = tt; fits = tt; same_size = refl; in_place = refl }, tt),
    ),
    tt,
  );
  untimed = refl;
  coarse = refl;
}

cyclic_room : calc_size_network_message option_codec (cyclic 7 key_message) ≤ length (zeros 200)
unfolding calc_size_network_message calc_size_behind calc_size_payload_header calc_size_writer_ids
    calc_size_rest calc_size_front calc_size_footer_and_signature calc_size_payload calc_size_flags
    calc_size_publisher_id calc_size_text calc_size_security_header calc_size_group_header
    calc_size_data_set_message calc_size_message_header calc_size_key_frame calc_size_delta_frame
    calc_size_data_value add_if data_set_flags2_enabled extended_flags1_enabled
    extended_flags2_enabled
cyclic_room = omega arith

update_buffered_message-encode_network_message_example :
    let before : NetworkMessage option_codec.Variant = cyclic 7 key_message in
    update_buffered_message option_codec now
      (record_network_message option_codec variant_memory false before)
      ((encode_network_message option_codec before large).1.before
        ++ (encode_network_message option_codec before large).1.after)
    ≡ (
      good,
      (encode_network_message option_codec now.message large).1.before
          ++ (encode_network_message option_codec now.message large).1.after,
    )
update_buffered_message-encode_network_message_example =
    update_buffered_message-encode_network_message option_codec variant_memory blocks
      (cyclic 8 later_message) (cyclic 7 key_message) (zeros 200)
      (cyclic-NetworkMessageFits 8 later_message later_message-DataSetMessageFits)
      (cyclic-NetworkMessageFits 7 key_message key_message-DataSetMessageFits)
      (cyclic-LateParts 8 later_message) (cyclic-LateParts 7 key_message) later-NetworkRefreshes
      cyclic_room

update_buffered_message-timestamp_example :
    (update_buffered_message option_codec now
      (record_network_message option_codec variant_memory false message)
      (zeros 200)).0
    ≡ bad_not_supported
update_buffered_message-timestamp_example =
    update_buffered_message-timestamp option_codec variant_memory now message (zeros 200)
      message-NetworkMessageFits refl

-- Two fields, the second of which is not the first.
abbrev fields : List (DataValue option_codec.Variant)
fields = init_data_value (some 1) ∷ init_data_value (some 2) ∷ []

abbrev two : DataSetMessage option_codec.Variant
two = record key_message { data_set_fields = fields }

scalar-DataValueFits : (n : ℕ) → n < 2 ^ 32 → DataValueFits option_codec (init_data_value (some n))
scalar-DataValueFits n h = record {
  value_fits = h;
  status_range = omega arith;
  source_timestamp_range = omega arith;
  server_timestamp_range = omega arith;
  source_picoseconds_range = omega arith;
  server_picoseconds_range = omega arith;
}

update_buffered_message-data_values_example :
    update_buffered_message option_codec two
      (record_data_values option_codec (λ (m : DataSetMessage option_codec.Variant). m) fields 2)
      ((7 ∷ 8 ∷ []) ++ (concat (data_value_encoding option_codec) fields ++ (9 ∷ [])))
    ≡ (
      good,
      (7 ∷ 8 ∷ [])
          ++ (concat (λ v. data_value_encoding option_codec (init_data_value (some 1))) fields
              ++ (9 ∷ [])),
    )
unfolding calc_size_data_value add_if
update_buffered_message-data_values_example =
    update_buffered_message-data_values option_codec two fields (7 ∷ 8 ∷ []) (9 ∷ [])
      (scalar-DataValueFits 1 (omega arith))
      (
        record { fits = scalar-DataValueFits 1 (omega arith); same_size = refl },
        (record { fits = scalar-DataValueFits 2 (omega arith); same_size = refl }, tt),
      )
