-- ===== src/Tests/Examples.antt =====
-- Tests at concrete messages, and each theorem at a concrete input where its conditions hold.
use open_pub_sub.Base.{ℕ, ◌<◌, ◌≡◌, refl, true, false, some, none, [], ◌∷◌, ◌++◌, drop, arith}
use open_pub_sub.Binary.Status.{good, is_good}
use open_pub_sub.Binary.Writer.{Buffer}
use open_pub_sub.Binary.Writer.Safe.{Extends}
use open_pub_sub.Binary.Reader.{ok}
use open_pub_sub.Binary.Reader.Consumes.{Suffix}
use open_pub_sub.Binary.Parts.{add_if}
use open_pub_sub.Binary.Text.{Text, chars, encode_text, decode_text, calc_size_text}
use open_pub_sub.Binary.Reader.Reads.{Reads}
use open_pub_sub.Binary.Text.Laws.{text_encoding, canonical_text, text-Reads}
use open_pub_sub.Binary.Text.Correct.{
  encode_text-decode_text, encode_text-good, encode_text-Extends, decode_text-append,
}
use open_pub_sub.Binary.Guid.{Guid, encode_guid, decode_guid, calc_size_guid}
use open_pub_sub.Binary.Guid.Laws.{GuidFits}
use open_pub_sub.Binary.Guid.Correct.{encode_guid-decode_guid, encode_guid-good}
use open_pub_sub.Binary.DataValue.{
  DataValue, init_data_value, data_value_encode_binary, data_value_decode_binary,
  calc_size_data_value,
}
use open_pub_sub.Binary.DataValue.Laws.{DataValueFits, canonical_data_value}
use open_pub_sub.Binary.DataValue.Correct.{
  data_value_encode_binary-data_value_decode_binary, data_value_encode_binary-good,
}
use open_pub_sub.Message.FieldEncoding
use open_pub_sub.Message.DataSetMessageType
use open_pub_sub.Message.Header.{DataSetMessageHeader, data_set_flags2_enabled}
use open_pub_sub.Message.Header.Encode.{encode_header}
use open_pub_sub.Message.Header.Decode.{decode_header}
use open_pub_sub.Message.Header.Size.{calc_size_header, header_encoding}
use open_pub_sub.Message.Header.RoundTrip.{HeaderFits, canonical_header, header-Reads}
use open_pub_sub.Message.Header.Correct.{
  encode_header-good, encode_header-decode_header, encode_header-Extends, decode_header-append,
}
use open_pub_sub.Message.DataSet.{DataSetMessage}
use open_pub_sub.Message.DataSet.Encode.{encode_data_set_message}
use open_pub_sub.Message.DataSet.Decode.{decode_data_set_message}
use open_pub_sub.Message.DataSet.Size.{
  calc_size_data_set_message, calc_size_message_header, calc_size_key_frame, calc_size_delta_frame,
}
use open_pub_sub.Message.DataSet.Fits.{DataSetMessageFits, key_variants, delta_data_values}
use open_pub_sub.Message.DataSet.RoundTrip.{canonical_message}
use open_pub_sub.Message.DataSet.Correct.{
  encode_data_set_message-good, encode_data_set_message-decode_data_set_message,
}
use open_pub_sub.Tests.Codec.{option_codec}

-- Sixty-four bytes of room behind two that are written.
abbrev pub room : Buffer
room = record {
  before = 1 ∷ 2 ∷ [];
  after =
      0 ∷ 0 ∷ 0 ∷ 0 ∷ 0 ∷ 0 ∷ 0 ∷ 0 ∷ 0 ∷ 0 ∷ 0 ∷ 0 ∷ 0 ∷ 0 ∷ 0 ∷ 0 ∷ 0 ∷ 0 ∷ 0 ∷ 0 ∷ 0 ∷ 0 ∷ 0 ∷ 0
      ∷ 0 ∷ 0 ∷ 0 ∷ 0 ∷ 0 ∷ 0 ∷ 0 ∷ 0 ∷ 0 ∷ 0 ∷ 0 ∷ 0 ∷ 0 ∷ 0 ∷ 0 ∷ 0 ∷ 0 ∷ 0 ∷ 0 ∷ 0 ∷ 0 ∷ 0 ∷ 0
      ∷ 0 ∷ [];
}

abbrev pub small : Buffer
small = record { before = []; after = 0 ∷ 0 ∷ 0 ∷ [] }

abbrev pub header_of : ℕ → ℕ → DataSetMessageHeader
header_of type encoding = record {
  data_set_message_valid = true;
  field_encoding = encoding;
  data_set_message_sequence_nr_enabled = true;
  timestamp_enabled = true;
  status_enabled = false;
  config_version_major_version_enabled = false;
  config_version_minor_version_enabled = true;
  data_set_message_type = type;
  pico_seconds_included = false;
  data_set_message_sequence_nr = 4711;
  timestamp = 11111111111111;
  pico_seconds = 5;
  status = 6;
  config_version_major_version = 7;
  config_version_minor_version = 1478393530;
}

abbrev pub key_header : DataSetMessageHeader
key_header = header_of DataSetMessageType.data_key_frame FieldEncoding.variant

abbrev pub delta_header : DataSetMessageHeader
delta_header = header_of DataSetMessageType.data_delta_frame FieldEncoding.data_value

abbrev pub answer : DataValue option_codec.Variant
answer = record (init_data_value (some 42)) {
  has_value = true;
  source_timestamp = 99;
  has_source_timestamp = true;
  source_picoseconds = 10001;
  has_source_picoseconds = true;
}

abbrev pub key_message : DataSetMessage option_codec.Variant
key_message = record {
  header = key_header;
  field_count = 2;
  data_set_fields = answer ∷ init_data_value none ∷ [];
  delta_frame_fields = [];
}

abbrev pub delta_message : DataSetMessage option_codec.Variant
delta_message = record {
  header = delta_header;
  field_count = 1;
  data_set_fields = [];
  delta_frame_fields = record { field_index = 3; field_value = answer } ∷ [];
}

abbrev greeting : Text
greeting = chars (104 ∷ 105 ∷ [])

abbrev pub guid : Guid
guid = record {
  data1 = 305419896;
  data2 = 4660;
  data3 = 22136;
  data4 = 1 ∷ 2 ∷ 3 ∷ 4 ∷ 5 ∷ 6 ∷ 7 ∷ 8 ∷ [];
}

pub header_of-HeaderFits :
    (type encoding : ℕ) → type < 16 → encoding < 4 → HeaderFits (header_of type encoding)
header_of-HeaderFits type encoding t e = record {
  encoding_bits = e;
  type_bits = t;
  sequence_nr_range = omega arith;
  timestamp_range = omega arith;
  pico_seconds_range = omega arith;
  status_range = omega arith;
  major_range = omega arith;
  minor_range = omega arith;
}

pub key_header-HeaderFits : HeaderFits key_header
key_header-HeaderFits = header_of-HeaderFits 0 0 (omega arith) (omega arith)

delta_header-HeaderFits : HeaderFits delta_header
delta_header-HeaderFits = header_of-HeaderFits 1 2 (omega arith) (omega arith)

pub answer-DataValueFits : DataValueFits option_codec answer
answer-DataValueFits = record {
  value_fits = omega arith;
  status_range = omega arith;
  source_timestamp_range = omega arith;
  server_timestamp_range = omega arith;
  source_picoseconds_range = omega arith;
  server_picoseconds_range = omega arith;
}

pub key_message-DataSetMessageFits : DataSetMessageFits option_codec key_message
key_message-DataSetMessageFits = record {
  header_fits = key_header-HeaderFits;
  count_range = omega arith;
  body_fits =
      key_variants refl refl refl (record { fits = omega arith }, (record { fits = tt }, tt));
}

pub delta_message-DataSetMessageFits : DataSetMessageFits option_codec delta_message
delta_message-DataSetMessageFits = record {
  header_fits = delta_header-HeaderFits;
  count_range = omega arith;
  body_fits =
      delta_data_values refl refl refl
        (record { index_range = omega arith; fits = answer-DataValueFits }, tt);
}

pub guid-GuidFits : GuidFits guid
guid-GuidFits = record {
  first = omega arith;
  second = omega arith;
  third = omega arith;
  last = refl;
}

encode_header-good_example : is_good (encode_header key_header small).0 ≡ false
unfolding calc_size_header add_if data_set_flags2_enabled
encode_header-good_example = encode_header-good key_header small

encode_header-decode_header_example :
    ((encode_header key_header room).0 ≡ good)
    × (decode_header (drop 2 (encode_header key_header room).1.before)
        ≡ ok (canonical_header key_header) [])
unfolding calc_size_header add_if data_set_flags2_enabled
encode_header-decode_header_example =
    encode_header-decode_header key_header room key_header-HeaderFits (omega arith)

encode_header-Extends_example : Extends small (encode_header key_header small).1
encode_header-Extends_example = encode_header-Extends key_header small

encode_data_set_message-good_example :
    is_good (encode_data_set_message option_codec key_message small).0 ≡ false
unfolding calc_size_data_set_message calc_size_message_header calc_size_key_frame
    calc_size_delta_frame calc_size_data_value add_if data_set_flags2_enabled
encode_data_set_message-good_example =
    encode_data_set_message-good option_codec key_message small key_message-DataSetMessageFits

encode_data_set_message-decode_data_set_message_example :
    ((encode_data_set_message option_codec delta_message room).0 ≡ good)
    × (decode_data_set_message option_codec
          (drop 2 (encode_data_set_message option_codec delta_message room).1.before)
        ≡ ok (canonical_message option_codec delta_message) [])
unfolding calc_size_data_set_message calc_size_message_header calc_size_key_frame
    calc_size_delta_frame calc_size_data_value add_if data_set_flags2_enabled
encode_data_set_message-decode_data_set_message_example =
    encode_data_set_message-decode_data_set_message option_codec delta_message room
      delta_message-DataSetMessageFits (omega arith)

data_value_encode_binary-good_example :
    is_good (data_value_encode_binary option_codec answer small).0 ≡ false
unfolding calc_size_data_value add_if
data_value_encode_binary-good_example =
    data_value_encode_binary-good option_codec answer small answer-DataValueFits

data_value_encode_binary-data_value_decode_binary_example :
    ((data_value_encode_binary option_codec answer room).0 ≡ good)
    × (data_value_decode_binary option_codec
          (drop 2 (data_value_encode_binary option_codec answer room).1.before)
        ≡ ok (canonical_data_value option_codec answer) [])
unfolding calc_size_data_value add_if
data_value_encode_binary-data_value_decode_binary_example =
    data_value_encode_binary-data_value_decode_binary option_codec answer room answer-DataValueFits
      (omega arith)

encode_text-decode_text_example :
    ((encode_text greeting room).0 ≡ good)
    × (decode_text (drop 2 (encode_text greeting room).1.before) ≡ ok greeting [])
unfolding calc_size_text
encode_text-decode_text_example = encode_text-decode_text greeting room (omega arith) (omega arith)

encode_text-good_example : is_good (encode_text greeting small).0 ≡ false
unfolding calc_size_text
encode_text-good_example = encode_text-good greeting small (omega arith)

encode_text-Extends_example : Extends small (encode_text greeting small).1
encode_text-Extends_example = encode_text-Extends greeting small

encode_guid-decode_guid_example :
    ((encode_guid guid room).0 ≡ good)
    × (decode_guid (drop 2 (encode_guid guid room).1.before) ≡ ok guid [])
unfolding calc_size_guid
encode_guid-decode_guid_example = encode_guid-decode_guid guid room guid-GuidFits (omega arith)

encode_guid-good_example : is_good (encode_guid guid small).0 ≡ false
unfolding calc_size_guid
encode_guid-good_example = encode_guid-good guid small guid-GuidFits

decode_header-append_example :
    Suffix (9 ∷ []) (header_encoding key_header ++ (9 ∷ []))
    × (decode_header ((header_encoding key_header ++ (9 ∷ [])) ++ (8 ∷ []))
        ≡ ok (canonical_header key_header) ((9 ∷ []) ++ (8 ∷ [])))
decode_header-append_example =
    decode_header-append (header_encoding key_header ++ (9 ∷ [])) (8 ∷ [])
      (canonical_header key_header) (9 ∷ [])
      (Reads.reads (header-Reads key_header key_header-HeaderFits) (9 ∷ []))

decode_text-append_example :
    Suffix (9 ∷ []) (text_encoding greeting ++ (9 ∷ []))
    × (decode_text ((text_encoding greeting ++ (9 ∷ [])) ++ (8 ∷ []))
        ≡ ok (canonical_text greeting) ((9 ∷ []) ++ (8 ∷ [])))
decode_text-append_example =
    decode_text-append (text_encoding greeting ++ (9 ∷ [])) (8 ∷ []) (canonical_text greeting)
      (9 ∷ []) (Reads.reads (text-Reads greeting (omega arith)) (9 ∷ []))
