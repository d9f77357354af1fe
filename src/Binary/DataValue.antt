-- ===== src/Binary/DataValue.antt =====
-- DataValue in openPubSub/ua_pubsub/ua_types_encoding_binary.c, over any codec of the variant in it.
pub mod Mask
pub mod Laws
pub mod Correct
pub mod Reading
use open_pub_sub.Base.{ℕ, ◌+◌, Bool, false, bit, set_flag, has_flag, ltb, if◌then◌else◌}
use open_pub_sub.Binary.Status.{bad_encoding_error}
use open_pub_sub.Binary.Writer.{
  Encoder, ◌>>◌, when, also, encode_with_exchange_buffer, encode_binary,
}
use open_pub_sub.Binary.Reader
use open_pub_sub.Binary.Reader.{Reader, pure, fail, read_if, ◌>>=◌, decode_binary}
use open_pub_sub.Binary.Scalars.{
  encode_byte, decode_byte, encode_uint16, decode_uint16, encode_uint32, decode_uint32,
  encode_uint64, decode_uint64, calc_size_binary1, calc_size_binary2, calc_size_binary4,
  calc_size_binary8,
}
use open_pub_sub.Binary.Parts.{add_if}
use open_pub_sub.Binary.VariantCodec.{VariantCodec}

-- Timestamps are 64-bit patterns.
pub record DataValue (V : Type 0) : Type 0 where
  pub value : V
  pub source_timestamp : ℕ
  pub server_timestamp : ℕ
  pub source_picoseconds : ℕ
  pub server_picoseconds : ℕ
  pub status : ℕ
  pub has_value : Bool
  pub has_status : Bool
  pub has_source_timestamp : Bool
  pub has_server_timestamp : Bool
  pub has_source_picoseconds : Bool
  pub has_server_picoseconds : Bool

abbrev pub max_recursion : ℕ
max_recursion = 100

abbrev pub max_pico_seconds : ℕ
max_pico_seconds = 9999

-- `UA_DataValue_init`: all bytes zero.
abbrev pub init_data_value : {V : Type 0} → V → DataValue V
init_data_value v = record {
  value = v;
  source_timestamp = 0;
  server_timestamp = 0;
  source_picoseconds = 0;
  server_picoseconds = 0;
  status = 0;
  has_value = false;
  has_status = false;
  has_source_timestamp = false;
  has_server_timestamp = false;
  has_source_picoseconds = false;
  has_server_picoseconds = false;
}

-- A shifted Boolean is set where it holds.
unfoldable pub encoding_mask : {V : Type 0} → DataValue V → ℕ
encoding_mask src = set_flag src.has_server_picoseconds 32 (
    set_flag src.has_source_picoseconds 16 (
      set_flag src.has_server_timestamp 8
        (set_flag src.has_source_timestamp 4 (set_flag src.has_status 2 (bit src.has_value)))))

-- `if(dst->picoseconds > MAX_PICO_SECONDS) dst->picoseconds = MAX_PICO_SECONDS;`
unfoldable pub clamp_picoseconds : ℕ → ℕ
clamp_picoseconds n = if ltb max_pico_seconds n then max_pico_seconds else n

module _ (c : VariantCodec) where
  unfoldable pub encode_data_value : DataValue c.Variant → Encoder
  encode_data_value src =
      encode_byte (encoding_mask src)
      >> when src.has_value (c.encode src.value)
      >> also
          (also
            (also
              (also (when src.has_status (encode_with_exchange_buffer (encode_uint32 src.status))) (
                when src.has_source_timestamp
                  (encode_with_exchange_buffer (encode_uint64 src.source_timestamp))))
              (when src.has_source_picoseconds
                (encode_with_exchange_buffer (encode_uint16 src.source_picoseconds))))
            (when src.has_server_timestamp
              (encode_with_exchange_buffer (encode_uint64 src.server_timestamp))))
          (when src.has_server_picoseconds
            (encode_with_exchange_buffer (encode_uint16 src.server_picoseconds)))

  -- The parts that the mask announces, or-ed with `ret |=`, in the order of the input.
  unfoldable pub decode_parts : ℕ → ℕ → Reader (((((c.Variant × ℕ) × ℕ) × ℕ) × ℕ) × ℕ)
  decode_parts depth mask =
      Reader.also
        (Reader.also
          (Reader.also
            (Reader.also
              (Reader.also (read_if (has_flag mask 1) (c.decode (depth + 1)) c.empty)
                (read_if (has_flag mask 2) decode_uint32 0))
              (read_if (has_flag mask 4) decode_uint64 0))
            (read_if (has_flag mask 16) decode_uint16 0))
          (read_if (has_flag mask 8) decode_uint64 0))
        (read_if (has_flag mask 32) decode_uint16 0)

  abbrev pub of_parts : ℕ → ((((c.Variant × ℕ) × ℕ) × ℕ) × ℕ) × ℕ → DataValue c.Variant
  of_parts mask (((((value, status), source), source_pico), server), server_pico) = record {
    value = value;
    source_timestamp = source;
    server_timestamp = server;
    source_picoseconds = clamp_picoseconds source_pico;
    server_picoseconds = clamp_picoseconds server_pico;
    status = status;
    has_value = has_flag mask 1;
    has_status = has_flag mask 2;
    has_source_timestamp = has_flag mask 4;
    has_server_timestamp = has_flag mask 8;
    has_source_picoseconds = has_flag mask 16;
    has_server_picoseconds = has_flag mask 32;
  }

  unfoldable pub decode_content : ℕ → ℕ → Reader (DataValue c.Variant)
  decode_content depth mask =
      if ltb max_recursion depth
      then fail bad_encoding_error
      else decode_parts depth mask >>= λ parts. pure (of_parts mask parts)

  unfoldable pub decode_data_value : ℕ → Reader (DataValue c.Variant)
  decode_data_value depth = decode_byte >>= decode_content depth

  unfoldable pub calc_size_data_value : DataValue c.Variant → ℕ
  calc_size_data_value src = add_if src.has_server_picoseconds calc_size_binary2 (
      add_if src.has_server_timestamp calc_size_binary8 (
        add_if src.has_source_picoseconds calc_size_binary2 (
          add_if src.has_source_timestamp calc_size_binary8 (
            add_if src.has_status calc_size_binary4
              (add_if src.has_value (c.calc_size src.value) 1)))))

  -- `UA_DataValue_encodeBinary`, `UA_DataValue_decodeBinary`, and the same for a Variant alone.
  unfoldable pub data_value_encode_binary : DataValue c.Variant → Encoder
  data_value_encode_binary src = encode_binary (encode_data_value src)

  unfoldable pub data_value_decode_binary : Reader (DataValue c.Variant)
  data_value_decode_binary = decode_binary (decode_data_value 0)

  unfoldable pub variant_encode_binary : c.Variant → Encoder
  variant_encode_binary v = encode_binary (c.encode v)

  unfoldable pub variant_decode_binary : Reader c.Variant
  variant_decode_binary = decode_binary (c.decode 0)
