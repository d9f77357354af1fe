-- ===== src/Message/Header/Flags.antt =====
-- The two bytes of flags: each bit that the decoder tests is the one that the encoder set.
use open_pub_sub.Base.{
  ℕ, ◌+◌, ◌*◌, ◌/◌, ◌%◌, ◌^◌, ◌<◌, ◌≡◌, bit, bit_le, bit_and, set_flag, has_flag, set_flag_lem,
  bit_and_fields, has_flag-eq, arith,
}
use open_pub_sub.Message.Header.{DataSetMessageHeader, data_set_flags2_enabled}
use open_pub_sub.Message.Header.Encode.{data_set_flags1, data_set_flags2}

module _ (src : DataSetMessageHeader) where
  flags1_sum :
      src.field_encoding < 4
      → data_set_flags1 src
        ≡ src.field_encoding * 2
          + bit src.data_set_message_valid
          + bit src.data_set_message_sequence_nr_enabled * 8
          + bit src.status_enabled * 16
          + bit src.config_version_major_version_enabled * 32
          + bit src.config_version_minor_version_enabled * 64
          + bit (data_set_flags2_enabled src) * 128
  unfolding data_set_flags1
  flags1_sum h =
      let v0 : ℕ = src.field_encoding % 256 * 2 ^ 1 % 256 in
      let b0 = bit_le src.data_set_message_valid in
      let b3 = bit_le src.data_set_message_sequence_nr_enabled in
      let b4 = bit_le src.status_enabled in
      let b5 = bit_le src.config_version_major_version_enabled in
      let b6 = bit_le src.config_version_minor_version_enabled in
      let e0 =
        set_flag_lem 0 src.data_set_message_valid v0 (omega arith) (omega arith) (omega arith) in
      let v1 : ℕ = set_flag src.data_set_message_valid 1 v0 in
      let e1 =
        set_flag_lem 3 src.data_set_message_sequence_nr_enabled v1 (omega arith) (omega arith)
          (omega arith) in
      let v2 : ℕ = set_flag src.data_set_message_sequence_nr_enabled 8 v1 in
      let e2 = set_flag_lem 4 src.status_enabled v2 (omega arith) (omega arith) (omega arith) in
      let v3 : ℕ = set_flag src.status_enabled 16 v2 in
      let e3 =
        set_flag_lem 5 src.config_version_major_version_enabled v3 (omega arith) (omega arith)
          (omega arith) in
      let v4 : ℕ = set_flag src.config_version_major_version_enabled 32 v3 in
      let e4 =
        set_flag_lem 6 src.config_version_minor_version_enabled v4 (omega arith) (omega arith)
          (omega arith) in
      let v5 : ℕ = set_flag src.config_version_minor_version_enabled 64 v4 in
      let e5 =
        set_flag_lem 7 (data_set_flags2_enabled src) v5 (omega arith) (omega arith) (omega arith) in
      omega arith

  -- The decoder's tests on the first byte answer with the flags of the header.
  pub data_set_flags1_bits :
      src.field_encoding < 4
      → (has_flag (data_set_flags1 src) 1 ≡ src.data_set_message_valid)
        × (bit_and (data_set_flags1 src) 6 / 2 ^ 1 ≡ src.field_encoding)
        × (has_flag (data_set_flags1 src) 8 ≡ src.data_set_message_sequence_nr_enabled)
        × (has_flag (data_set_flags1 src) 16 ≡ src.status_enabled)
        × (has_flag (data_set_flags1 src) 32 ≡ src.config_version_major_version_enabled)
        × (has_flag (data_set_flags1 src) 64 ≡ src.config_version_minor_version_enabled)
        × (has_flag (data_set_flags1 src) 128 ≡ data_set_flags2_enabled src)
  data_set_flags1_bits h =
      let v : ℕ = data_set_flags1 src in
      let sum = flags1_sum h in
      let b0 = bit_le src.data_set_message_valid in
      let b3 = bit_le src.data_set_message_sequence_nr_enabled in
      let b4 = bit_le src.status_enabled in
      let b5 = bit_le src.config_version_major_version_enabled in
      let b6 = bit_le src.config_version_minor_version_enabled in
      let b7 = bit_le (data_set_flags2_enabled src) in
      (
        has_flag-eq 0 v src.data_set_message_valid (omega arith) (omega arith) (omega arith),
        omega (arith, (bit_and_fields v (omega arith)).2),
        has_flag-eq 3 v src.data_set_message_sequence_nr_enabled (omega arith) (omega arith)
            (omega arith),
        has_flag-eq 4 v src.status_enabled (omega arith) (omega arith) (omega arith),
        has_flag-eq 5 v src.config_version_major_version_enabled (omega arith) (omega arith)
            (omega arith),
        has_flag-eq 6 v src.config_version_minor_version_enabled (omega arith) (omega arith)
            (omega arith),
        has_flag-eq 7 v (data_set_flags2_enabled src) (omega arith) (omega arith) (omega arith),
      )

  flags2_sum :
      src.data_set_message_type < 16
      → data_set_flags2 src
        ≡ src.data_set_message_type
          + bit src.timestamp_enabled * 16
          + bit src.pico_seconds_included * 32
  unfolding data_set_flags2
  flags2_sum h =
      let v0 : ℕ = src.data_set_message_type % 256 in
      let b4 = bit_le src.timestamp_enabled in
      let b5 = bit_le src.pico_seconds_included in
      let e0 = set_flag_lem 4 src.timestamp_enabled v0 (omega arith) (omega arith) (omega arith) in
      let v1 : ℕ = set_flag src.timestamp_enabled 16 v0 in
      let e1 =
        set_flag_lem 5 src.pico_seconds_included v1 (omega arith) (omega arith) (omega arith) in
      omega arith

  pub data_set_flags2_bits :
      src.data_set_message_type < 16
      → (bit_and (data_set_flags2 src) 15 ≡ src.data_set_message_type)
        × (has_flag (data_set_flags2 src) 16 ≡ src.timestamp_enabled)
        × (has_flag (data_set_flags2 src) 32 ≡ src.pico_seconds_included)
  data_set_flags2_bits h =
      let v : ℕ = data_set_flags2 src in
      let sum = flags2_sum h in
      let b4 = bit_le src.timestamp_enabled in
      let b5 = bit_le src.pico_seconds_included in
      (
        omega (arith, (bit_and_fields v (omega arith)).0),
        has_flag-eq 4 v src.timestamp_enabled (omega arith) (omega arith) (omega arith),
        has_flag-eq 5 v src.pico_seconds_included (omega arith) (omega arith) (omega arith),
      )
