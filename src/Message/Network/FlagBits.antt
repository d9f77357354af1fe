-- ===== src/Message/Network/FlagBits.antt =====
-- The bytes of flags: what the decoder finds in them is what the encoder was given.
use open_pub_sub.Base.{
  ℕ, ◌+◌, ◌*◌, ◌/◌, ◌%◌, ◌^◌, ◌<◌, ◌≡◌, bit, bit_le, bit_and, set_flag, has_flag, set_flag_lem,
  bit_and_fields, has_flag-eq, arith,
}
use open_pub_sub.Message.Network.{NetworkMessage, extended_flags1_enabled, extended_flags2_enabled}
use open_pub_sub.Message.Network.Encode.{uadp_flags, extended_flags1, extended_flags2}

module _ {V : Type 0} (src : NetworkMessage V) where
  uadp_sum :
      src.version < 16
      → uadp_flags src
        ≡ src.version
          + bit src.publisher_id_enabled * 16
          + bit src.group_header_enabled * 32
          + bit src.payload_header_enabled * 64
          + bit (extended_flags1_enabled src) * 128
  unfolding uadp_flags
  uadp_sum h =
      let b4 = bit_le src.publisher_id_enabled in
      let b5 = bit_le src.group_header_enabled in
      let b6 = bit_le src.payload_header_enabled in
      let e4 =
        set_flag_lem 4 src.publisher_id_enabled src.version (omega arith) (omega arith)
          (omega arith) in
      let v1 : ℕ = set_flag src.publisher_id_enabled 16 src.version in
      let e5 =
        set_flag_lem 5 src.group_header_enabled v1 (omega arith) (omega arith) (omega arith) in
      let v2 : ℕ = set_flag src.group_header_enabled 32 v1 in
      let e6 =
        set_flag_lem 6 src.payload_header_enabled v2 (omega arith) (omega arith) (omega arith) in
      let v3 : ℕ = set_flag src.payload_header_enabled 64 v2 in
      let e7 =
        set_flag_lem 7 (extended_flags1_enabled src) v3 (omega arith) (omega arith) (omega arith) in
      omega arith

  pub uadp_flags_bits :
      src.version < 16
      → (bit_and (uadp_flags src) 15 ≡ src.version)
        × (has_flag (uadp_flags src) 16 ≡ src.publisher_id_enabled)
        × (has_flag (uadp_flags src) 32 ≡ src.group_header_enabled)
        × (has_flag (uadp_flags src) 64 ≡ src.payload_header_enabled)
        × (has_flag (uadp_flags src) 128 ≡ extended_flags1_enabled src)
  uadp_flags_bits h =
      let v : ℕ = uadp_flags src in
      let sum = uadp_sum h in
      let b4 = bit_le src.publisher_id_enabled in
      let b5 = bit_le src.group_header_enabled in
      let b6 = bit_le src.payload_header_enabled in
      let b7 = bit_le (extended_flags1_enabled src) in
      (
        omega (arith, (bit_and_fields v (omega arith)).0),
        has_flag-eq 4 v src.publisher_id_enabled (omega arith) (omega arith) (omega arith),
        has_flag-eq 5 v src.group_header_enabled (omega arith) (omega arith) (omega arith),
        has_flag-eq 6 v src.payload_header_enabled (omega arith) (omega arith) (omega arith),
        has_flag-eq 7 v (extended_flags1_enabled src) (omega arith) (omega arith) (omega arith),
      )

  flags1_sum :
      src.publisher_id_type < 8
      → extended_flags1 src
        ≡ src.publisher_id_type
          + bit src.data_set_class_id_enabled * 8
          + bit src.security_enabled * 16
          + bit src.timestamp_enabled * 32
          + bit src.picoseconds_enabled * 64
          + bit (extended_flags2_enabled src) * 128
  unfolding extended_flags1
  flags1_sum h =
      let v0 : ℕ = src.publisher_id_type % 256 in
      let b3 = bit_le src.data_set_class_id_enabled in
      let b4 = bit_le src.security_enabled in
      let b5 = bit_le src.timestamp_enabled in
      let b6 = bit_le src.picoseconds_enabled in
      let e3 =
        set_flag_lem 3 src.data_set_class_id_enabled v0 (omega arith) (omega arith) (omega arith) in
      let v1 : ℕ = set_flag src.data_set_class_id_enabled 8 v0 in
      let e4 = set_flag_lem 4 src.security_enabled v1 (omega arith) (omega arith) (omega arith) in
      let v2 : ℕ = set_flag src.security_enabled 16 v1 in
      let e5 = set_flag_lem 5 src.timestamp_enabled v2 (omega arith) (omega arith) (omega arith) in
      let v3 : ℕ = set_flag src.timestamp_enabled 32 v2 in
      let e6 =
        set_flag_lem 6 src.picoseconds_enabled v3 (omega arith) (omega arith) (omega arith) in
      let v4 : ℕ = set_flag src.picoseconds_enabled 64 v3 in
      let e7 =
        set_flag_lem 7 (extended_flags2_enabled src) v4 (omega arith) (omega arith) (omega arith) in
      omega arith

  pub extended_flags1_bits :
      src.publisher_id_type < 8
      → (bit_and (extended_flags1 src) 7 ≡ src.publisher_id_type)
        × (has_flag (extended_flags1 src) 8 ≡ src.data_set_class_id_enabled)
        × (has_flag (extended_flags1 src) 16 ≡ src.security_enabled)
        × (has_flag (extended_flags1 src) 32 ≡ src.timestamp_enabled)
        × (has_flag (extended_flags1 src) 64 ≡ src.picoseconds_enabled)
        × (has_flag (extended_flags1 src) 128 ≡ extended_flags2_enabled src)
  extended_flags1_bits h =
      let v : ℕ = extended_flags1 src in
      let sum = flags1_sum h in
      let b3 = bit_le src.data_set_class_id_enabled in
      let b4 = bit_le src.security_enabled in
      let b5 = bit_le src.timestamp_enabled in
      let b6 = bit_le src.picoseconds_enabled in
      let b7 = bit_le (extended_flags2_enabled src) in
      (
        omega (arith, (bit_and_fields v (omega arith)).1),
        has_flag-eq 3 v src.data_set_class_id_enabled (omega arith) (omega arith) (omega arith),
        has_flag-eq 4 v src.security_enabled (omega arith) (omega arith) (omega arith),
        has_flag-eq 5 v src.timestamp_enabled (omega arith) (omega arith) (omega arith),
        has_flag-eq 6 v src.picoseconds_enabled (omega arith) (omega arith) (omega arith),
        has_flag-eq 7 v (extended_flags2_enabled src) (omega arith) (omega arith) (omega arith),
      )

  flags2_sum :
      src.network_message_type < 8
      → extended_flags2 src
        ≡ src.network_message_type * 4 + bit src.chunk_message + bit src.promoted_fields_enabled * 2
  unfolding extended_flags2
  flags2_sum h =
      let v0 : ℕ = src.network_message_type % 256 * 2 ^ 2 % 256 in
      let b0 = bit_le src.chunk_message in
      let b1 = bit_le src.promoted_fields_enabled in
      let e0 = set_flag_lem 0 src.chunk_message v0 (omega arith) (omega arith) (omega arith) in
      let v1 : ℕ = set_flag src.chunk_message 1 v0 in
      let e1 =
        set_flag_lem 1 src.promoted_fields_enabled v1 (omega arith) (omega arith) (omega arith) in
      omega arith

  pub extended_flags2_bits :
      src.network_message_type < 8
      → (bit_and (extended_flags2 src) 28 / 2 ^ 2 ≡ src.network_message_type)
        × (has_flag (extended_flags2 src) 1 ≡ src.chunk_message)
        × (has_flag (extended_flags2 src) 2 ≡ src.promoted_fields_enabled)
  extended_flags2_bits h =
      let v : ℕ = extended_flags2 src in
      let sum = flags2_sum h in
      let b0 = bit_le src.chunk_message in
      let b1 = bit_le src.promoted_fields_enabled in
      (
        omega (arith, (bit_and_fields v (omega arith)).3),
        has_flag-eq 0 v src.chunk_message (omega arith) (omega arith) (omega arith),
        has_flag-eq 1 v src.promoted_fields_enabled (omega arith) (omega arith) (omega arith),
      )
