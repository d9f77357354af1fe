-- ===== src/Binary/DataValue/Mask.antt =====
-- The encoding mask of a DataValue: each bit that the decoder tests is the one that the encoder set.
use open_pub_sub.Base.{
  ℕ, ◌+◌, ◌*◌, ◌≡◌, arith, bit, bit_le, set_flag, has_flag, set_flag_lem, has_flag-eq,
}
use open_pub_sub.Binary.DataValue.{DataValue, encoding_mask}

-- The decoder's tests on the mask answer with the flags of the value.
mask_sum :
    {V : Type 0} (v : DataValue V)
    → encoding_mask v
      ≡ bit v.has_value
        + bit v.has_status * 2
        + bit v.has_source_timestamp * 4
        + bit v.has_server_timestamp * 8
        + bit v.has_source_picoseconds * 16
        + bit v.has_server_picoseconds * 32
unfolding encoding_mask
mask_sum v =
    let b0 = bit_le v.has_value in
    let b1 = bit_le v.has_status in
    let b2 = bit_le v.has_source_timestamp in
    let b3 = bit_le v.has_server_timestamp in
    let b4 = bit_le v.has_source_picoseconds in
    let e1 =
      set_flag_lem 1 v.has_status (bit v.has_value) (omega arith) (omega arith) (omega arith) in
    let m1 : ℕ = set_flag v.has_status 2 (bit v.has_value) in
    let e2 = set_flag_lem 2 v.has_source_timestamp m1 (omega arith) (omega arith) (omega arith) in
    let m2 : ℕ = set_flag v.has_source_timestamp 4 m1 in
    let e3 = set_flag_lem 3 v.has_server_timestamp m2 (omega arith) (omega arith) (omega arith) in
    let m3 : ℕ = set_flag v.has_server_timestamp 8 m2 in
    let e4 = set_flag_lem 4 v.has_source_picoseconds m3 (omega arith) (omega arith) (omega arith) in
    let m4 : ℕ = set_flag v.has_source_picoseconds 16 m3 in
    let e5 = set_flag_lem 5 v.has_server_picoseconds m4 (omega arith) (omega arith) (omega arith) in
    omega arith

pub mask_bits :
    {V : Type 0} (v : DataValue V)
    → (has_flag (encoding_mask v) 1 ≡ v.has_value)
      × (has_flag (encoding_mask v) 2 ≡ v.has_status)
      × (has_flag (encoding_mask v) 4 ≡ v.has_source_timestamp)
      × (has_flag (encoding_mask v) 8 ≡ v.has_server_timestamp)
      × (has_flag (encoding_mask v) 16 ≡ v.has_source_picoseconds)
      × (has_flag (encoding_mask v) 32 ≡ v.has_server_picoseconds)
mask_bits v =
    let m : ℕ = encoding_mask v in
    let sum = mask_sum v in
    let b0 = bit_le v.has_value in
    let b1 = bit_le v.has_status in
    let b2 = bit_le v.has_source_timestamp in
    let b3 = bit_le v.has_server_timestamp in
    let b4 = bit_le v.has_source_picoseconds in
    let b5 = bit_le v.has_server_picoseconds in
    (
      has_flag-eq 0 m v.has_value (omega arith) (omega arith) (omega arith),
      has_flag-eq 1 m v.has_status (omega arith) (omega arith) (omega arith),
      has_flag-eq 2 m v.has_source_timestamp (omega arith) (omega arith) (omega arith),
      has_flag-eq 3 m v.has_server_timestamp (omega arith) (omega arith) (omega arith),
      has_flag-eq 4 m v.has_source_picoseconds (omega arith) (omega arith) (omega arith),
      has_flag-eq 5 m v.has_server_picoseconds (omega arith) (omega arith) (omega arith),
    )
