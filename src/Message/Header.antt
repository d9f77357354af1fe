-- ===== src/Message/Header.antt =====
-- The header of a DataSetMessage: `UA_DataSetMessageHeader` of
-- openPubSub/ua_pubsub/ua_pubsub_networkmessage.h, with its encoder, decoder and size in
-- openPubSub/ua_pubsub/ua_pubsub_networkmessage.c.
pub mod Encode
pub mod Decode
pub mod Flags
pub mod Size
pub mod RoundTrip
pub mod Bounds
pub mod Correct
use open_pub_sub.Message.DataSetMessageType
use open_pub_sub.Base.{
  ℕ, ◌+◌, ◌*◌, ◌%◌, Bool, true, false, ◌||◌, not, ◌==◌, set_flag, if◌then◌else◌,
}

pub record DataSetMessageHeader : Type 0 where
  pub data_set_message_valid : Bool
  pub field_encoding : ℕ
  pub data_set_message_sequence_nr_enabled : Bool
  pub timestamp_enabled : Bool
  pub status_enabled : Bool
  pub config_version_major_version_enabled : Bool
  pub config_version_minor_version_enabled : Bool
  pub data_set_message_type : ℕ
  pub pico_seconds_included : Bool
  pub data_set_message_sequence_nr : ℕ
  pub timestamp : ℕ
  pub pico_seconds : ℕ
  pub status : ℕ
  pub config_version_major_version : ℕ
  pub config_version_minor_version : ℕ

unfoldable pub data_set_flags2_enabled : DataSetMessageHeader → Bool
data_set_flags2_enabled src =
    not (src.data_set_message_type == DataSetMessageType.data_key_frame)
    || (src.timestamp_enabled || src.pico_seconds_included)
