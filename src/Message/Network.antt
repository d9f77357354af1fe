-- ===== src/Message/Network.antt =====
-- NetworkMessages: `UA_NetworkMessage` of openPubSub/ua_pubsub/ua_pubsub_networkmessage.h, with its
-- encoder and size in openPubSub/ua_pubsub/ua_pubsub_networkmessage.c.
pub mod Encode
pub mod Decode
pub mod FlagBits
pub mod Promoted
pub mod Canonical
pub mod Reading
pub mod RoundTrip
pub mod Consistent
pub mod Safe
pub mod Size
pub mod Fits
pub mod Sections
pub mod SizeLaws
pub mod Total
pub mod Cut
pub mod Footer
pub mod Correct
use open_pub_sub.Base.{ℕ, Bool, ◌||◌, not, ◌==◌, List, Option, length, if◌then◌else◌}
use open_pub_sub.Binary.Text.{Text, null, text_bytes}
use open_pub_sub.Binary.Guid.{Guid}
use open_pub_sub.Message.GroupHeader.{GroupHeader}
use open_pub_sub.Message.SecurityHeader.{SecurityHeader}
use open_pub_sub.Message.DataSet.{DataSetMessage}

-- The union of the publisher id: one of the numbers, whose member cuts it to its width, or a string.
-- Read as the other kind, a string gives its first word, which is its length, and a number gives no
-- string that C defines.
pub data PublisherId : Type 0 where
  number : ℕ → PublisherId
  string : Text → PublisherId

abbrev pub id_number : PublisherId → ℕ
id_number (number n) = n
id_number (string t) = length (text_bytes t)

abbrev pub id_string : PublisherId → Text
id_string (number n) = null
id_string (string t) = t

-- `messageId` is for JSON messages, and no function here reads it. `data_set_writer_ids` is
-- none where the pointer is NULL; `sizes` is empty where it is NULL.
pub record NetworkMessage (V : Type 0) : Type 0 where
  pub version : ℕ
  pub publisher_id_enabled : Bool
  pub group_header_enabled : Bool
  pub payload_header_enabled : Bool
  pub publisher_id_type : ℕ
  pub data_set_class_id_enabled : Bool
  pub security_enabled : Bool
  pub timestamp_enabled : Bool
  pub picoseconds_enabled : Bool
  pub chunk_message : Bool
  pub promoted_fields_enabled : Bool
  pub network_message_type : ℕ
  pub publisher_id : PublisherId
  pub data_set_class_id : Guid
  pub group_header : GroupHeader
  pub count : ℕ
  pub data_set_writer_ids : Option (List ℕ)
  pub timestamp : ℕ
  pub picoseconds : ℕ
  pub promoted_fields_size : ℕ
  pub promoted_fields : List V
  pub security_header : SecurityHeader
  pub sizes : List ℕ
  pub data_set_messages : List (DataSetMessage V)
  pub security_footer : List ℕ
  pub signature : Text

module _ {V : Type 0} where
  -- The type 0 is `UA_NETWORKMESSAGE_DATASET`.
  unfoldable pub extended_flags2_enabled : NetworkMessage V → Bool
  extended_flags2_enabled src =
      src.chunk_message || (src.promoted_fields_enabled || not (src.network_message_type == 0))

  -- The publisher id type 0 is `UA_PUBLISHERDATATYPE_BYTE`.
  unfoldable pub extended_flags1_enabled : NetworkMessage V → Bool
  extended_flags1_enabled src =
      not (src.publisher_id_type == 0)
      || (src.data_set_class_id_enabled
          || (src.security_enabled
              || (src.timestamp_enabled
                  || (src.picoseconds_enabled || extended_flags2_enabled src))))

  -- The number of DataSetMessages: one, unless the payload header counts them.
  abbrev pub message_count : NetworkMessage V → ℕ
  message_count src = if src.payload_header_enabled then src.count else 1
