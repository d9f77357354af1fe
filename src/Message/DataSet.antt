-- ===== src/Message/DataSet.antt =====
-- DataSetMessages: `UA_DataSetMessage` of openPubSub/ua_pubsub/ua_pubsub_networkmessage.h, with its
-- encoder, decoder and size in openPubSub/ua_pubsub/ua_pubsub_networkmessage.c.
pub mod Encode
pub mod Decode
pub mod Size
pub mod Fits
pub mod Laws
pub mod RoundTrip
pub mod Consistent
pub mod Safe
pub mod Correct
use open_pub_sub.Base.{ℕ, List}
use open_pub_sub.Binary.DataValue.{DataValue}
use open_pub_sub.Message.Header.{DataSetMessageHeader}

pub record DeltaFrameField (V : Type 0) : Type 0 where
  pub field_index : ℕ
  pub field_value : DataValue V

-- The union of a key frame and a delta frame begins with `fieldCount` in both; the header's type
-- says which of the two arrays is there. An array is a list, which a missing one leaves empty.
pub record DataSetMessage (V : Type 0) : Type 0 where
  pub header : DataSetMessageHeader
  pub field_count : ℕ
  pub data_set_fields : List (DataValue V)
  pub delta_frame_fields : List (DeltaFrameField V)
