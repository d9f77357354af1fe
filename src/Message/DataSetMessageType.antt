-- ===== src/Message/DataSetMessageType.antt =====
-- `UA_DataSetMessageType` of openPubSub/ua_pubsub/ua_pubsub_networkmessage.h. The enumeration is a
-- number, since the decoder casts four bits of the input to it unchecked.
use open_pub_sub.Base.{ℕ}

abbrev pub data_key_frame : ℕ
data_key_frame = 0

abbrev pub data_delta_frame : ℕ
data_delta_frame = 1

abbrev pub event : ℕ
event = 2

abbrev pub keep_alive : ℕ
keep_alive = 3
