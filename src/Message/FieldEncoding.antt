-- ===== src/Message/FieldEncoding.antt =====
-- `UA_FieldEncoding` of openPubSub/ua_pubsub/ua_pubsub_networkmessage.h. The enumeration is a number,
-- since the decoder casts two bits of the input to it unchecked.
use open_pub_sub.Base.{ℕ}

abbrev pub variant : ℕ
variant = 0

abbrev pub raw_data : ℕ
raw_data = 1

abbrev pub data_value : ℕ
data_value = 2
