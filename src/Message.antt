-- ===== src/Message.antt =====
-- The UADP messages of openPubSub/ua_pubsub/ua_pubsub_networkmessage.c.
pub mod FieldEncoding
pub mod DataSetMessageType
pub mod Header
pub mod FourFlags
pub mod GroupHeader
pub mod SecurityHeader
pub mod DataSet
pub mod Network
pub mod Offsets
