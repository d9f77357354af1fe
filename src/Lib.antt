-- ===== src/Lib.antt =====
-- openPubSub publishes and receives OPC UA PubSub messages. Its core is the encoding of those
-- messages in the UADP binary format: openPubSub/ua_pubsub/ua_pubsub_networkmessage.c builds and
-- reads messages out of optional parts that flags announce, and hands each value to the binary
-- encoding of OPC UA types in openPubSub/ua_pubsub/ua_types_encoding_binary.c, through the typed
-- functions of openPubSub/ua_pubsub/types_generated_encoding_binary.h.
--
-- Base: lists measured by native numbers, and masks on a byte as arithmetic.
--
-- Binary: openPubSub/ua_pubsub/ua_types_encoding_binary.c.
-- - Status: the status codes and their bitwise or. Different codes or-ed are one value `mixed`.
-- - Writer: `Ctx` while it encodes, as the bytes before the position and those from it to the end;
--   an encoder maps such a buffer to a status and a buffer. The three ways in which the code joins
--   calls are three operators: `>>` returns on the first status that is not good, `also` or-s the
--   statuses, `unchecked` overwrites the first one. Writer/Writes has the encoders that write
--   exactly given bytes or fail, Writer/Safe those that stay inside their buffer.
-- - Reader: `Ctx` while it decodes, as the bytes from the position to the end. Reader/Reads is
--   the counterpart of Writer/Writes, Reader/Consumes has the decoders whose result does not depend
--   on what follows the bytes they take, and Reader/Yields what holds of every value returned.
-- - Scalars, Text, Guid, NodeId, LocalizedText, DataValue: the types, NodeId with QualifiedName;
--   Generated: the typed entries. The definitions of a type are in its file, and what holds of them is
--   in its Laws and Correct.
-- - BuiltinType, Variant: the rows of the jump tables for the types above, and `Variant_encodeBinary`
--   and its partners on the empty Variant and on scalars of those types. Variants of other types and
--   arrays are a parameter, of which nothing is assumed.
-- - VariantCodec: what a message uses of a Variant, as an interface of operations and of laws about
--   values that fit and their encodings. Variant/Laws fills it with the Variants above. Nothing is
--   assumed of the decoder at other bytes, where it skips four bytes without a test in two places.
-- - Parts, Each: optional parts, and loops over arrays. Correct: round trips through a buffer.
--
-- Message: openPubSub/ua_pubsub/ua_pubsub_networkmessage.c and .h.
-- - Header: `UA_DataSetMessageHeader`: Encode, Decode, Size and Flags2Enabled of the source; Flags
--   has the two bytes of flags bit by bit.
-- - DataSet: `UA_DataSetMessage`: Encode, Decode and Size of the source. Fits says which messages
--   have an encoding.
-- - FourFlags, GroupHeader, SecurityHeader: two sections of a NetworkMessage, each with its encoder,
--   its decoder and its share of the size.
-- - Network: `UA_NetworkMessage`, with Encode, Decode and Size of the source. Fits says which
--   messages have an encoding, and LateParts which parts must not be longer than what follows them,
--   since their status is overwritten; Sections has what each section writes, SizeLaws and Total the
--   size; FlagBits, Promoted, Reading and RoundTrip have what is read back, and Consistent
--   what holds of every decoded message. Safe is about the encoder where no count is above the length
--   of its array. Cut is about a timestamp that finds no room,
--   Footer about a security footer too long for its loop.
-- - Offsets: the offset buffers of the real-time path. `UA_NetworkMessage_updateBufferedMessage` is in
--   Offsets itself; Record and Network have what the size functions record. A pointer that is recorded
--   is a function that reads a memory; Memory has the message and the blocks with the data of its
--   variants, of which the recorder copies type and address. Patches is the notion of an update in
--   place, DataSet and Update apply it to a DataSetMessage and to a NetworkMessage, Positions compares
--   the recorded positions with the encoding, and Correct, Stale and Refused are about whole updates. Receive has
--   `UA_NetworkMessage_updateBufferedNwMessage`, the subscriber's side, which keeps the message of the
--   buffer as its state: Receive/Gathers is the notion of offsets that put what stands at them into
--   that message, Fields, Sections and Frame apply it to the parts, Expected says what the message
--   becomes, Whole and Recorded join the parts, and Correct and Numbered are about whole updates.
--
-- Tests: concrete messages, at the codec of Variants and at a smaller one.
--
-- Integers are native numbers; a value of w bits is one below 2^w, the encoders write its digits
-- with the reduction that the C conversion makes, and the conditions of the round trips name the
-- ranges. An enumeration is a number, since the decoder casts bits of the input to it. An array is
-- a list; a count that stands beside it in C stands beside it here, and a list that is shorter than
-- its count is cut, where C would read outside of the array: the theorems about an encoder ask for
-- counts that are not above the lengths. A loop is a recursion on a list or on a number read from the
-- input, with two exceptions that run on fuel. The counter of the loop over a security footer is a
-- byte and its bound is not, so that for 256 bytes or more it wraps and the loop ends when the buffer
-- or the input does; the loop over the promoted fields ends where the bytes read reach the size that
-- was announced. The fuel is one round more than the buffer or the input has bytes, and a round that
-- succeeds takes at least a byte.
--
-- Not modelled: allocation, which is taken to succeed, and what a failed decoder leaves allocated;
-- the callback that exchanges a full buffer, which the PubSub encoder never passes, so that an
-- exchange always fails; a NULL buffer; a write behind the end of the fields or of the writer ids of
-- a subscriber's message, which changes nothing here; Variants that are arrays or of a type without
-- a translation, such as ExtensionObject; the C++ classes, which configure an open62541 server.
pub mod Base
pub mod Binary
pub mod Message
pub mod Tests
