-- ===== src/Message/Network/Reading/Payload.antt =====
-- What `UA_NetworkMessage_decodeBinaryInternal` reads of the payload header and of the payload.
use open_pub_sub.Base.{
  ℕ, ◌^◌, ◌<◌, ◌≡◌, refl, Bool, true, false, ◌&&◌, ltb, List, [], ◌∷◌, ◌++◌, map, length, All, none,
  if◌then◌else◌, arith,
}
use mathlib.Core.Bool.{false≢true}
use open_pub_sub.Binary.Reader.{pure, read_if, ◌>>=◌}
use open_pub_sub.Binary.Reader.Reads.{Reads, >>=-Reads, map-Reads, pure-Reads}
use open_pub_sub.Binary.Writer.Writes.{part}
use open_pub_sub.Binary.Scalars.{encode16}
use open_pub_sub.Binary.Generated.Laws.{uint16_decode_binary-Reads}
use open_pub_sub.Binary.Generated.{uint16_decode_binary}
use open_pub_sub.Binary.Each.{decode_each, concat, each-Reads}
use open_pub_sub.Binary.VariantCodec.{VariantCodec}
use open_pub_sub.Message.DataSet.{DataSetMessage}
use open_pub_sub.Message.DataSet.Decode.{decode_data_set_message}
use open_pub_sub.Message.DataSet.Fits.{DataSetMessageFits, data_set_message_encoding}
use open_pub_sub.Message.DataSet.RoundTrip.{canonical_message, data_set_message-Reads}
use open_pub_sub.Message.Network.{NetworkMessage}
use open_pub_sub.Message.Network.Encode.{announced_size}
use open_pub_sub.Message.Network.Fits.{
  PayloadFits, single, counted, NetworkMessageFits, sizes_encoding, payload_encoding, writer_ids,
}
use open_pub_sub.Message.Network.Decode.{decode_payload_header, decode_payload}
use open_pub_sub.Message.Network.Canonical.{
  InWord, announced, NetworkMessageInRange, canonical_counted, flags_of,
}
use open_pub_sub.Message.Network.Reading.{ids-Reads}

module _ (c : VariantCodec) where
  pub payload_header-Reads :
      (m : NetworkMessage c.Variant)
      → m.network_message_type ≡ 0
      → PayloadFits c m
      → All InWord (writer_ids c m.data_set_writer_ids)
      → Reads
          (read_if m.payload_header_enabled
            (decode_payload_header m.network_message_type)
            (0, none))
          (part m.payload_header_enabled
            ((m.count ∷ []) ++ concat encode16 (writer_ids c m.data_set_writer_ids)))
          (canonical_counted c m)
  unfolding read_if part decode_payload_header
  payload_header-Reads m t (single off one) h = rw off (pure-Reads _)
  payload_header-Reads m t (counted on ids given n k p) h =
      rw (on, given) (ids-Reads m.network_message_type m.count ids t n (rw given at h))

  announced_range :
      (given : ℕ) (m : DataSetMessage c.Variant)
      → given < 2 ^ 16
      → announced_size c given m < 2 ^ 16
  unfolding announced_size
  announced_range given m h = ground arith

  announced-Reads :
      (sizes : List ℕ) (ms : List (DataSetMessage c.Variant))
      → All InWord sizes
      → Reads
          (decode_each uint16_decode_binary (length ms))
          (sizes_encoding c sizes ms)
          (announced c sizes ms)
  unfolding decode_each sizes_encoding announced
  announced-Reads sizes [] h = pure-Reads []
  announced-Reads [] (m ∷ ms) h =
      >>=-Reads _ (uint16_decode_binary-Reads _ (announced_range 0 m (omega arith)))
        (map-Reads (λ ss. announced_size c 0 m ∷ ss) (announced-Reads [] ms tt))
  announced-Reads (s ∷ ss) (m ∷ ms) h =
      >>=-Reads _ (uint16_decode_binary-Reads _ (announced_range s m h.0))
        (map-Reads (λ ts. announced_size c s m ∷ ts) (announced-Reads ss ms h.1))

  messages-Reads :
      (ms : List (DataSetMessage c.Variant))
      → All (DataSetMessageFits c) ms
      → Reads
          (decode_each (decode_data_set_message c) (length ms))
          (concat (data_set_message_encoding c) ms)
          (map (canonical_message c) ms)
  messages-Reads ms fs =
      each-Reads (decode_data_set_message c) (data_set_message_encoding c) (canonical_message c) ms
        (data_set_message-Reads c) fs

  optional_sizes-Reads :
      (b : Bool) (count : ℕ) (sizes : List ℕ) (ms : List (DataSetMessage c.Variant))
      → (b ≡ true → count ≡ length ms)
      → All InWord sizes
      → Reads
          (read_if b (decode_each uint16_decode_binary count) [])
          (part b (sizes_encoding c sizes ms))
          (if b then announced c sizes ms else [])
  unfolding read_if part
  optional_sizes-Reads true count sizes ms h ss = rw (h refl) (announced-Reads sizes ms ss)
  optional_sizes-Reads false count sizes ms h ss = pure-Reads []

  -- The sizes, which stand there for more than one message, and the messages.
  parts-Reads :
      (on : Bool) (count : ℕ) (sizes : List ℕ) (ms : List (DataSetMessage c.Variant)) (n : ℕ)
      → ((on && ltb 1 count) ≡ true → count ≡ length ms)
      → n ≡ length ms
      → All InWord sizes
      → All (DataSetMessageFits c) ms
      → Reads {A = List ℕ × List (DataSetMessage c.Variant)}
          (read_if (on && ltb 1 count) (decode_each uint16_decode_binary count) [] >>= λ sizes.
            decode_each (decode_data_set_message c) n >>= λ messages. pure (sizes, messages))
          (part (on && ltb 1 count) (sizes_encoding c sizes ms)
            ++ concat (data_set_message_encoding c) ms)
          ((if on && ltb 1 count then announced c sizes ms else []), map (canonical_message c) ms)
  parts-Reads on count sizes ms n k e ss fs =
      >>=-Reads _ (optional_sizes-Reads (on && ltb 1 count) count sizes ms k ss)
        (map-Reads _ (rw e (messages-Reads ms fs)))

  payload_read :
      (m : NetworkMessage c.Variant)
      → m.network_message_type ≡ 0
      → PayloadFits c m
      → All InWord m.sizes
      → All (DataSetMessageFits c) m.data_set_messages
      → Reads (decode_payload c (flags_of c m) (canonical_counted c m).0) (payload_encoding c m) (
        (if m.payload_header_enabled && ltb 1 m.count
            then announced c m.sizes m.data_set_messages
            else []),
        map (canonical_message c) m.data_set_messages,
      )
  unfolding decode_payload
  payload_read m t (single off one) ss fs =
      rw (t, off)
        (parts-Reads false 0 m.sizes m.data_set_messages 1 (λ h. absurd (false≢true h)) one ss fs)
  payload_read m t (counted on ids given n k p) ss fs =
      rw (t, on) (parts-Reads true m.count m.sizes m.data_set_messages m.count (λ h. k) k ss fs)

  pub payload-Reads :
      (m : NetworkMessage c.Variant)
      → NetworkMessageFits c m
      → NetworkMessageInRange c m
      → Reads (decode_payload c (flags_of c m) (canonical_counted c m).0) (payload_encoding c m) (
        (if m.payload_header_enabled && ltb 1 m.count
            then announced c m.sizes m.data_set_messages
            else []),
        map (canonical_message c) m.data_set_messages,
      )
  unfolding decode_payload read_if part
  payload-Reads m f r = payload_read m f.is_data_set f.payload_fits r.sizes_range f.messages_fit
