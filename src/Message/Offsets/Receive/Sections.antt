-- ===== src/Message/Offsets/Receive/Sections.antt =====
-- The values in front of the messages, read into the buffer's message.
use open_pub_sub.Base.{
  ap, ℕ, zero, suc, ◌+◌, ◌<◌, ◌^◌, ◌%◌, ◌≡◌, refl, true, List, [], ◌∷◌, ◌++◌, length, arith,
}
use open_pub_sub.Binary.Status.{good}
use open_pub_sub.Binary.Reader.{Reader}
use open_pub_sub.Binary.Reader.Reads.{Reads}
use open_pub_sub.Binary.Writer.Writes.{part}
use open_pub_sub.Binary.Scalars.{encode16, encode32}
use open_pub_sub.Binary.Generated.{
  byte_decode_binary, uint16_decode_binary, uint32_decode_binary, uint64_decode_binary,
}
use open_pub_sub.Binary.Generated.Laws.{
  byte_decode_binary-Reads, uint16_decode_binary-Reads, uint32_decode_binary-Reads,
  uint64_decode_binary-Reads,
}
use open_pub_sub.Binary.Each.{concat}
use open_pub_sub.Binary.VariantCodec.{VariantCodec}
use open_pub_sub.Message.Offsets.Memory.{VariantMemory, Memory}
use open_pub_sub.Message.GroupHeader.{GroupHeader, group_flags}
use open_pub_sub.Message.GroupHeader.Laws.{group_header_encoding, GroupHeaderFits}
use open_pub_sub.Message.Network.{NetworkMessage, PublisherId, id_number}
use open_pub_sub.Message.Network.Fits.{publisher_id_encoding}
use open_pub_sub.Message.Network.Canonical.{id_limit}
use open_pub_sub.Message.Offsets.{
  Content, publisher_id, writer_group_id, data_set_writer_id, network_message_sequence_number,
}
use open_pub_sub.Message.Offsets.Network.{record_if, record_group_header}
use open_pub_sub.Message.Offsets.Update.{group_position}
use open_pub_sub.Message.Offsets.Receive.{
  decode_at, stored, checked, proceed, receive_one, receive_publisher_id, store_publisher_id,
  store_writer_group_id, store_sequence_number, store_writer_id,
}
use open_pub_sub.Message.Offsets.Receive.Received.{
  received_group_header, group_id_received, group_id_received_lem, sequence_number_received_lem,
}
use open_pub_sub.Message.Offsets.Receive.Gathers.{
  decode_at-there, Gathers, skip-Gathers, slot-Gathers, ++-Gathers, Gathers-eq, if-Gathers,
  Gathers-states,
}

module _ {V : Type 0} (nm : NetworkMessage V) (n offset : ℕ) (pre post : List ℕ) where
  number_stored :
      (d : Reader ℕ) {bs : List ℕ} {v : ℕ}
      → Reads d bs v
      → length pre ≡ offset
      → stored (store_publisher_id nm) n (decode_at d 0 offset (pre ++ (bs ++ post)))
        ≡ proceed good (offset + length bs) (store_publisher_id nm v) n
  number_stored d {bs} {v} r e = rw (decode_at-there 0 offset pre post r e) refl

  publisher_id_received :
      (type : ℕ) (id : PublisherId)
      → type < 4
      → id_number id < id_limit type
      → length pre ≡ offset
      → receive_publisher_id (pre ++ (publisher_id_encoding type id ++ post)) offset type nm n
        ≡ proceed good
            (offset + length (publisher_id_encoding type id))
            (store_publisher_id nm (id_number id))
            n
  unfolding receive_publisher_id
  publisher_id_received zero id named range e =
      let byte : id_number id % 256 ≡ id_number id = omega (arith, range) in
      rw byte (number_stored byte_decode_binary (byte_decode_binary-Reads (id_number id)) e)
  publisher_id_received (suc zero) id named range e =
      (number_stored uint16_decode_binary (uint16_decode_binary-Reads _ range) e)
  publisher_id_received (suc (suc zero)) id named range e =
      (number_stored uint32_decode_binary (uint32_decode_binary-Reads _ range) e)
  publisher_id_received (suc (suc (suc zero))) id named range e =
      (number_stored uint64_decode_binary (uint64_decode_binary-Reads _ range) e)
  publisher_id_received (suc (suc (suc (suc type)))) id named range e =
      absurd (omega (arith, named))

module _ (c : VariantCodec) {S : Type 0} (position : ℕ) (nm : NetworkMessage c.Variant) where
  pub publisher_id-Gathers :
      (id : PublisherId)
      → nm.publisher_id_type < 4
      → id_number id < id_limit nm.publisher_id_type
      → Gathers c {S = S} position
          (λ place. record { content = publisher_id; offset = place } ∷ [])
          (publisher_id_encoding nm.publisher_id_type id)
          nm
          0
          (store_publisher_id nm (id_number id))
          0
  unfolding receive_one
  publisher_id-Gathers id named range =
      slot-Gathers c position publisher_id (publisher_id_encoding nm.publisher_id_type id)
        (λ offset pre post e.
          publisher_id_received nm 0 offset pre post nm.publisher_id_type id named range e)

  -- A content that is a word, and how it is stored.
  pub word-Gathers :
      (content : Content S c.Variant) (store : ℕ → NetworkMessage c.Variant) (v : ℕ)
      → v < 2 ^ 16
      → ((src : List ℕ) (offset : ℕ)
          → receive_one c src position content offset nm 0
            ≡ checked store (λ m. m) 0 (decode_at uint16_decode_binary 0 offset src))
      → Gathers c position
          (λ place. record { content = content; offset = place } ∷ [])
          (encode16 v)
          nm
          0
          (store v)
          0
  word-Gathers content store v range h =
      slot-Gathers c position content (encode16 v) (λ offset pre post e.
        rw
          (
            h (pre ++ (encode16 v ++ post)) offset,
            decode_at-there 0 offset pre post (uint16_decode_binary-Reads v range) e,
          )
          refl)

module _ (c : VariantCodec) (vm : VariantMemory c) (position : ℕ)
    (nm : NetworkMessage c.Variant) where
  pub group-Gathers :
      (g : GroupHeader)
      → GroupHeaderFits g
      → Gathers c position
          (record_group_header c vm true g)
          (group_header_encoding g)
          nm
          0
          (record nm { group_header = received_group_header g nm.group_header })
          0
  unfolding record_group_header group_header_encoding receive_one
  group-Gathers g f =
      let grouped = group_id_received nm g.writer_group_id_enabled g.writer_group_id in
      Gathers-eq c position
        (λ place.
          ap
            (λ o.
              record_if c vm true g.writer_group_id_enabled writer_group_id (place + 1)
              ++ record_if c vm true g.sequence_number_enabled
                  (network_message_sequence_number (λ s. s.message.group_header.sequence_number)) o)
            (group_position g place))
        (++-Gathers c position (skip-Gathers c position (group_flags g ∷ []) nm 0) (
          ++-Gathers c position
            (Gathers-states c position refl refl
              (group_id_received_lem nm g.writer_group_id_enabled g.writer_group_id) refl
              (if-Gathers c position g.writer_group_id_enabled (
                word-Gathers c position nm writer_group_id (store_writer_group_id nm)
                  g.writer_group_id f.writer_group_id_range (λ src offset. refl))))
            (++-Gathers c position
              (skip-Gathers c position (part g.group_version_enabled (encode32 g.group_version))
                grouped 0)
              (++-Gathers c position
                (skip-Gathers c position
                  (part g.network_message_number_enabled (encode16 g.network_message_number))
                  grouped 0)
                (Gathers-states c position refl refl
                  (sequence_number_received_lem grouped g.sequence_number_enabled g.sequence_number)
                  refl
                  (if-Gathers c position g.sequence_number_enabled (
                    word-Gathers c position grouped
                      (network_message_sequence_number
                        (λ s. s.message.group_header.sequence_number))
                      (store_sequence_number grouped) g.sequence_number f.sequence_number_range
                      (λ src offset. refl))))))))

  -- The first of the writer ids behind their count.
  pub writer_id-Gathers :
      (count id : ℕ) (ids : List ℕ)
      → id < 2 ^ 16
      → Gathers c {S = Memory c vm} position
          (λ place. record { content = data_set_writer_id; offset = place + 1 } ∷ [])
          ((count ∷ []) ++ concat encode16 (id ∷ ids))
          nm
          0
          (store_writer_id nm id)
          0
  unfolding receive_one
  writer_id-Gathers count id ids range =
      ++-Gathers c position (skip-Gathers c position (count ∷ []) nm 0) (
        ++-Gathers c position
          (word-Gathers c position nm data_set_writer_id (store_writer_id nm) id range
            (λ src offset. refl))
          (skip-Gathers c position (concat encode16 ids) (store_writer_id nm id) 0))
