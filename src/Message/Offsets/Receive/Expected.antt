-- ===== src/Message/Offsets/Receive/Expected.antt =====
-- What a subscriber receives of an encoded message, and the values in front of the DataSetMessage.
use open_pub_sub.Base.{
  transport, ℕ, ◌+◌, ◌<◌, ◌≤◌, ◌≡◌, refl, sym, Bool, true, false, List, [], ◌∷◌, ◌++◌, length,
  Option, none, some, All, if◌then◌else◌, arith,
}
use open_pub_sub.Binary.Writer.Writes.{part}
use open_pub_sub.Binary.Scalars.{encode16}
use open_pub_sub.Binary.Each.{concat}
use open_pub_sub.Binary.VariantCodec.{VariantCodec}
use open_pub_sub.Message.Offsets.Memory.{VariantMemory, Memory}
use open_pub_sub.Message.DataSet.{DataSetMessage}
use open_pub_sub.Message.Network.{NetworkMessage, number, id_number}
use open_pub_sub.Message.Network.Fits.{
  PayloadFits, single, counted, NetworkMessageFits, writer_ids, publisher_id_encoding,
}
use open_pub_sub.Message.Network.Canonical.{NetworkMessageInRange, InWord}
use open_pub_sub.Message.Network.Total.{id_part, group_part}
use open_pub_sub.Message.Offsets.{publisher_id, data_set_writer_id}
use open_pub_sub.Message.Offsets.Network.{record_group_header}
use open_pub_sub.Message.Offsets.Receive.Gathers.{Gathers, skip-Gathers, if-Gathers, Gathers-states}
use open_pub_sub.Message.Offsets.Receive.Fields.{with_fields, received_fields}
use open_pub_sub.Message.Offsets.Receive.Received.{
  id_received, id_received_lem, group_received, group_received_lem, writer_id_received,
  writer_id_received_lem,
}
use open_pub_sub.Message.Offsets.Receive.Sections.{
  publisher_id-Gathers, group-Gathers, writer_id-Gathers,
}
use open_pub_sub.Message.Offsets.Receive.Frame.{KeyFrame}

abbrev pub first_writer_id : Option (List ℕ) → ℕ
first_writer_id none = 0
first_writer_id (some []) = 0
first_writer_id (some (id ∷ ids)) = id

-- The message `w` has an encoding and its values are in range; its publisher id is a number; it has
-- neither a timestamp nor picoseconds, and one DataSetMessage, a key frame of variants without a
-- sequence number.
pub record RealTime (c : VariantCodec) (w : NetworkMessage c.Variant) : Type 0 where
  pub fits : NetworkMessageFits c w
  pub in_range : NetworkMessageInRange c w
  pub numbered : w.publisher_id_type < 4
  pub untimed : w.timestamp_enabled ≡ false
  pub coarse : w.picoseconds_enabled ≡ false
  pub frame : DataSetMessage c.Variant
  pub one_message : w.data_set_messages ≡ frame ∷ []
  pub key_frame : KeyFrame c frame

-- The buffer's message has the same type of publisher id, and a first message with as many fields.
pub record Template (c : VariantCodec) (w : NetworkMessage c.Variant) (r : RealTime c w)
    (nm : NetworkMessage c.Variant) : Type 0 where
  pub same_type : nm.publisher_id_type ≡ w.publisher_id_type
  pub first : DataSetMessage c.Variant
  pub others : List (DataSetMessage c.Variant)
  pub messages : nm.data_set_messages ≡ first ∷ others
  pub room : length r.frame.data_set_fields ≤ length first.data_set_fields

module _ (c : VariantCodec) (w nm : NetworkMessage c.Variant) (r : RealTime c w)
    (t : Template c w r nm) where
  abbrev pub identified : NetworkMessage c.Variant
  identified = id_received nm w.publisher_id_enabled (id_number w.publisher_id)

  abbrev pub grouped : NetworkMessage c.Variant
  grouped = group_received identified w.group_header_enabled w.group_header

  abbrev pub headed : NetworkMessage c.Variant
  headed =
      writer_id_received grouped w.payload_header_enabled (first_writer_id w.data_set_writer_ids)

  -- The buffer's message with the publisher id, the writer group id, the sequence number and the
  -- first writer id that `w` has, and with its values in the fields of the first message.
  abbrev pub received_message : NetworkMessage c.Variant
  received_message =
      with_fields c headed t.first t.others
        (received_fields c t.first.data_set_fields r.frame.data_set_fields)

module _ (c : VariantCodec) (vm : VariantMemory c) (w nm : NetworkMessage c.Variant)
    (r : RealTime c w) (t : Template c w r nm) (position : ℕ) where
  pub id-Gathers :
      Gathers c {S = Memory c vm} position
        (λ place.
          if w.publisher_id_enabled
          then record { content = publisher_id; offset = place } ∷ []
          else [])
        (id_part c w r.fits)
        nm
        0
        (identified c w nm r t)
        0
  id-Gathers =
      let typed =
        transport
          (λ i.
            Gathers c {S = Memory c vm} position
              (λ place. record { content = publisher_id; offset = place } ∷ [])
              (publisher_id_encoding (t.same_type i) w.publisher_id) nm 0
              (record nm { publisher_id = number (id_number w.publisher_id) }) 0)
          (publisher_id-Gathers c position nm w.publisher_id
            (omega (arith, t.same_type, r.numbered))
            (rw t.same_type r.in_range.publisher_id_range)) in
      Gathers-states c position refl refl
        (id_received_lem nm w.publisher_id_enabled (id_number w.publisher_id)) refl
        (if-Gathers c position w.publisher_id_enabled typed)

  pub groups-Gathers :
      Gathers c position
        (λ place.
          if w.group_header_enabled then record_group_header c vm true w.group_header place else [])
        (group_part c w r.fits)
        (identified c w nm r t)
        0
        (grouped c w nm r t)
        0
  groups-Gathers =
      Gathers-states c position refl refl
        (group_received_lem (identified c w nm r t) w.group_header_enabled w.group_header) refl
        (if-Gathers c position w.group_header_enabled (
          group-Gathers c vm position (identified c w nm r t) w.group_header
            r.in_range.group_header_fits))

  -- The payload header, for a given flag and given ids.
  abbrev pub HeaderGathers : Bool → Option (List ℕ) → Type 0
  HeaderGathers b ids =
      Gathers c {S = Memory c vm} position
        (λ place.
          if b then record { content = data_set_writer_id; offset = place + 1 } ∷ [] else [])
        (part b ((w.count ∷ []) ++ concat encode16 (writer_ids c ids))) (grouped c w nm r t) 0
        (writer_id_received (grouped c w nm r t) b (first_writer_id ids)) 0

  some-HeaderGathers :
      (b : Bool) (ids : List ℕ) → 0 < length ids → All InWord ids → HeaderGathers b (some ids)
  some-HeaderGathers b [] p range = absurd (omega (arith, p))
  some-HeaderGathers b (id ∷ ids) p range =
      Gathers-states c position refl refl (writer_id_received_lem (grouped c w nm r t) b id) refl (
        if-Gathers c position b
          (writer_id-Gathers c vm position (grouped c w nm r t) w.count id ids range.0))

  pub header-Gathers :
      PayloadFits c w
      → All InWord (writer_ids c w.data_set_writer_ids)
      → HeaderGathers w.payload_header_enabled w.data_set_writer_ids
  unfolding part
  header-Gathers (single off one) range =
      transport (λ i. HeaderGathers (sym off i) w.data_set_writer_ids)
        (skip-Gathers c position [] (grouped c w nm r t) 0)
  header-Gathers (counted on ids given n k p) range =
      transport (λ i. HeaderGathers w.payload_header_enabled (sym given i))
        (some-HeaderGathers w.payload_header_enabled ids (omega (arith, n, p)) (rw given at range))
