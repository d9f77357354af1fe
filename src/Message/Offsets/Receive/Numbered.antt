-- ===== src/Message/Offsets/Receive/Numbered.antt =====
-- Offsets whose content `UA_NetworkMessage_updateBufferedNwMessage` does not support.
use open_pub_sub.Base.{
  ℕ, ◌+◌, ◌*◌, ◌≡◌, refl, Bool-cases, inl, inr, true, false, List, [], ◌∷◌, ◌++◌, take_counted,
  some, if◌then◌else◌, arith,
}
use open_pub_sub.Binary.Status.{Status, good, is_good}
use open_pub_sub.Binary.VariantCodec.{VariantCodec}
use open_pub_sub.Message.Offsets.Memory.{VariantMemory}
use open_pub_sub.Message.DataSet.{DataSetMessage}
use open_pub_sub.Message.Network.{NetworkMessage}
use open_pub_sub.Message.Network.Size.{
  calc_size_front, calc_size_payload_header, calc_size_writer_ids,
}
use open_pub_sub.Message.Network.Sections.{counted_messages}
use open_pub_sub.Message.Network.Fits.{NetworkMessageFits, PayloadFits, single, counted}
use open_pub_sub.Message.Offsets.{
  Content, data_set_message_sequence_number, network_message_sequence_number, timestamp_picoseconds,
  timestamp, timestamp_now, payload_data_value, payload_variant, payload_raw, publisher_id,
  writer_group_id, data_set_writer_id, NetworkMessageOffset,
}
use open_pub_sub.Message.Offsets.Record.{record_sequence_nr, record_data_set_message}
use open_pub_sub.Message.Offsets.Network.{
  size_to_messages, record_front, record_messages, record_rest, record_behind, record_writer_ids,
  record_network_message,
}
use open_pub_sub.Message.Offsets.Receive.{
  Round, proceed, stop, receive_publisher_id, receive_one, after_round, receive_offsets,
  update_buffered_nw_message,
}

-- A round that returns does so with an error.
StopsBad : {V : Type 0} → Round V → Type 0
StopsBad (proceed s offset nm counter) = Unit
StopsBad (stop s nm) = is_good s ≡ false

checked-StopsBad :
    {V : Type 0} (s : Status) (offset n : ℕ) (nm failed : NetworkMessage V)
    → StopsBad (if is_good s then proceed s offset nm n else stop s failed)
unfolding StopsBad
checked-StopsBad s offset n nm failed = elim (Bool-cases (is_good s)) [
  | inl p ↦ rw p tt
  | inr p ↦ rw p p
]

publisher_id-StopsBad :
    {V : Type 0} (src : List ℕ) (offset type : ℕ) (nm : NetworkMessage V) (n : ℕ)
    → StopsBad (receive_publisher_id src offset type nm n)
unfolding StopsBad receive_publisher_id
publisher_id-StopsBad src offset type nm n = ground arith

abbrev Failed : {V : Type 0} → ℕ → Status × NetworkMessage V × ℕ → Type 0
Failed position (s, nm, end) = (is_good s ≡ false) × (end ≡ position)

round-Failed :
    {V : Type 0} (position : ℕ) (x : Round V)
    (more : Status → ℕ → NetworkMessage V → ℕ → Status × NetworkMessage V × ℕ)
    → StopsBad x
    → ((s : Status) (offset : ℕ) (nm : NetworkMessage V) (n : ℕ)
        → Failed position (more s offset nm n))
    → Failed position (after_round position x more)
unfolding StopsBad
round-Failed position (proceed s offset nm n) more bad h = h s offset nm n
round-Failed position (stop s nm) more bad h = (bad, refl)

module _ (c : VariantCodec) {S : Type 0} (src : List ℕ) (position : ℕ) where
  one-StopsBad :
      (content : Content S c.Variant) (offset : ℕ) (nm : NetworkMessage c.Variant) (n : ℕ)
      → StopsBad (receive_one c src position content offset nm n)
  unfolding StopsBad receive_one
  one-StopsBad (data_set_message_sequence_number read) offset nm n = refl
  one-StopsBad (network_message_sequence_number read) offset nm n = checked-StopsBad _ _ _ _ _
  one-StopsBad timestamp_picoseconds offset nm n = refl
  one-StopsBad timestamp offset nm n = refl
  one-StopsBad timestamp_now offset nm n = refl
  one-StopsBad (payload_data_value read) offset nm n = checked-StopsBad _ _ _ _ _
  one-StopsBad (payload_variant read) offset nm n = checked-StopsBad _ _ _ _ _
  one-StopsBad payload_raw offset nm n = refl
  one-StopsBad publisher_id offset nm n = publisher_id-StopsBad src offset _ nm n
  one-StopsBad writer_group_id offset nm n = checked-StopsBad _ _ _ _ _
  one-StopsBad data_set_writer_id offset nm n = checked-StopsBad _ _ _ _ _

  -- The loop fails whatever it starts with.
  Blocked : List (NetworkMessageOffset S c.Variant) → Type 0
  Blocked offsets =
      (rv : Status) (offset : ℕ) (nm : NetworkMessage c.Variant) (n : ℕ)
      → Failed position (receive_offsets c src position offsets rv offset nm n)

  append-Blocked :
      (xs ys : List (NetworkMessageOffset S c.Variant)) → Blocked ys → Blocked (xs ++ ys)
  unfolding Blocked receive_offsets
  append-Blocked [] ys h = h
  append-Blocked (x ∷ xs) ys h = λ rv offset nm n.
      round-Failed position (receive_one c src position x.content (x.offset + position) nm n) _
        (one-StopsBad x.content (x.offset + position) nm n) (append-Blocked xs ys h)

  numbered-Blocked :
      (read : S → ℕ) (at : ℕ) (ys : List (NetworkMessageOffset S c.Variant))
      → Blocked (record { content = data_set_message_sequence_number read; offset = at } ∷ ys)
  unfolding Blocked receive_offsets receive_one
  numbered-Blocked read at ys = λ rv offset nm n. (refl, refl)

module _ (c : VariantCodec) (vm : VariantMemory c) (m : NetworkMessage c.Variant)
    (d : DataSetMessage c.Variant) (ds : List (DataSetMessage c.Variant))
    (f : NetworkMessageFits c m) (first : m.data_set_messages ≡ d ∷ ds)
    (on : d.header.data_set_message_sequence_nr_enabled ≡ true) (src : List ℕ) (position : ℕ) where
  messages-Blocked :
      (size : ℕ) → Blocked c src position (record_messages c vm true 0 m.data_set_messages size)
  unfolding record_messages record_data_set_message record_sequence_nr
  messages-Blocked size = rw (first, on) (numbered-Blocked c src position _ _ _)

  rest-Blocked : (size : ℕ) → Blocked c src position (record_rest c vm true m size)
  unfolding record_rest
  rest-Blocked size =
      simp (f.is_data_set, take_counted (counted_messages c m f.payload_fits))
        (append-Blocked c src position _ _ (
          append-Blocked c src position _ _ (messages-Blocked (size_to_messages c vm true m size))))

  behind-Blocked : PayloadFits c m → Blocked c src position (record_network_message c vm true m)
  unfolding record_network_message record_behind record_writer_ids calc_size_payload_header
      calc_size_writer_ids
  behind-Blocked (single off one) = simp off (
      append-Blocked c src position (record_front c vm true m) _
        (rest-Blocked (calc_size_front c m)))
  behind-Blocked (counted on ids given n k p) =
      simp (on, f.is_data_set, given)
        (append-Blocked c src position (record_front c vm true m) _ (
          append-Blocked c src position
            (record_writer_ids c vm true 0 (some ids) (calc_size_front c m)) _
            (rest-Blocked (calc_size_front c m + 1 + 2 * m.count))))

-- Over any codec of variants, for a NetworkMessage that has an encoding and whose first
-- DataSetMessage has a sequence number, the offsets that its size computation records for a
-- subscriber make the update of any buffered message, from any bytes and at any position, end with a
-- status that is not good and leave the position.
pub update_buffered_nw_message-numbered :
    (c : VariantCodec) (vm : VariantMemory c) (m nm : NetworkMessage c.Variant)
    (d : DataSetMessage c.Variant) (ds : List (DataSetMessage c.Variant)) (src : List ℕ)
    (position : ℕ)
    → NetworkMessageFits c m
    → m.data_set_messages ≡ d ∷ ds
    → d.header.data_set_message_sequence_nr_enabled ≡ true
    → let x = update_buffered_nw_message c src position (record_network_message c vm true m) nm in
      (is_good x.0 ≡ false) × (x.2 ≡ position)
unfolding update_buffered_nw_message Blocked
update_buffered_nw_message-numbered c vm m nm d ds src position f first on =
    behind-Blocked c vm m d ds f first on src position f.payload_fits good 0 nm 0
