-- ===== src/Message/Offsets/Network.antt =====
-- The offsets that `UA_NetworkMessage_calcSizeBinary` records. Allocation succeeds.
use open_pub_sub.Base.{
  ℕ, suc, ◌+◌, ◌*◌, ◌&&◌, ◌==◌, ltb, Bool, false, List, [], ◌∷◌, ◌++◌, Option, none, some, get_or,
  take, if◌then◌else◌,
}
use open_pub_sub.Binary.Scalars.{
  calc_size_binary1, calc_size_binary2, calc_size_binary4, calc_size_binary8,
}
use open_pub_sub.Binary.Guid.{calc_size_guid}
use open_pub_sub.Binary.Parts.{add_if}
use open_pub_sub.Binary.Each.{sum}
use open_pub_sub.Binary.VariantCodec.{VariantCodec}
use open_pub_sub.Message.Offsets.Memory.{VariantMemory, Memory, Place}
use open_pub_sub.Message.GroupHeader.{GroupHeader}
use open_pub_sub.Message.SecurityHeader.{calc_size_security_header}
use open_pub_sub.Message.DataSet.{DataSetMessage}
use open_pub_sub.Message.Network.{NetworkMessage, message_count}
use open_pub_sub.Message.Network.Size.{
  calc_size_publisher_id, calc_size_flags, calc_size_payload_header, calc_size_message,
  calc_size_front,
}
use open_pub_sub.Message.Offsets.{
  Content, network_message_sequence_number, timestamp, timestamp_picoseconds, publisher_id,
  writer_group_id, data_set_writer_id, NetworkMessageOffset,
}
use open_pub_sub.Message.Offsets.Record.{record_data_set_message}

-- The message that a pointer behind the end of the array would read. No recorded pointer is one.
abbrev pub zero_message : {V : Type 0} → DataSetMessage V
zero_message = record {
  header = record {
    data_set_message_valid = false;
    field_encoding = 0;
    data_set_message_sequence_nr_enabled = false;
    timestamp_enabled = false;
    status_enabled = false;
    config_version_major_version_enabled = false;
    config_version_minor_version_enabled = false;
    data_set_message_type = 0;
    pico_seconds_included = false;
    data_set_message_sequence_nr = 0;
    timestamp = 0;
    pico_seconds = 0;
    status = 0;
    config_version_major_version = 0;
    config_version_minor_version = 0;
  };
  field_count = 0;
  data_set_fields = [];
  delta_frame_fields = [];
}

-- The DataSetMessage `i` of the NetworkMessage in a memory.
abbrev pub place_of : (c : VariantCodec) (vm : VariantMemory c) → ℕ → Place c vm (Memory c vm)
place_of c vm i = record {
  message = λ s. get_or s.message.data_set_messages i zero_message;
  heap = λ s. s.heap;
  address = vm.address i;
}

-- `rt` is `offsetBuffer->RTsubscriberEnabled`.
module _ (c : VariantCodec) (vm : VariantMemory c) (rt : Bool) where
  abbrev pub Offsets : Type 0
  Offsets = List (NetworkMessageOffset (Memory c vm) c.Variant)

  abbrev pub record_if : Bool → Content (Memory c vm) c.Variant → ℕ → Offsets
  record_if b content size = if b then record { content = content; offset = size } ∷ [] else []

  unfoldable pub record_group_header : GroupHeader → ℕ → Offsets
  record_group_header g size =
      let flagged = size + calc_size_binary1 in
      let grouped = add_if g.writer_group_id_enabled calc_size_binary2 flagged in
      let versioned = add_if g.group_version_enabled calc_size_binary4 grouped in
      let numbered = add_if g.network_message_number_enabled calc_size_binary2 versioned in
      record_if (rt && g.writer_group_id_enabled) writer_group_id flagged
      ++ record_if g.sequence_number_enabled
          (network_message_sequence_number (λ s. s.message.group_header.sequence_number)) numbered

  unfoldable pub record_front : NetworkMessage c.Variant → Offsets
  record_front p =
      let flags = calc_size_flags p in
      let identified =
        add_if p.publisher_id_enabled (calc_size_publisher_id p.publisher_id_type p.publisher_id)
          flags in
      let classed =
        add_if p.data_set_class_id_enabled (calc_size_guid p.data_set_class_id) identified in
      record_if (rt && p.publisher_id_enabled) publisher_id flags
      ++ (if p.group_header_enabled then record_group_header p.group_header classed else [])

  unfoldable pub record_messages : ℕ → List (DataSetMessage c.Variant) → ℕ → Offsets
  record_messages i [] size = []
  record_messages i (m ∷ ms) size =
      record_data_set_message c vm (place_of c vm i) m size
      ++ record_messages (suc i) ms (size + calc_size_message c m)

  -- The size in front of the security header, of the payload and of the messages.
  abbrev pub size_to_security : NetworkMessage c.Variant → ℕ → ℕ
  size_to_security p size =
      let timed = add_if p.timestamp_enabled calc_size_binary8 size in
      let fine = add_if p.picoseconds_enabled calc_size_binary2 timed in
      let fields = take p.promoted_fields_size p.promoted_fields in
      add_if p.promoted_fields_enabled (calc_size_binary2 + sum c.calc_size fields) fine

  abbrev pub size_to_payload : NetworkMessage c.Variant → ℕ → ℕ
  size_to_payload p size =
      if p.security_enabled
      then calc_size_security_header p.security_header (size_to_security p size)
      else size_to_security p size

  abbrev pub size_to_messages : NetworkMessage c.Variant → ℕ → ℕ
  size_to_messages p size =
      add_if (p.payload_header_enabled && ltb 1 p.count) (calc_size_binary2 * p.count)
        (size_to_payload p size)

  -- What is recorded behind the payload header.
  unfoldable pub record_rest : NetworkMessage c.Variant → ℕ → Offsets
  record_rest p size =
      record_if p.timestamp_enabled timestamp size
      ++ (record_if p.picoseconds_enabled timestamp_picoseconds
            (add_if p.timestamp_enabled calc_size_binary8 size)
          ++ (if p.network_message_type == 0
              then record_messages 0 (take (message_count p) p.data_set_messages)
                  (size_to_messages p size)
              else []))

  -- A missing array of writer ids ends the computation.
  unfoldable pub record_behind : NetworkMessage c.Variant → Option ℕ → Offsets
  record_behind p none = []
  record_behind p (some size) = record_rest p size

  unfoldable pub record_writer_ids : ℕ → Option (List ℕ) → ℕ → Offsets
  record_writer_ids type none size = []
  record_writer_ids type (some ids) size =
      record_if (rt && (type == 0)) data_set_writer_id (size + calc_size_binary1)

  unfoldable pub record_network_message : NetworkMessage c.Variant → Offsets
  record_network_message p =
      record_front p
      ++ (if p.payload_header_enabled
          then record_writer_ids p.network_message_type p.data_set_writer_ids (calc_size_front c p)
            ++ record_behind p (calc_size_payload_header p (calc_size_front c p))
          else record_rest p (calc_size_front c p))
