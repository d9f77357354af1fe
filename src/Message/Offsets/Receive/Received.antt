-- ===== src/Message/Offsets/Receive/Received.antt =====
-- The buffer's message with what a subscriber receives, section by section.
use open_pub_sub.Base.{ℕ, ◌≡◌, refl, Bool, true, false, if◌then◌else◌}
use open_pub_sub.Message.GroupHeader.{GroupHeader}
use open_pub_sub.Message.Network.{NetworkMessage, number}
use open_pub_sub.Message.Offsets.Receive.{
  first_id, store_publisher_id, store_writer_group_id, store_sequence_number, store_writer_id,
}

-- A group header `h` with the writer group id and the sequence number of another.
abbrev pub received_group_header : GroupHeader → GroupHeader → GroupHeader
received_group_header g h = record h {
  writer_group_id = if g.writer_group_id_enabled then g.writer_group_id else h.writer_group_id;
  sequence_number = if g.sequence_number_enabled then g.sequence_number else h.sequence_number;
}

module _ {V : Type 0} (nm : NetworkMessage V) where
  abbrev pub id_received : Bool → ℕ → NetworkMessage V
  id_received b n = record nm { publisher_id = if b then number n else nm.publisher_id }

  pub id_received_lem :
      (b : Bool) (n : ℕ) → (if b then store_publisher_id nm n else nm) ≡ id_received b n
  id_received_lem true n = refl
  id_received_lem false n = refl

  abbrev pub group_id_received : Bool → ℕ → NetworkMessage V
  group_id_received b n = record nm {
    group_header = record nm.group_header {
      writer_group_id = if b then n else nm.group_header.writer_group_id;
    };
  }

  pub group_id_received_lem :
      (b : Bool) (n : ℕ) → (if b then store_writer_group_id nm n else nm) ≡ group_id_received b n
  group_id_received_lem true n = refl
  group_id_received_lem false n = refl

  abbrev pub sequence_number_received : Bool → ℕ → NetworkMessage V
  sequence_number_received b n = record nm {
    group_header = record nm.group_header {
      sequence_number = if b then n else nm.group_header.sequence_number;
    };
  }

  pub sequence_number_received_lem :
      (b : Bool) (n : ℕ)
      → (if b then store_sequence_number nm n else nm) ≡ sequence_number_received b n
  sequence_number_received_lem true n = refl
  sequence_number_received_lem false n = refl

  abbrev pub group_received : Bool → GroupHeader → NetworkMessage V
  group_received b g = record nm {
    group_header = if b then received_group_header g nm.group_header else nm.group_header;
  }

  pub group_received_lem :
      (b : Bool) (g : GroupHeader)
      → (if b then record nm { group_header = received_group_header g nm.group_header } else nm)
        ≡ group_received b g
  group_received_lem true g = refl
  group_received_lem false g = refl

  abbrev pub writer_id_received : Bool → ℕ → NetworkMessage V
  writer_id_received b n = record nm {
    data_set_writer_ids = if b then first_id n nm.data_set_writer_ids else nm.data_set_writer_ids;
  }

  pub writer_id_received_lem :
      (b : Bool) (n : ℕ) → (if b then store_writer_id nm n else nm) ≡ writer_id_received b n
  writer_id_received_lem true n = refl
  writer_id_received_lem false n = refl
