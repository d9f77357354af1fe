-- ===== src/Message/GroupHeader/Laws.antt =====
-- The group header: what is written, what is read back, and the bounds.
use open_pub_sub.Base.{
  ℕ, ◌+◌, ◌<◌, ◌^◌, ◌≡◌, Bool, List, [], ◌∷◌, ◌++◌, length, has_flag, if◌then◌else◌, arith,
}
use open_pub_sub.Binary.Writer.Writes.{Writes, >>-Writes, when-Writes, part}
use open_pub_sub.Binary.Writer.Safe.{Safe, >>-Safe, when-Safe}
use open_pub_sub.Binary.Reader.Reads.{Reads, >>=-Reads, map-Reads, Reads-eq, read_if-Reads}
use open_pub_sub.Binary.Reader.Consumes.{Consumes, >>=-Consumes, pure-Consumes, read_if-Consumes}
use open_pub_sub.Binary.Scalars.{encode16, encode32}
use open_pub_sub.Binary.Generated.Laws.{
  byte_encode_binary-Writes, uint16_encode_binary-Writes, uint32_encode_binary-Writes,
  byte_encode_binary-Safe, uint16_encode_binary-Safe, uint32_encode_binary-Safe,
  byte_decode_binary-Reads, uint16_decode_binary-Reads, uint32_decode_binary-Reads,
  byte_decode_binary-Consumes, uint16_decode_binary-Consumes, uint32_decode_binary-Consumes,
}
use open_pub_sub.Binary.Parts.{sums}
use open_pub_sub.Message.FourFlags.{four_flags_bits}
use open_pub_sub.Message.GroupHeader.{
  GroupHeader, group_flags, encode_group_header, decode_group_values, decode_group_header,
  calc_size_group_header,
}

pub record GroupHeaderFits (g : GroupHeader) : Type 0 where
  pub writer_group_id_range : g.writer_group_id < 2 ^ 16
  pub group_version_range : g.group_version < 2 ^ 32
  pub network_message_number_range : g.network_message_number < 2 ^ 16
  pub sequence_number_range : g.sequence_number < 2 ^ 16

-- The values, by the four flags.
abbrev group_values : Bool → Bool → Bool → Bool → GroupHeader → List ℕ
group_values a b c d g =
    part a (encode16 g.writer_group_id)
    ++ (part b (encode32 g.group_version)
        ++ (part c (encode16 g.network_message_number) ++ part d (encode16 g.sequence_number)))

unfoldable pub group_header_encoding : GroupHeader → List ℕ
group_header_encoding g =
    (group_flags g ∷ [])
    ++ group_values g.writer_group_id_enabled g.group_version_enabled
        g.network_message_number_enabled g.sequence_number_enabled g

-- A group header of four flags, with the values of `g` that they switch on.
abbrev pub switched : Bool → Bool → Bool → Bool → GroupHeader → GroupHeader
switched a b c d g = record {
  writer_group_id_enabled = a;
  group_version_enabled = b;
  network_message_number_enabled = c;
  sequence_number_enabled = d;
  writer_group_id = if a then g.writer_group_id else 0;
  group_version = if b then g.group_version else 0;
  network_message_number = if c then g.network_message_number else 0;
  sequence_number = if d then g.sequence_number else 0;
}

abbrev pub canonical_group_header : GroupHeader → GroupHeader
canonical_group_header g =
    switched g.writer_group_id_enabled g.group_version_enabled g.network_message_number_enabled
      g.sequence_number_enabled g

pub group_header-Writes :
    (g : GroupHeader) → Writes (encode_group_header g) (group_header_encoding g)
unfolding encode_group_header group_header_encoding
group_header-Writes g = >>-Writes (byte_encode_binary-Writes _) (
    >>-Writes (when-Writes _ (uint16_encode_binary-Writes _)) (
      >>-Writes (when-Writes _ (uint32_encode_binary-Writes _)) (
        >>-Writes (when-Writes _ (uint16_encode_binary-Writes _))
          (when-Writes _ (uint16_encode_binary-Writes _)))))

pub group_header-Safe : (g : GroupHeader) → Safe (encode_group_header g)
unfolding encode_group_header
group_header-Safe g = >>-Safe (byte_encode_binary-Safe _) (
    >>-Safe (when-Safe _ (uint16_encode_binary-Safe _)) (
      >>-Safe (when-Safe _ (uint32_encode_binary-Safe _)) (
        >>-Safe (when-Safe _ (uint16_encode_binary-Safe _))
          (when-Safe _ (uint16_encode_binary-Safe _)))))

pub length-group_header_encoding :
    (g : GroupHeader) (size : ℕ)
    → calc_size_group_header g size ≡ size + length (group_header_encoding g)
unfolding group_header_encoding calc_size_group_header
length-group_header_encoding g size = simp sums (omega arith)

module _ (g : GroupHeader) (f : GroupHeaderFits g) where
  values-Reads :
      (v : ℕ)
      → Reads
          (decode_group_values v)
          (group_values (has_flag v 1) (has_flag v 2) (has_flag v 4) (has_flag v 8) g)
          (switched (has_flag v 1) (has_flag v 2) (has_flag v 4) (has_flag v 8) g)
  unfolding decode_group_values
  values-Reads v =
      >>=-Reads _ (read_if-Reads _ 0 (uint16_decode_binary-Reads _ f.writer_group_id_range)) (
        >>=-Reads _ (read_if-Reads _ 0 (uint32_decode_binary-Reads _ f.group_version_range)) (
          >>=-Reads _
            (read_if-Reads _ 0 (uint16_decode_binary-Reads _ f.network_message_number_range))
            (map-Reads _
              (read_if-Reads _ 0 (uint16_decode_binary-Reads _ f.sequence_number_range)))))

  pub group_header-Reads :
      Reads decode_group_header (group_header_encoding g) (canonical_group_header g)
  unfolding decode_group_header group_header_encoding group_flags
  group_header-Reads =
      let (ea, eb, ec, ed) =
        four_flags_bits g.writer_group_id_enabled g.group_version_enabled
          g.network_message_number_enabled g.sequence_number_enabled in
      >>=-Reads decode_group_values (byte_decode_binary-Reads (group_flags g)) (
        Reads-eq (λ i. group_values (ea i) (eb i) (ec i) (ed i) g)
          (λ i. switched (ea i) (eb i) (ec i) (ed i) g) (values-Reads (group_flags g)))

values-Consumes : (v : ℕ) → Consumes (decode_group_values v)
unfolding decode_group_values
values-Consumes v = >>=-Consumes _ (read_if-Consumes _ 0 uint16_decode_binary-Consumes) λ id.
    >>=-Consumes _ (read_if-Consumes _ 0 uint32_decode_binary-Consumes) λ version.
      >>=-Consumes _ (read_if-Consumes _ 0 uint16_decode_binary-Consumes) λ number.
        >>=-Consumes _ (read_if-Consumes _ 0 uint16_decode_binary-Consumes) λ nr. pure-Consumes _

pub group_header-Consumes : Consumes decode_group_header
unfolding decode_group_header
group_header-Consumes = >>=-Consumes decode_group_values byte_decode_binary-Consumes values-Consumes
