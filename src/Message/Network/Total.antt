-- ===== src/Message/Network/Total.antt =====
-- The whole of `UA_NetworkMessage_calcSizeBinary`, from the sizes of its sections.
use open_pub_sub.Base.{ℕ, ◌+◌, ◌*◌, ◌≡◌, ◌∙◌, List, [], ◌∷◌, ◌++◌, length, length-append, arith}
use open_pub_sub.Binary.Writer.Writes.{part}
use open_pub_sub.Binary.Scalars.{encode16}
use open_pub_sub.Binary.Guid.{calc_size_guid}
use open_pub_sub.Binary.Guid.Laws.{guid_encoding, length-guid_encoding}
use open_pub_sub.Binary.Parts.{add_if}
use open_pub_sub.Binary.Each.{concat}
use open_pub_sub.Binary.VariantCodec.{VariantCodec}
use open_pub_sub.Message.GroupHeader.Laws.{group_header_encoding, length-group_header_encoding}
use open_pub_sub.Message.Network.{NetworkMessage, extended_flags1_enabled, extended_flags2_enabled}
use open_pub_sub.Message.Network.Encode.{uadp_flags, extended_flags1, extended_flags2}
use open_pub_sub.Message.Network.Size.{
  calc_size_publisher_id, calc_size_flags, calc_size_payload_header, calc_size_rest,
  calc_size_writer_ids, calc_size_behind, calc_size_front, calc_size_network_message,
}
use open_pub_sub.Message.Network.Fits.{
  PayloadFits, single, counted, NetworkMessageFits, flags_encoding, writer_ids, tail_encoding,
  publisher_id_encoding, timestamp_part, picoseconds_part, promoted_part, network_message_encoding,
}
use open_pub_sub.Message.Network.SizeLaws.{
  add_if-part, if_part, flags_size, publisher_id_size, ids_size, rest_size,
}

module _ (c : VariantCodec) (m : NetworkMessage c.Variant) (f : NetworkMessageFits c m) where
  abbrev pub id_part : List ℕ
  id_part = part m.publisher_id_enabled (publisher_id_encoding m.publisher_id_type m.publisher_id)

  abbrev pub class_part : List ℕ
  class_part = part m.data_set_class_id_enabled (guid_encoding m.data_set_class_id)

  abbrev pub group_part : List ℕ
  group_part = part m.group_header_enabled (group_header_encoding m.group_header)

  abbrev pub header_part : List ℕ
  header_part =
      part m.payload_header_enabled
        ((m.count ∷ []) ++ concat encode16 (writer_ids c m.data_set_writer_ids))

  abbrev late_part : List ℕ
  late_part =
      timestamp_part c m ++ (picoseconds_part c m ++ (promoted_part c m ++ tail_encoding c m))

  pub flags_total : calc_size_flags m ≡ length (flags_encoding c m)
  unfolding calc_size_flags
  flags_total =
      flags_size (extended_flags1_enabled m) (extended_flags2_enabled m) (uadp_flags m)
        (extended_flags1 m) (extended_flags2 m)

  pub classed_total :
      add_if m.data_set_class_id_enabled (calc_size_guid m.data_set_class_id) (
        add_if m.publisher_id_enabled
          (calc_size_publisher_id m.publisher_id_type m.publisher_id)
          (calc_size_flags m))
      ≡ length (flags_encoding c m) + length id_part + length class_part
  classed_total =
      let identified : ℕ =
        add_if m.publisher_id_enabled (calc_size_publisher_id m.publisher_id_type m.publisher_id)
          (calc_size_flags m) in
      omega (
        arith,
        flags_total,
        add_if-part m.publisher_id_enabled
            (publisher_id_encoding m.publisher_id_type m.publisher_id) (calc_size_flags m)
            (publisher_id_size m.publisher_id_type m.publisher_id f.publisher_id_fits.named),
        add_if-part m.data_set_class_id_enabled (guid_encoding m.data_set_class_id) identified
            (length-guid_encoding m.data_set_class_id f.class_id_fits),
      )

  pub front_total :
      calc_size_front c m
      ≡ length (flags_encoding c m) + length id_part + length class_part + length group_part
  unfolding calc_size_front
  front_total =
      let classed : ℕ = add_if m.data_set_class_id_enabled (calc_size_guid m.data_set_class_id) (
        add_if m.publisher_id_enabled (calc_size_publisher_id m.publisher_id_type m.publisher_id)
          (calc_size_flags m)) in
      omega (
        arith,
        classed_total,
        if_part m.group_header_enabled (group_header_encoding m.group_header) classed
            (length-group_header_encoding m.group_header classed),
      )

  joined :
      length (network_message_encoding c m)
      ≡ length (flags_encoding c m)
        + length id_part
        + length class_part
        + length group_part
        + length header_part
        + length late_part
  joined = omega (
    arith,
    length-append (flags_encoding c m)
        (id_part ++ (class_part ++ (group_part ++ (header_part ++ late_part)))),
    length-append id_part (class_part ++ (group_part ++ (header_part ++ late_part))),
    length-append class_part (group_part ++ (header_part ++ late_part)),
    length-append group_part (header_part ++ late_part),
    length-append header_part late_part,
  )

  total :
      (late : ℕ)
      → ((size : ℕ) → calc_size_rest c m size ≡ size + late)
      → PayloadFits c m
      → calc_size_network_message c m ≡ calc_size_front c m + length header_part + late
  unfolding calc_size_network_message calc_size_payload_header calc_size_writer_ids calc_size_behind
      part
  total late rest (single off one) = simp off (rest (calc_size_front c m) ∙ omega arith)
  total late rest (counted on ids given n k p) =
      simp (on, f.is_data_set, given)
        (rest (calc_size_front c m + 1 + 2 * m.count) ∙ omega (arith, n, ids_size ids))

  pub length-network_message_encoding :
      length (network_message_encoding c m) ≡ calc_size_network_message c m
  length-network_message_encoding =
      omega (arith, joined, front_total, total (length late_part) (rest_size c m f) f.payload_fits)
