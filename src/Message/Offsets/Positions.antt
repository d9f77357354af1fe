-- ===== src/Message/Offsets/Positions.antt =====
-- Where `UA_NetworkMessage_calcSizeBinary` finds the group header and the messages.
use open_pub_sub.Base.{
  take, ℕ, ◌+◌, ◌*◌, ◌≡◌, refl, ◌&&◌, ltb, false, List, ◌++◌, take_counted, length, arith,
}
use open_pub_sub.Binary.Writer.Writes.{part}
use open_pub_sub.Binary.Parts.{add_if}
use open_pub_sub.Binary.Each.{sum}
use open_pub_sub.Binary.VariantCodec.{VariantCodec}
use open_pub_sub.Message.Offsets.Memory.{VariantMemory}
use open_pub_sub.Message.SecurityHeader.Laws.{
  security_header_encoding, length-security_header_encoding,
}
use open_pub_sub.Message.Network.{NetworkMessage}
use open_pub_sub.Message.Network.Size.{
  calc_size_front, calc_size_payload_header, calc_size_writer_ids,
}
use open_pub_sub.Message.Network.SizeLaws.{
  add_if-part, if_part, ids_size, promoted_size, announced_size_sum,
}
use open_pub_sub.Message.Network.Sections.{counted_messages}
use open_pub_sub.Message.Network.Total.{header_part}
use open_pub_sub.Message.Network.Fits.{
  PayloadFits, single, counted, NetworkMessageFits, sizes_encoding, promoted_encoding,
  promoted_part,
}
use open_pub_sub.Message.Offsets.Network.{
  size_to_security, size_to_payload, size_to_messages, record_front, record_messages, record_rest,
  record_behind, record_writer_ids, record_network_message,
}

module _ (c : VariantCodec) (vm : VariantMemory c) (m : NetworkMessage c.Variant)
    (f : NetworkMessageFits c m) (untimed : m.timestamp_enabled ≡ false)
    (coarse : m.picoseconds_enabled ≡ false) where
  abbrev pub security_part : List ℕ
  security_part = part m.security_enabled (security_header_encoding m.security_header)

  abbrev pub sizes_part : List ℕ
  sizes_part =
      part (m.payload_header_enabled && ltb 1 m.count)
        (sizes_encoding c m.sizes m.data_set_messages)

  untimed_size :
      (size : ℕ)
      → size_to_security c vm false m size
        ≡ add_if m.promoted_fields_enabled
            (2 + sum c.calc_size (take m.promoted_fields_size m.promoted_fields))
            size
  unfolding add_if
  untimed_size size = simp (untimed, coarse) refl

  pub messages_position :
      (size : ℕ)
      → size_to_messages c vm false m size
        ≡ size + length (promoted_part c m) + length security_part + length sizes_part
  messages_position size =
      let fields : ℕ = size_to_security c vm false m size in
      omega (
        arith,
        untimed_size size,
        add_if-part m.promoted_fields_enabled (promoted_encoding c m) size (promoted_size c m f),
        if_part m.security_enabled (security_header_encoding m.security_header) fields
            (length-security_header_encoding m.security_header f.security_fits fields),
        announced_size_sum c m f (size_to_payload c vm false m size) f.payload_fits,
      )

  pub rest_offsets :
      (size : ℕ)
      → record_rest c vm false m size
        ≡ record_messages c vm false 0 m.data_set_messages (size_to_messages c vm false m size)
  unfolding record_rest
  rest_offsets size =
      simp (untimed, coarse, f.is_data_set, take_counted (counted_messages c m f.payload_fits)) refl

  pub network_offsets :
      PayloadFits c m
      → record_network_message c vm false m
        ≡ record_front c vm false m
          ++ record_rest c vm false m (calc_size_front c m + length (header_part c m f))
  unfolding record_network_message record_behind record_writer_ids calc_size_payload_header
      calc_size_writer_ids part
  network_offsets (single off one) =
      let front : ℕ = calc_size_front c m in
      let e : front + length (header_part c m f) ≡ front = simp off (omega arith) in
      rw e (simp off refl)
  network_offsets (counted on ids given n k p) =
      let front : ℕ = calc_size_front c m in
      let e : front + length (header_part c m f) ≡ front + 1 + 2 * m.count =
        simp (on, given) (omega (arith, n, ids_size ids)) in
      rw e (simp (on, f.is_data_set, given) refl)
