-- ===== src/Message/Offsets/Receive/Recorded.antt =====
-- Where `UA_NetworkMessage_calcSizeBinary` finds what a subscriber receives.
use open_pub_sub.Base.{
  ap, ap₂, ℕ, ◌+◌, ◌*◌, ◌≡◌, refl, ◌∙◌, true, [], ◌∷◌, ◌++◌, append-nil, append_assoc, take_counted,
  length, if◌then◌else◌, arith,
}
use open_pub_sub.Binary.Writer.Writes.{part}
use open_pub_sub.Binary.Scalars.{encode16, encode64}
use open_pub_sub.Binary.VariantCodec.{VariantCodec}
use open_pub_sub.Message.Offsets.Memory.{VariantMemory}
use open_pub_sub.Message.Network.{NetworkMessage}
use open_pub_sub.Message.Network.Size.{
  calc_size_front, calc_size_payload_header, calc_size_writer_ids,
}
use open_pub_sub.Message.Network.Fits.{PayloadFits, single, counted, flags_encoding}
use open_pub_sub.Message.Network.SizeLaws.{ids_size}
use open_pub_sub.Message.Network.Sections.{counted_messages}
use open_pub_sub.Message.Network.Total.{header_part, flags_total, classed_total, front_total}
use open_pub_sub.Message.Offsets.{publisher_id, data_set_writer_id}
use open_pub_sub.Message.Offsets.Network.{
  Offsets, place_of, size_to_messages, record_if, record_front, record_group_header,
  record_messages, record_rest, record_behind, record_writer_ids, record_network_message,
}
use open_pub_sub.Message.Offsets.Record.{record_data_set_message}
use open_pub_sub.Message.Offsets.Positions.{messages_position}
use open_pub_sub.Message.Offsets.Receive.Expected.{RealTime}
use open_pub_sub.Message.Offsets.Receive.Whole.{group_at, frame_at, header_offsets, offsets_from}

module _ (c : VariantCodec) (vm : VariantMemory c) (w : NetworkMessage c.Variant)
    (r : RealTime c w) where
  front_offsets :
      record_front c vm true w
      ≡ (if w.publisher_id_enabled
          then record { content = publisher_id; offset = 0 + length (flags_encoding c w) } ∷ []
          else [])
        ++ (if w.group_header_enabled
            then record_group_header c vm true w.group_header (group_at c vm w r 0)
            else [])
  unfolding record_front
  front_offsets =
      ap₂
        (λ flags classed.
          record_if c vm true w.publisher_id_enabled publisher_id flags
          ++ (if w.group_header_enabled
              then record_group_header c vm true w.group_header classed
              else []))
        (omega (arith, flags_total c w r.fits)) (omega (arith, classed_total c w r.fits))

  rest_offsets :
      (size : ℕ)
      → record_rest c vm true w size
        ≡ record_messages c vm true 0 w.data_set_messages (size_to_messages c vm true w size)
  unfolding record_rest
  rest_offsets size =
      simp
        (
          r.untimed,
          r.coarse,
          r.fits.is_data_set,
          take_counted (counted_messages c w r.fits.payload_fits),
        )
        refl

  behind_offsets :
      PayloadFits c w
      → (if w.payload_header_enabled
          then record_writer_ids c vm true w.network_message_type w.data_set_writer_ids
              (calc_size_front c w)
            ++ record_behind c vm true w (calc_size_payload_header w (calc_size_front c w))
          else record_rest c vm true w (calc_size_front c w))
        ≡ (if w.payload_header_enabled
            then record { content = data_set_writer_id; offset = calc_size_front c w + 1 } ∷ []
            else [])
          ++ record_rest c vm true w (calc_size_front c w + length (header_part c w r.fits))
  unfolding record_behind record_writer_ids calc_size_payload_header calc_size_writer_ids part
  behind_offsets (single off one) =
      let front : ℕ = calc_size_front c w in
      let e : front + length (header_part c w r.fits) ≡ front = simp off (omega arith) in
      rw e (simp off refl)
  behind_offsets (counted on ids given n k p) =
      let front : ℕ = calc_size_front c w in
      let e : front + length (header_part c w r.fits) ≡ front + 1 + 2 * w.count =
        simp (on, given) (omega (arith, n, ids_size ids)) in
      rw e (simp (on, r.fits.is_data_set, given) refl)

  no_bytes :
      (length (part w.timestamp_enabled (encode64 w.timestamp)) ≡ 0)
      × (length (part w.picoseconds_enabled (encode16 w.picoseconds)) ≡ 0)
  unfolding part
  no_bytes = (simp r.untimed refl, simp r.coarse refl)

  abbrev frame_offsets : ℕ → Offsets c vm true
  frame_offsets size = record_data_set_message c vm (place_of c vm 0) r.frame size

  -- The frame is recorded where it stands.
  frame_recorded :
      record_rest c vm true w (calc_size_front c w + length (header_part c w r.fits))
      ≡ frame_offsets (frame_at c vm w r 0) ++ []
  unfolding record_messages
  frame_recorded =
      let size : ℕ = calc_size_front c w + length (header_part c w r.fits) in
      let none = no_bytes in
      rest_offsets size
      ∙ ap (λ ms. record_messages c vm true 0 ms (size_to_messages c vm true w size)) r.one_message
      ∙ ap (λ at. frame_offsets at ++ [])
          (omega (
            arith,
            messages_position c vm w r.fits r.untimed r.coarse size,
            front_total c w r.fits,
            none.0,
            none.1,
          ))

  header_recorded :
      (if w.payload_header_enabled
        then record { content = data_set_writer_id; offset = calc_size_front c w + 1 } ∷ []
        else [])
      ≡ header_offsets c vm w r 0
  header_recorded =
      ap
        (λ at.
          if w.payload_header_enabled
          then record { content = data_set_writer_id; offset = at + 1 } ∷ []
          else [])
        (omega (arith, front_total c w r.fits))

  -- The offsets that are recorded are those that read the message.
  pub recorded : record_network_message c vm true w ≡ offsets_from c vm w r 0
  unfolding record_network_message
  recorded =
      ap₂ (λ front behind. front ++ behind) front_offsets
        (behind_offsets r.fits.payload_fits
          ∙ ap₂ (λ header frame. header ++ frame) header_recorded frame_recorded)
      ∙ simp (append_assoc, append-nil) refl
