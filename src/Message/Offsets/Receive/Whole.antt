-- ===== src/Message/Offsets/Receive/Whole.antt =====
-- The offsets that read a whole message.
use open_pub_sub.Base.{
  transport, ℕ, ◌+◌, refl, sym, true, List, [], ◌∷◌, ◌++◌, length, if◌then◌else◌,
}
use open_pub_sub.Binary.Writer.Writes.{part}
use open_pub_sub.Binary.Scalars.{encode16, encode64}
use open_pub_sub.Binary.Text.Laws.{text_encoding}
use open_pub_sub.Binary.Each.{concat}
use open_pub_sub.Binary.VariantCodec.{VariantCodec}
use open_pub_sub.Message.Offsets.Memory.{VariantMemory, Memory}
use open_pub_sub.Message.DataSet.{DataSetMessage}
use open_pub_sub.Message.DataSet.Fits.{data_set_message_encoding}
use open_pub_sub.Message.Network.{NetworkMessage}
use open_pub_sub.Message.Network.Fits.{flags_encoding, promoted_part, network_message_encoding}
use open_pub_sub.Message.Network.Total.{id_part, class_part, group_part, header_part}
use open_pub_sub.Message.Offsets.{publisher_id, data_set_writer_id}
use open_pub_sub.Message.Offsets.Network.{Offsets, place_of, record_group_header}
use open_pub_sub.Message.Offsets.Record.{record_data_set_message}
use open_pub_sub.Message.Offsets.Positions.{security_part, sizes_part}
use open_pub_sub.Message.Offsets.Receive.Gathers.{Gathers, skip-Gathers, ++-Gathers, Gathers-states}
use open_pub_sub.Message.Offsets.Receive.Frame.{message-Gathers}
use open_pub_sub.Message.Offsets.Receive.Expected.{
  RealTime, Template, identified, headed, received_message, id-Gathers, groups-Gathers,
  header-Gathers,
}

module _ (c : VariantCodec) (vm : VariantMemory c) (w : NetworkMessage c.Variant)
    (r : RealTime c w) where
  abbrev end_part : List ℕ
  end_part = part w.security_enabled (
      part w.security_header.security_footer_enabled w.security_footer
      ++ part w.security_header.network_message_signed (text_encoding w.signature))

  abbrev pub group_at : ℕ → ℕ
  group_at place =
      place
      + length (flags_encoding c w)
      + length (id_part c w r.fits)
      + length (class_part c w r.fits)

  abbrev pub header_at : ℕ → ℕ
  header_at place = group_at place + length (group_part c w r.fits)

  abbrev pub frame_at : ℕ → ℕ
  frame_at place =
      header_at place
      + length (header_part c w r.fits)
      + length (part w.timestamp_enabled (encode64 w.timestamp))
      + length (part w.picoseconds_enabled (encode16 w.picoseconds))
      + length (promoted_part c w)
      + length (security_part c vm w r.fits r.untimed r.coarse)
      + length (sizes_part c vm w r.fits r.untimed r.coarse)

  abbrev pub header_offsets : ℕ → Offsets c vm true
  header_offsets place =
      if w.payload_header_enabled
      then record { content = data_set_writer_id; offset = header_at place + 1 } ∷ []
      else []

  -- The bytes of `w`, with given messages behind the sizes.
  abbrev with_messages : List (DataSetMessage c.Variant) → List ℕ
  with_messages ms =
      flags_encoding c w
      ++ (id_part c w r.fits
          ++ (class_part c w r.fits
              ++ (group_part c w r.fits
                  ++ (header_part c w r.fits
                      ++ (part w.timestamp_enabled (encode64 w.timestamp)
                          ++ (part w.picoseconds_enabled (encode16 w.picoseconds)
                              ++ (promoted_part c w
                                  ++ (security_part c vm w r.fits r.untimed r.coarse
                                      ++ ((sizes_part c vm w r.fits r.untimed r.coarse
                                            ++ concat (data_set_message_encoding c) ms)
                                          ++ end_part)))))))))

  abbrev pub offsets_from : ℕ → Offsets c vm true
  offsets_from place =
      (if w.publisher_id_enabled
        then record { content = publisher_id; offset = place + length (flags_encoding c w) } ∷ []
        else [])
      ++ ((if w.group_header_enabled
            then record_group_header c vm true w.group_header (group_at place)
            else [])
          ++ (header_offsets place
              ++ ((record_data_set_message c vm (place_of c vm 0) r.frame (frame_at place) ++ [])
                  ++ [])))

  module _ (nm : NetworkMessage c.Variant) (t : Template c w r nm) (position : ℕ) where
    abbrev state : NetworkMessage c.Variant
    state = headed c w nm r t

    abbrev pub result : NetworkMessage c.Variant
    result = received_message c w nm r t

    frame-Gathers :
        Gathers c position
          (λ place. record_data_set_message c vm (place_of c vm 0) r.frame place)
          (data_set_message_encoding c r.frame)
          state
          0
          result
          (length r.frame.data_set_fields)
    frame-Gathers =
        Gathers-states c position (λ i. record state { data_set_messages = sym t.messages i }) refl
          refl refl
          (message-Gathers c vm (place_of c vm 0) position state t.first t.others r.frame
            r.key_frame t.room)

    pub network-Gathers :
        Gathers c position
          (λ place. offsets_from place)
          (network_message_encoding c w)
          nm
          0
          result
          (length r.frame.data_set_fields)
    network-Gathers =
        let skip : (bs : List ℕ)
            → Gathers c {S = Memory c vm} position (λ place. []) bs state 0 state 0 =
          λ bs. skip-Gathers c position bs state 0 in
        let idd = identified c w nm r t in
        let n = length r.frame.data_set_fields in
        transport
          (λ i.
            Gathers c position (λ place. offsets_from place) (with_messages (sym r.one_message i))
              nm 0 result n)
          (++-Gathers c position (skip-Gathers c position (flags_encoding c w) nm 0) (
            ++-Gathers c position (id-Gathers c vm w nm r t position) (
              ++-Gathers c position (skip-Gathers c position (class_part c w r.fits) idd 0) (
                ++-Gathers c position (groups-Gathers c vm w nm r t position) (
                  ++-Gathers c position
                    (header-Gathers c vm w nm r t position r.fits.payload_fits
                      r.in_range.writer_ids_range)
                    (++-Gathers c position (skip (part w.timestamp_enabled (encode64 w.timestamp)))
                      (++-Gathers c position
                        (skip (part w.picoseconds_enabled (encode16 w.picoseconds)))
                        (++-Gathers c position (skip (promoted_part c w)) (
                          ++-Gathers c position
                            (skip (security_part c vm w r.fits r.untimed r.coarse))
                            (++-Gathers c position
                              (++-Gathers c position
                                (skip (sizes_part c vm w r.fits r.untimed r.coarse))
                                (++-Gathers c position frame-Gathers
                                  (skip-Gathers c position [] result n)))
                              (skip-Gathers c position end_part result n)))))))))))
