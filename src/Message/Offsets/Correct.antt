-- ===== src/Message/Offsets/Correct.antt =====
-- Updating a buffered NetworkMessage in place is encoding it anew.
use open_pub_sub.Base.{
  ap, ℕ, ◌+◌, ◌≤◌, ◌≡◌, refl, sym, ◌∙◌, ◌&&◌, ltb, false, List, [], ◌++◌, append-nil, drop, length,
  if◌then◌else◌, arith,
}
use open_pub_sub.Binary.Status.{good}
use open_pub_sub.Binary.Writer.{Buffer, put}
use open_pub_sub.Binary.Writer.Writes.{part}
use open_pub_sub.Binary.Each.{concat}
use open_pub_sub.Binary.Scalars.{encode16, encode64}
use open_pub_sub.Binary.Text.Laws.{text_encoding}
use open_pub_sub.Binary.VariantCodec.{VariantCodec}
use open_pub_sub.Message.Offsets.Memory.{VariantMemory, Memory}
use open_pub_sub.Message.GroupHeader.Laws.{group_header_encoding}
use open_pub_sub.Message.DataSet.Fits.{data_set_message_encoding}
use open_pub_sub.Message.Network.{NetworkMessage, extended_flags1_enabled, extended_flags2_enabled}
use open_pub_sub.Message.Network.Encode.{
  uadp_flags, extended_flags1, extended_flags2, encode_network_message,
}
use open_pub_sub.Message.Network.Size.{calc_size_front, calc_size_network_message}
use open_pub_sub.Message.Network.Fits.{
  NetworkMessageFits, LateParts, flags_encoding, promoted_part, network_message_encoding,
}
use open_pub_sub.Message.Network.Total.{
  id_part, class_part, group_part, header_part, classed_total, front_total,
  length-network_message_encoding,
}
use open_pub_sub.Message.Network.Correct.{network_message-Writes}
use open_pub_sub.Message.Offsets.{update_offsets, update_buffered_message}
use open_pub_sub.Message.Offsets.Patches.{Patches, keep-Patches, ++-Patches, if-Patches, Patches-eq}
use open_pub_sub.Message.Offsets.Network.{
  Offsets, record_group_header, record_front, record_messages, record_network_message,
}
use open_pub_sub.Message.Offsets.Update.{
  AllRefresh, refreshed_sizes, messages-Patches, group-Patches,
}
use open_pub_sub.Message.Offsets.Positions.{
  security_part, sizes_part, messages_position, rest_offsets, network_offsets,
}

-- The message `w` that stands where `m` was recorded: it differs in the sequence numbers and in the
-- values of key frames of variants, which the blocks `heap` hold where the data of the recorded ones
-- stands, and has neither a timestamp nor picoseconds.
pub record NetworkRefreshes (c : VariantCodec) (vm : VariantMemory c) (heap : vm.Heap)
    (w m : NetworkMessage c.Variant) : Type 0 where
  pub same : w ≡ record m {
    group_header = record m.group_header { sequence_number = w.group_header.sequence_number };
    data_set_messages = w.data_set_messages;
  }
  pub messages : AllRefresh c vm heap 0 w.data_set_messages m.data_set_messages
  pub untimed : m.timestamp_enabled ≡ false
  pub coarse : m.picoseconds_enabled ≡ false

module _ (c : VariantCodec) (vm : VariantMemory c) (heap : vm.Heap) (w m : NetworkMessage c.Variant)
    (fw : NetworkMessageFits c w) (fm : NetworkMessageFits c m)
    (r : NetworkRefreshes c vm heap w m) where
  abbrev now : Memory c vm
  now = record { message = w; heap = heap }

  abbrev end_part : List ℕ
  end_part = part m.security_enabled (
      part m.security_header.security_footer_enabled m.security_footer
      ++ part m.security_header.network_message_signed (text_encoding m.signature))

  -- The bytes of the message as it is now, with given sizes in front of the messages.
  abbrev with_sizes : List ℕ → List ℕ
  with_sizes sizes =
      flags_encoding c m
      ++ (id_part c m fm
          ++ (class_part c m fm
              ++ (part m.group_header_enabled (
                    group_header_encoding
                      (record m.group_header { sequence_number = w.group_header.sequence_number }))
                  ++ (header_part c m fm
                      ++ (part m.timestamp_enabled (encode64 m.timestamp)
                          ++ (part m.picoseconds_enabled (encode16 m.picoseconds)
                              ++ (promoted_part c m
                                  ++ (security_part c vm m fm r.untimed r.coarse
                                      ++ ((part (m.payload_header_enabled && ltb 1 m.count) sizes
                                            ++ concat (data_set_message_encoding c)
                                                w.data_set_messages)
                                          ++ end_part)))))))))

  abbrev group_at : ℕ → ℕ
  group_at position =
      position + length (flags_encoding c m) + length (id_part c m fm) + length (class_part c m fm)

  abbrev messages_at : ℕ → ℕ
  messages_at position =
      group_at position
      + length (group_part c m fm)
      + length (header_part c m fm)
      + length (part m.timestamp_enabled (encode64 m.timestamp))
      + length (part m.picoseconds_enabled (encode16 m.picoseconds))
      + length (promoted_part c m)
      + length (security_part c vm m fm r.untimed r.coarse)
      + length (sizes_part c vm m fm r.untimed r.coarse)

  abbrev offsets_from : ℕ → Offsets c vm false
  offsets_from position =
      (if m.group_header_enabled
        then record_group_header c vm false m.group_header (group_at position)
        else [])
      ++ (record_messages c vm false 0 m.data_set_messages (messages_at position) ++ [])

  -- The bytes that are recorded as fixed, with the group header and the messages between them.
  network-Patches :
      Patches c now
        (λ position. offsets_from position)
        (network_message_encoding c m)
        (network_message_encoding c w)
  unfolding uadp_flags extended_flags1 extended_flags2 extended_flags1_enabled
      extended_flags2_enabled
  network-Patches =
      Patches-eq c now (λ position. refl) refl
        (ap with_sizes (
            refreshed_sizes c vm heap 0 m.sizes w.data_set_messages m.data_set_messages r.messages
              fw.messages_fit fm.messages_fit)
          ∙ ap (network_message_encoding c) (sym r.same))
        (++-Patches c now (keep-Patches c now (flags_encoding c m)) (
          ++-Patches c now (keep-Patches c now (id_part c m fm)) (
            ++-Patches c now (keep-Patches c now (class_part c m fm)) (
              ++-Patches c now
                (if-Patches c now m.group_header_enabled
                  (group-Patches c vm now m.group_header w.group_header.sequence_number refl))
                (++-Patches c now (keep-Patches c now (header_part c m fm)) (
                  ++-Patches c now
                    (keep-Patches c now (part m.timestamp_enabled (encode64 m.timestamp)))
                    (++-Patches c now
                      (keep-Patches c now (part m.picoseconds_enabled (encode16 m.picoseconds)))
                      (++-Patches c now (keep-Patches c now (promoted_part c m)) (
                        ++-Patches c now
                          (keep-Patches c now (security_part c vm m fm r.untimed r.coarse))
                          (++-Patches c now
                            (++-Patches c now
                              (keep-Patches c now (sizes_part c vm m fm r.untimed r.coarse))
                              (messages-Patches c vm now 0 m.data_set_messages w.data_set_messages
                                refl r.messages fm.messages_fit))
                            (keep-Patches c now end_part)))))))))))

  front_offsets : record_front c vm false m ≡ (
      if m.group_header_enabled
      then record_group_header c vm false m.group_header (group_at 0)
      else [])
  unfolding record_front
  front_offsets =
      ap
        (λ position.
          if m.group_header_enabled
          then record_group_header c vm false m.group_header position
          else [])
        (classed_total c m fm ∙ omega arith)

  no_bytes :
      (length (part m.timestamp_enabled (encode64 m.timestamp)) ≡ 0)
      × (length (part m.picoseconds_enabled (encode16 m.picoseconds)) ≡ 0)
  unfolding part
  no_bytes = (simp r.untimed refl, simp r.coarse refl)

  -- The offsets that are recorded are those positions.
  recorded_positions : record_network_message c vm false m ≡ offsets_from 0
  recorded_positions =
      let header : ℕ = calc_size_front c m + length (header_part c m fm) in
      let none = no_bytes in
      let rest =
        rest_offsets c vm m fm r.untimed r.coarse header
        ∙ ap (record_messages c vm false 0 m.data_set_messages) (
            omega (
              arith,
              messages_position c vm m fm r.untimed r.coarse header,
              front_total c m fm,
              none.0,
              none.1,
            ))
        ∙ sym (append-nil _) in
      network_offsets c vm m fm r.untimed r.coarse fm.payload_fits
      ∙ (λ i. front_offsets i ++ rest i)

  pub updated :
      (post : List ℕ)
      → update_buffered_message c now
          (record_network_message c vm false m)
          (network_message_encoding c m ++ post)
        ≡ (good, network_message_encoding c w ++ post)
  unfolding update_buffered_message update_offsets
  updated post =
      rw (recorded_positions, ← append-nil (offsets_from 0)) (network-Patches.patches [] post [])

  same_room : length (network_message_encoding c m) ≡ length (network_message_encoding c w)
  same_room = network-Patches.same_length

  abbrev written : Buffer → NetworkMessage c.Variant → List ℕ
  written b x = let (s, b') = encode_network_message c x b in b'.before ++ b'.after

  update-encode :
      (after : List ℕ)
      → LateParts c w
      → LateParts c m
      → calc_size_network_message c m ≤ length after
      → update_buffered_message c now
          (record_network_message c vm false m)
          (written (record { before = []; after = after }) m)
        ≡ (good, written (record { before = []; after = after }) w)
  unfolding put
  update-encode after lw lm room =
      let size = length-network_message_encoding c m fm in
      let b : Buffer = record { before = []; after = after } in
      rw
        (
          (network_message-Writes c m fm lm).fits b (omega (arith, size, room)),
          (network_message-Writes c w fw lw).fits b (omega (arith, size, room, same_room)),
        )
        (updated (drop (length (network_message_encoding c m)) after)
          ∙ ap (λ n. (good, network_message_encoding c w ++ drop n after)) same_room)

-- Over any codec of variants and any memory for their data: let `m` be a NetworkMessage that was
-- encoded into a buffer with room for its size, with the offsets that its size computation records
-- for a publisher, and `w` that message with other sequence numbers and with other values of the same
-- sizes in key frames of variants, which are the scalars of the recorded types that the blocks now
-- hold where the recorded data stands. Let both have encodings, with no part longer than what follows
-- it, and neither timestamp nor picoseconds. Updating the buffer in place then ends with status good
-- and leaves the same bytes as encoding `w` anew.
pub update_buffered_message-encode_network_message :
    (c : VariantCodec) (vm : VariantMemory c) (heap : vm.Heap) (w m : NetworkMessage c.Variant)
    (after : List ℕ)
    → NetworkMessageFits c w
    → NetworkMessageFits c m
    → LateParts c w
    → LateParts c m
    → NetworkRefreshes c vm heap w m
    → calc_size_network_message c m ≤ length after
    → let b : Buffer = record { before = []; after = after } in
      update_buffered_message c
        (record { message = w; heap = heap })
        (record_network_message c vm false m)
        ((encode_network_message c m b).1.before ++ (encode_network_message c m b).1.after)
      ≡ (good, (encode_network_message c w b).1.before ++ (encode_network_message c w b).1.after)
update_buffered_message-encode_network_message c vm heap w m after fw fm lw lm r room =
    update-encode c vm heap w m fw fm r after lw lm room
