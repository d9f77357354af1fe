-- ===== src/Message/Offsets/Update.antt =====
-- `UA_NetworkMessage_updateBufferedMessage` on a buffer that was encoded: the bytes become those of
-- the message as it is now.
use open_pub_sub.Base.{
  get_or-drop, drop-suc, ap, ℕ, suc, ◌+◌, ◌≡◌, refl, false, List, [], ◌∷◌, ◌++◌, length, drop,
  get_or, All, arith, some,
}
use open_pub_sub.Binary.Writer.Writes.{part}
use open_pub_sub.Binary.Scalars.{
  encode16, encode32, calc_size_binary1, calc_size_binary2, calc_size_binary4,
}
use open_pub_sub.Binary.Scalars.Laws.{length-encode16, length-encode32}
use open_pub_sub.Binary.Parts.{add_if}
use open_pub_sub.Binary.Generated.{uint16_encode_binary}
use open_pub_sub.Binary.Generated.Laws.{uint16_encode_binary-Writes}
use open_pub_sub.Binary.Each.{concat}
use open_pub_sub.Binary.VariantCodec.{VariantCodec}
use open_pub_sub.Message.Offsets.Memory.{VariantMemory, Memory}
use open_pub_sub.Message.GroupHeader.{GroupHeader, group_flags}
use open_pub_sub.Message.GroupHeader.Laws.{group_header_encoding}
use open_pub_sub.Message.DataSet.{DataSetMessage}
use open_pub_sub.Message.DataSet.Fits.{DataSetMessageFits, data_set_message_encoding}
use open_pub_sub.Message.DataSet.Correct.{encoding_size}
use open_pub_sub.Message.Network.Size.{calc_size_message}
use open_pub_sub.Message.Network.SizeLaws.{add_if-part}
use open_pub_sub.Message.Network.Encode.{announced_size}
use open_pub_sub.Message.Network.Fits.{sizes_encoding}
use open_pub_sub.Message.Offsets.{network_message_sequence_number, encoder_of}
use open_pub_sub.Message.Offsets.Patches.{
  Patches, keep-Patches, slot-Patches, ++-Patches, Patches-eq, if-Patches,
}
use open_pub_sub.Message.Offsets.DataSet.{Refreshes, message-Patches}
use open_pub_sub.Message.Offsets.Network.{
  zero_message, place_of, record_if, record_group_header, record_messages,
}

-- Where the sequence number of a group header stands.
pub group_position :
    (g : GroupHeader) (position : ℕ)
    → position
        + 1
        + length (part g.writer_group_id_enabled (encode16 g.writer_group_id))
        + length (part g.group_version_enabled (encode32 g.group_version))
        + length (part g.network_message_number_enabled (encode16 g.network_message_number))
      ≡ add_if g.network_message_number_enabled calc_size_binary2 (
          add_if g.group_version_enabled calc_size_binary4
            (add_if g.writer_group_id_enabled calc_size_binary2 (position + calc_size_binary1)))
group_position g position =
    let grouped : ℕ = add_if g.writer_group_id_enabled 2 (position + 1) in
    omega (
      arith,
      add_if-part g.writer_group_id_enabled (encode16 g.writer_group_id) (position + 1)
          (length-encode16 g.writer_group_id),
      add_if-part g.group_version_enabled (encode32 g.group_version) grouped
          (length-encode32 g.group_version),
      add_if-part g.network_message_number_enabled (encode16 g.network_message_number)
          (add_if g.group_version_enabled 4 grouped) (length-encode16 g.network_message_number),
    )

module _ (c : VariantCodec) (vm : VariantMemory c) where
  -- One after the other, as many messages as were recorded.
  unfoldable pub AllRefresh :
      vm.Heap → ℕ → List (DataSetMessage c.Variant) → List (DataSetMessage c.Variant) → Type 0
  AllRefresh h i [] [] = Unit
  AllRefresh h i [] (m ∷ ms) = ⊥
  AllRefresh h i (w ∷ ws) [] = ⊥
  AllRefresh h i (w ∷ ws) (m ∷ ms) =
      Refreshes c vm h (vm.address i) w m × AllRefresh h (suc i) ws ms

  -- A message is as long as the one that stands for it.
  refreshed_size :
      (h : vm.Heap) (address : ℕ → vm.Address) (w m : DataSetMessage c.Variant)
      → Refreshes c vm h address w m
      → DataSetMessageFits c w
      → DataSetMessageFits c m
      → calc_size_message c w ≡ calc_size_message c m
  refreshed_size h address w m r fw fm =
      let same = Patches.same_length (
        message-Patches c vm
          (record {
            message = λ (x : DataSetMessage c.Variant). x;
            heap = λ x. h;
            address = address;
          })
          w m r) in
      omega (arith, same, encoding_size c w fw, encoding_size c m fm)

  pub refreshed_sizes :
      (h : vm.Heap) (i : ℕ) (sizes : List ℕ) (ws ms : List (DataSetMessage c.Variant))
      → AllRefresh h i ws ms
      → All (DataSetMessageFits c) ws
      → All (DataSetMessageFits c) ms
      → sizes_encoding c sizes ms ≡ sizes_encoding c sizes ws
  unfolding AllRefresh sizes_encoding announced_size
  refreshed_sizes h i sizes [] [] rs fw fm = refl
  refreshed_sizes h i sizes [] (m ∷ ms) rs fw fm = absurd rs
  refreshed_sizes h i sizes (w ∷ ws) [] rs fw fm = absurd rs
  refreshed_sizes h i [] (w ∷ ws) (m ∷ ms) rs fw fm =
      rw
        (
          refreshed_size h (vm.address i) w m rs.0 fw.0 fm.0,
          refreshed_sizes h (suc i) [] ws ms rs.1 fw.1 fm.1,
        )
        refl
  refreshed_sizes h i (s ∷ ss) (w ∷ ws) (m ∷ ms) rs fw fm =
      rw
        (
          refreshed_size h (vm.address i) w m rs.0 fw.0 fm.0,
          refreshed_sizes h (suc i) ss ws ms rs.1 fw.1 fm.1,
        )
        refl

  module _ (memory : Memory c vm) where
    pub messages-Patches :
        (i : ℕ) (ms ws : List (DataSetMessage c.Variant))
        → drop i memory.message.data_set_messages ≡ ws
        → AllRefresh memory.heap i ws ms
        → All (DataSetMessageFits c) ms
        → Patches c memory
            (record_messages c vm false i ms)
            (concat (data_set_message_encoding c) ms)
            (concat (data_set_message_encoding c) ws)
    unfolding record_messages AllRefresh
    messages-Patches i [] [] e rs fs = keep-Patches c memory []
    messages-Patches i (m ∷ ms) [] e rs fs = absurd rs
    messages-Patches i [] (w ∷ ws) e rs fs = absurd rs
    messages-Patches i (m ∷ ms) (w ∷ ws) e rs fs =
        let here : get_or memory.message.data_set_messages i zero_message ≡ w =
          get_or-drop i _ _ w ws e in
        Patches-eq c memory (λ position. rw (encoding_size c m fs.0) refl) refl
          (ap (λ x. data_set_message_encoding c x ++ concat (data_set_message_encoding c) ws) here)
          (++-Patches c memory (message-Patches c vm (place_of c vm i) memory m (rw here rs.0))
            (messages-Patches (suc i) ms ws (drop-suc i _ w ws e) rs.1 fs.1))

    pub group-Patches :
        (g : GroupHeader) (n : ℕ)
        → memory.message.group_header.sequence_number ≡ n
        → Patches c memory
            (record_group_header c vm false g)
            (group_header_encoding g)
            (group_header_encoding (record g { sequence_number = n }))
    unfolding record_group_header group_header_encoding group_flags encoder_of
    group-Patches g n e =
        Patches-eq c memory
          (λ position.
            ap
              (λ o.
                record_if c vm false g.sequence_number_enabled
                  (network_message_sequence_number (λ s. s.message.group_header.sequence_number)) o)
              (group_position g position))
          refl refl
          (++-Patches c memory (keep-Patches c memory (group_flags g ∷ [])) (
            ++-Patches c memory
              (keep-Patches c memory (part g.writer_group_id_enabled (encode16 g.writer_group_id)))
              (++-Patches c memory
                (keep-Patches c memory (part g.group_version_enabled (encode32 g.group_version)))
                (++-Patches c memory
                  (keep-Patches c memory
                    (part g.network_message_number_enabled (encode16 g.network_message_number)))
                  (if-Patches c memory g.sequence_number_enabled (
                    slot-Patches c memory
                      (network_message_sequence_number
                        (λ s. s.message.group_header.sequence_number))
                      (encode16 g.sequence_number) (encode16 n)
                      (ap (λ k. some (uint16_encode_binary k)) e) (uint16_encode_binary-Writes n)
                      (omega (arith, length-encode16 g.sequence_number, length-encode16 n))))))))
