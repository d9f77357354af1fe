-- ===== src/Message/Network/Cut.antt =====
-- What becomes of a status that `UA_NetworkMessage_encodeBinary` does not test: a timestamp that
-- finds no room.
use open_pub_sub.Base.{
  ℕ, ◌+◌, ◌≤◌, ◌<◌, ◌≡◌, refl, sym, ap, ◌∙◌, true, false, List, [], ◌∷◌, ◌++◌, length,
  length-append, drop-append, lt→leb, arith,
}
use open_pub_sub.Binary.Status.{good}
use open_pub_sub.Binary.Writer.{
  Buffer, Encoder, put, write, ◌>>◌, unchecked, when, done, exchange_buffer, rewind,
  encode_with_exchange_buffer, encode_binary,
}
use open_pub_sub.Binary.Writer.Writes.{Writes, when-Writes, part, put-put, length-after_put}
use open_pub_sub.Binary.Scalars.{encode16, encode64, encode_uint64}
use open_pub_sub.Binary.Scalars.Laws.{length-encode64}
use open_pub_sub.Binary.Generated.{
  date_time_encode_binary, guid_encode_binary, uint16_encode_binary,
}
use open_pub_sub.Binary.Generated.Laws.{guid_encode_binary-Writes}
use open_pub_sub.Binary.Guid.Laws.{guid_encoding}
use open_pub_sub.Binary.Each.{concat}
use open_pub_sub.Binary.VariantCodec.{VariantCodec}
use open_pub_sub.Message.GroupHeader.{encode_group_header}
use open_pub_sub.Message.GroupHeader.Laws.{group_header_encoding, group_header-Writes}
use open_pub_sub.Message.Network.{NetworkMessage}
use open_pub_sub.Message.Network.Encode.{
  encode_network_message, encode_flags, encode_promoted_fields, encode_publisher_id,
  encode_payload_header,
}
use open_pub_sub.Message.Network.Size.{calc_size_network_message}
use open_pub_sub.Message.Network.Total.{length-network_message_encoding}
use open_pub_sub.Message.Network.Fits.{
  NetworkMessageFits, flags_encoding, publisher_id_encoding, writer_ids, tail_encoding,
  timestamp_part, picoseconds_part, promoted_part,
}
use open_pub_sub.Message.Network.Sections.{
  flags-Writes, publisher_id-Writes, payload_header-Writes, tail-Writes,
}

-- A front of an encoder that writes `xs` and goes on, where they fit.
record Leads (front : Encoder → Encoder) (xs : List ℕ) : Type 0 where
  leads : (k : Encoder) (b : Buffer) → length xs ≤ length b.after → front k b ≡ k (put xs b)

step-Leads : {e : Encoder} {xs : List ℕ} → Writes e xs → Leads (λ k. e >> k) xs
unfolding ◌>>◌
step-Leads w = record { leads = λ k b h. rw (w.fits b h) }

then-Leads :
    {front next : Encoder → Encoder} {xs ys : List ℕ}
    → Leads front xs
    → Leads next ys
    → Leads (λ k. front (next k)) (xs ++ ys)
then-Leads {next} {xs} {ys} p q = record {
  leads = λ k b h.
      p.leads (next k) b (omega (arith, length-append xs ys))
      ∙ q.leads k (put xs b) (omega (arith, length-append xs ys, length-after_put xs b))
      ∙ ap k (put-put xs ys b);
}

-- An integer that finds no room leaves the buffer as it was.
no_room : (v : ℕ) (b : Buffer) → length b.after < 8 → (date_time_encode_binary v b).1 ≡ b
unfolding date_time_encode_binary encode_binary encode_with_exchange_buffer encode_uint64 write
    rewind exchange_buffer ◌>>◌
no_room v b h =
    rw (lt→leb (length (encode64 v)) (length b.after) (omega (arith, length-encode64 v)))
      (λ i. record { before = b.before; after = drop-append b.before b.after i })

length-before_put :
    (bs : List ℕ) (b : Buffer) → length (put bs b).before ≡ length b.before + length bs
unfolding put
length-before_put bs b = length-append b.before bs

regroup :
    (a b c d e r : List ℕ)
    → length (a ++ (b ++ (c ++ (d ++ (e ++ r))))) ≡ length (a ++ (b ++ (c ++ (d ++ e)))) + length r
regroup a b c d e r = simp length-append (omega arith)

module _ (c : VariantCodec) (m : NetworkMessage c.Variant) (f : NetworkMessageFits c m) where
  abbrev front_encoding : List ℕ
  front_encoding =
      flags_encoding c m
      ++ (part m.publisher_id_enabled (publisher_id_encoding m.publisher_id_type m.publisher_id)
          ++ (part m.data_set_class_id_enabled (guid_encoding m.data_set_class_id)
              ++ (part m.group_header_enabled (group_header_encoding m.group_header)
                  ++ part m.payload_header_enabled
                      ((m.count ∷ []) ++ concat encode16 (writer_ids c m.data_set_writer_ids)))))

  front-Leads :
      Leads
        (λ k.
          encode_flags m
          >> (when m.publisher_id_enabled (encode_publisher_id m.publisher_id_type m.publisher_id)
              >> (when m.data_set_class_id_enabled (guid_encode_binary m.data_set_class_id)
                  >> (when m.group_header_enabled (encode_group_header m.group_header)
                      >> (when m.payload_header_enabled (encode_payload_header m) >> k)))))
        front_encoding
  front-Leads = then-Leads (step-Leads (flags-Writes c m)) (
      then-Leads (step-Leads (when-Writes _ (publisher_id-Writes _ _ f.publisher_id_fits))) (
        then-Leads (step-Leads (when-Writes _ (guid_encode_binary-Writes _ f.class_id_fits))) (
          then-Leads (step-Leads (when-Writes _ (group_header-Writes _)))
            (step-Leads (payload_header-Writes c m f.is_data_set f.payload_fits)))))

  abbrev middle_encoding : List ℕ
  middle_encoding =
      timestamp_part c m ++ (picoseconds_part c m ++ (promoted_part c m ++ tail_encoding c m))

  module _ (timed : m.timestamp_enabled ≡ true) (coarse : m.picoseconds_enabled ≡ false)
      (plain : m.promoted_fields_enabled ≡ false) where
    late_skipped :
        (k : Encoder) (b : Buffer)
        → length b.after < 8
        → unchecked
            (when m.timestamp_enabled (date_time_encode_binary m.timestamp))
            (unchecked
              (when m.picoseconds_enabled (uint16_encode_binary m.picoseconds))
              (unchecked (when m.promoted_fields_enabled (encode_promoted_fields c m)) k))
            b
          ≡ k b
    unfolding unchecked when done
    late_skipped k b h = rw (timed, coarse, plain, no_room m.timestamp b h)

    middle_length : length middle_encoding ≡ 8 + length (tail_encoding c m)
    unfolding part
    middle_length =
        simp (timed, coarse, plain)
          (omega (
            arith,
            length-append (encode64 m.timestamp) (tail_encoding c m),
            length-encode64 m.timestamp,
          ))

    sizes_cut :
        calc_size_network_message c m ≡ length front_encoding + (8 + length (tail_encoding c m))
    sizes_cut =
        sym (length-network_message_encoding c m f)
        ∙ regroup (flags_encoding c m)
            (part m.publisher_id_enabled (publisher_id_encoding m.publisher_id_type m.publisher_id))
            (part m.data_set_class_id_enabled (guid_encoding m.data_set_class_id))
            (part m.group_header_enabled (group_header_encoding m.group_header))
            (part m.payload_header_enabled
              ((m.count ∷ []) ++ concat encode16 (writer_ids c m.data_set_writer_ids)))
            middle_encoding
        ∙ omega (arith, middle_length)

-- Over any codec of variants, a NetworkMessage that fits, with a timestamp but no picoseconds and no
-- promoted fields, of which fewer than eight bytes follow the timestamp, encoded into a buffer that
-- is eight bytes shorter than the size computed for it, is encoded with status good, and eight bytes
-- less than computed are appended.
pub encode_network_message-without_timestamp :
    (c : VariantCodec) (m : NetworkMessage c.Variant) (b : Buffer)
    → NetworkMessageFits c m
    → m.timestamp_enabled ≡ true
    → m.picoseconds_enabled ≡ false
    → m.promoted_fields_enabled ≡ false
    → length (tail_encoding c m) < 8
    → length b.after + 8 ≡ calc_size_network_message c m
    → ((encode_network_message c m b).0 ≡ good)
      × (length (encode_network_message c m b).1.before + 8
          ≡ length b.before + calc_size_network_message c m)
unfolding encode_network_message
encode_network_message-without_timestamp c m b f timed coarse plain short cut =
    let size = sizes_cut c m f timed coarse plain in
    let bs : List ℕ = front_encoding c m f in
    let left : length (put bs b).after ≡ length (tail_encoding c m) =
      omega (arith, size, cut, length-after_put bs b) in
    rw
      (
        (front-Leads c m f).leads _ b (omega (arith, size, cut)),
        late_skipped c m f timed coarse plain _ (put bs b) (omega (arith, left, short)),
        (tail-Writes c m f).fits (put bs b) (omega (arith, left)),
        put-put bs (tail_encoding c m) b,
      )
      (
        refl,
        omega (
          arith,
          size,
          length-append bs (tail_encoding c m),
          length-before_put (bs ++ tail_encoding c m) b,
        ),
      )
