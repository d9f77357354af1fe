-- ===== src/Message/Network/SizeLaws.antt =====
-- `UA_NetworkMessage_calcSizeBinary` is the length of what the encoder writes.
use open_pub_sub.Base.{
  take_counted, ℕ, zero, suc, ◌+◌, ◌*◌, ◌%◌, ◌^◌, ◌<◌, ◌≡◌, refl, sym, ◌∙◌, Bool, true, false, ◌&&◌,
  ltb, List, [], ◌∷◌, ◌++◌, length, length-append, take, if◌then◌else◌, arith,
}
use open_pub_sub.Binary.Writer.Writes.{part}
use open_pub_sub.Binary.Scalars.{encode16, encode64}
use open_pub_sub.Binary.Scalars.Laws.{length-encode16, length-encode32, length-encode64}
use open_pub_sub.Binary.Text.Laws.{text_encoding, length-text_encoding}
use open_pub_sub.Binary.Parts.{add_if}
use open_pub_sub.Binary.Each.{concat, sum, length-concat}
use open_pub_sub.Binary.VariantCodec.{VariantCodec}
use open_pub_sub.Message.SecurityHeader.{calc_size_security_header}
use open_pub_sub.Message.SecurityHeader.Laws.{
  security_header_encoding, length-security_header_encoding,
}
use open_pub_sub.Message.DataSet.{DataSetMessage}
use open_pub_sub.Message.DataSet.Fits.{data_set_message_encoding}
use open_pub_sub.Message.DataSet.Correct.{encoding_size}
use open_pub_sub.Message.Network.{NetworkMessage, PublisherId, message_count}
use open_pub_sub.Message.Network.Size.{
  calc_size_publisher_id, calc_size_message, calc_size_payload, calc_size_footer_and_signature,
  calc_size_rest,
}
use open_pub_sub.Message.Network.Fits.{
  PayloadFits, single, counted, NetworkMessageFits, sizes_encoding, promoted_encoding,
  payload_encoding, tail_encoding, publisher_id_encoding, timestamp_part, picoseconds_part,
  promoted_part,
}
use open_pub_sub.Message.Network.Sections.{counted_messages}

pub add_if-part :
    (b : Bool) (xs : List ℕ) (size : ℕ) {n : ℕ}
    → length xs ≡ n
    → add_if b n size ≡ size + length (part b xs)
unfolding add_if part
add_if-part true xs size e = omega (arith, e)
add_if-part false xs size e = omega arith

pub if_part :
    (b : Bool) (xs : List ℕ) (size : ℕ) {n : ℕ}
    → n ≡ size + length xs
    → (if b then n else size) ≡ size + length (part b xs)
unfolding part
if_part true xs size e = e
if_part false xs size e = omega arith

pub flags_size :
    (a b : Bool) (x y z : ℕ)
    → (if a then add_if b 1 2 else 1) ≡ length ((x ∷ []) ++ part a ((y ∷ []) ++ part b (z ∷ [])))
unfolding add_if part
flags_size true true x y z = refl
flags_size true false x y z = refl
flags_size false b x y z = refl

pub publisher_id_size :
    (type : ℕ) (id : PublisherId)
    → type < 5
    → length (publisher_id_encoding type id) ≡ calc_size_publisher_id type id
unfolding calc_size_publisher_id
publisher_id_size zero id h = refl
publisher_id_size (suc zero) id h = length-encode16 _
publisher_id_size (suc (suc zero)) id h = length-encode32 _
publisher_id_size (suc (suc (suc zero))) id h = length-encode64 _
publisher_id_size (suc (suc (suc (suc zero)))) id h = length-text_encoding _
publisher_id_size (suc (suc (suc (suc (suc n))))) id h = absurd (omega arith)

pub ids_size : (ids : List ℕ) → length (concat encode16 ids) ≡ 2 * length ids
ids_size [] = refl
ids_size (x ∷ xs) =
    omega (arith, length-append (encode16 x) (concat encode16 xs), length-encode16 x, ids_size xs)

module _ (c : VariantCodec) where
  sizes_size :
      (sizes : List ℕ) (ms : List (DataSetMessage c.Variant))
      → length (sizes_encoding c sizes ms) ≡ 2 * length ms
  unfolding sizes_encoding
  sizes_size sizes [] = refl
  sizes_size [] (m ∷ ms) = omega (
    arith,
    length-append (encode16 _) (sizes_encoding c [] ms),
    length-encode16 _,
    sizes_size [] ms,
  )
  sizes_size (s ∷ ss) (m ∷ ms) = omega (
    arith,
    length-append (encode16 _) (sizes_encoding c ss ms),
    length-encode16 _,
    sizes_size ss ms,
  )

  module _ (m : NetworkMessage c.Variant) (f : NetworkMessageFits c m) where
    pub announced_size_sum :
        (size : ℕ)
        → PayloadFits c m
        → add_if (m.payload_header_enabled && ltb 1 m.count) (2 * m.count) size
          ≡ size
            + length (
                part
                  (m.payload_header_enabled && ltb 1 m.count)
                  (sizes_encoding c m.sizes m.data_set_messages))
    unfolding add_if part
    announced_size_sum size (single off one) = rw off (omega arith)
    announced_size_sum size (counted on ids given n k p) =
        add_if-part (m.payload_header_enabled && ltb 1 m.count)
          (sizes_encoding c m.sizes m.data_set_messages) size
          (sizes_size m.sizes m.data_set_messages ∙ omega (arith, k))

    messages_size :
        (n : ℕ)
        → n ≡ length m.data_set_messages
        → sum (calc_size_message c) (take n m.data_set_messages)
          ≡ length (concat (data_set_message_encoding c) m.data_set_messages)
    messages_size n e =
        rw (take_counted e) (sym (length-concat _ _ _ (λ x g. encoding_size c x g) f.messages_fit))

    payload_size : (size : ℕ) → calc_size_payload c m size ≡ size + length (payload_encoding c m)
    unfolding calc_size_payload
    payload_size size = rw f.is_data_set (
        omega (
          arith,
          announced_size_sum size f.payload_fits,
          messages_size (message_count m) (counted_messages c m f.payload_fits),
          length-append
              (part (m.payload_header_enabled && ltb 1 m.count)
                (sizes_encoding c m.sizes m.data_set_messages))
              (concat (data_set_message_encoding c) m.data_set_messages),
        ))

    footer_size :
        (size : ℕ)
        → calc_size_footer_and_signature c m size
          ≡ size
            + length (
                part m.security_header.security_footer_enabled m.security_footer
                ++ part m.security_header.network_message_signed (text_encoding m.signature))
    unfolding calc_size_footer_and_signature
    footer_size size = omega (
      arith,
      add_if-part m.security_header.network_message_signed (text_encoding m.signature)
          (add_if m.security_header.security_footer_enabled m.security_header.security_footer_size
            size)
          (length-text_encoding m.signature),
      add_if-part m.security_header.security_footer_enabled m.security_footer size
          (sym f.footer_counted),
      length-append (part m.security_header.security_footer_enabled m.security_footer)
          (part m.security_header.network_message_signed (text_encoding m.signature)),
    )

    tail_size :
        (size : ℕ)
        → (let loaded : ℕ = calc_size_payload c m (
              if m.security_enabled
              then calc_size_security_header m.security_header size
              else size) in
            if m.security_enabled then calc_size_footer_and_signature c m loaded else loaded)
          ≡ size + length (tail_encoding c m)
    tail_size size =
        let secured : ℕ =
          if m.security_enabled then calc_size_security_header m.security_header size else size in
        let loaded : ℕ = calc_size_payload c m secured in
        let head : List ℕ = part m.security_enabled (security_header_encoding m.security_header) in
        let end : List ℕ = part m.security_enabled (
          part m.security_header.security_footer_enabled m.security_footer
          ++ part m.security_header.network_message_signed (text_encoding m.signature)) in
        omega (
          arith,
          if_part m.security_enabled (security_header_encoding m.security_header) size
              (length-security_header_encoding m.security_header f.security_fits size),
          payload_size secured,
          if_part m.security_enabled
              (part m.security_header.security_footer_enabled m.security_footer
                ++ part m.security_header.network_message_signed (text_encoding m.signature))
              loaded (footer_size loaded),
          length-append head (payload_encoding c m ++ end),
          length-append (payload_encoding c m) end,
        )

    pub promoted_size :
        length (promoted_encoding c m)
        ≡ 2 + sum c.calc_size (take m.promoted_fields_size m.promoted_fields)
    promoted_size = rw (take_counted f.promoted_counted) (
        omega (
          arith,
          length-append (encode16 (sum c.calc_size m.promoted_fields % 2 ^ 16))
              (concat c.encoding m.promoted_fields),
          length-encode16 (sum c.calc_size m.promoted_fields % 2 ^ 16),
          length-concat c.encoding c.calc_size m.promoted_fields (λ v g. c.length-encoding v g.fits)
              f.promoted_fit,
        ))

    pub rest_size :
        (size : ℕ)
        → calc_size_rest c m size
          ≡ size
            + length (
                timestamp_part c m
                ++ (picoseconds_part c m ++ (promoted_part c m ++ tail_encoding c m)))
    unfolding calc_size_rest
    rest_size size =
        let timed : ℕ = add_if m.timestamp_enabled 8 size in
        let fine : ℕ = add_if m.picoseconds_enabled 2 timed in
        let fields : ℕ = sum c.calc_size (take m.promoted_fields_size m.promoted_fields) in
        omega (
          arith,
          add_if-part m.timestamp_enabled (encode64 m.timestamp) size (length-encode64 _),
          add_if-part m.picoseconds_enabled (encode16 m.picoseconds) timed (length-encode16 _),
          add_if-part m.promoted_fields_enabled (promoted_encoding c m) fine promoted_size,
          tail_size (add_if m.promoted_fields_enabled (2 + fields) fine),
          length-append (timestamp_part c m)
              (picoseconds_part c m ++ (promoted_part c m ++ tail_encoding c m)),
          length-append (picoseconds_part c m) (promoted_part c m ++ tail_encoding c m),
          length-append (promoted_part c m) (tail_encoding c m),
        )
