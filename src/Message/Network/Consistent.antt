-- ===== src/Message/Network/Consistent.antt =====
-- The NetworkMessages that the decoder returns: their counts are the lengths of their arrays.
use open_pub_sub.Base.{
  ◌≤◌, ◌+◌, ◌∷◌, ℕ, zero, suc, ◌<◌, ◌%◌, ◌^◌, ◌≡◌, refl, sym, ◌∙◌, Bool, true, false, ◌&&◌, not,
  ltb, ◌==◌, List, [], length, All, Option, none, if◌then◌else◌, arith, Bool-cases, inl, inr,
  ltb→lt,
}
use mathlib.Core.Bool.{true≢false}
use open_pub_sub.Binary.Reader.{Reader}
use open_pub_sub.Binary.Reader.Yields.{
  Holds, Yields, fail-Yields, pure-Yields, if-Yields, read_if-Yields, >>=-Yields, map-Yields,
  any-Yields, weaker-Yields,
}
use open_pub_sub.Binary.Text.{Text, null}
use open_pub_sub.Binary.Generated.{byte_decode_binary, uint16_decode_binary, uint32_decode_binary}
use open_pub_sub.Binary.Each.{each-Yields}
use open_pub_sub.Binary.VariantCodec.{VariantCodec}
use open_pub_sub.Message.SecurityHeader.{
  SecurityHeader, decode_security_values, decode_security_header,
}
use open_pub_sub.Message.DataSet.{DataSetMessage}
use open_pub_sub.Message.DataSet.Decode.{decode_data_set_message}
use open_pub_sub.Message.DataSet.Consistent.{Consistent, data_set_message-Yields}
use open_pub_sub.Message.Network.{NetworkMessage, PublisherId, number, message_count}
use open_pub_sub.Message.Network.Fits.{writer_ids}
use open_pub_sub.Message.Network.Decode.{
  Flags, zero_security_header, decode_publisher_id, decode_payload_header, decode_footer_from,
  decode_security_footer, decode_footer_and_signature, decode_payload, decode_sections,
  decode_flags, decode_network_message,
}

-- The message holds DataSetMessages, as many as the payload header counts or else one; the writer
-- ids, the sizes, the promoted fields, the nonce and the security footer are as many as their counts
-- say; and the publisher id is of a type that has a name.
pub record NetworkMessageConsistent (c : VariantCodec) (m : NetworkMessage c.Variant) : Type 0 where
  pub is_data_set : m.network_message_type ≡ 0
  pub publisher_id_named : m.publisher_id_enabled ≡ true → m.publisher_id_type < 5
  pub ids_counted : length (writer_ids c m.data_set_writer_ids) ≡ m.count
  pub messages_counted : length m.data_set_messages ≡ message_count m
  pub messages_consistent : All Consistent m.data_set_messages
  pub sizes_counted : (m.payload_header_enabled && ltb 1 m.count) ≡ true → length m.sizes ≡ m.count
  pub promoted_counted : m.promoted_fields_size ≡ length m.promoted_fields % 2 ^ 16
  pub nonce_counted : length m.security_header.message_nonce ≡ m.security_header.nonce_length
  pub footer_counted :
      m.security_enabled ≡ true
      → m.security_header.security_footer_enabled ≡ true
      → (length m.security_footer ≡ m.security_header.security_footer_size)
        × (m.security_header.security_footer_size < 256)

-- The counter never passes the size, and a counter that starts again never reaches it.
footer_from-Yields :
    (fuel i size : ℕ)
    → i < 256
    → i ≤ size
    → Yields (λ footer. (i + length footer ≡ size) × (size < 256)) (decode_footer_from fuel i size)
unfolding decode_footer_from
footer_from-Yields zero i size h k = fail-Yields _
footer_from-Yields (suc fuel) i size h k = elim (Bool-cases (ltb i size)) [
  | inl p ↦
      let below = ltb→lt i size p in
      rw p (
        >>=-Yields (any-Yields _) (λ v _.
          >>=-Yields
            (footer_from-Yields fuel ((i + 1) % 2 ^ 8) size (omega arith) (omega (arith, below)))
            (λ vs g. pure-Yields (v ∷ vs) (omega (arith, g.0, g.1, below, h), g.1))))
  | inr p ↦
      let above : i ≡ size = ground arith in
      rw p (pure-Yields [] (omega (arith, above), omega (arith, above, h)))
]

footer-Yields :
    (size : ℕ)
    → Yields (λ footer. (length footer ≡ size) × (size < 256)) (decode_security_footer size)
unfolding decode_security_footer
footer-Yields size = record {
  yields = λ input.
      Yields.yields
        (weaker-Yields (λ footer h. (omega (arith, h.0), h.1))
          (footer_from-Yields (suc (length input)) 0 size (omega arith) (omega arith)))
        input;
}

FooterCounted : SecurityHeader → List ℕ × Text → Type 0
FooterCounted h (footer, signature) =
    h.security_footer_enabled ≡ true
    → (length footer ≡ h.security_footer_size) × (h.security_footer_size < 256)

footer_and_signature-Yields :
    (h : SecurityHeader) → Yields (FooterCounted h) (decode_footer_and_signature h)
unfolding decode_footer_and_signature FooterCounted
footer_and_signature-Yields h =
    >>=-Yields
      {P = λ footer.
        h.security_footer_enabled ≡ true
        → (length footer ≡ h.security_footer_size) × (h.security_footer_size < 256)}
      (read_if-Yields (h.security_footer_enabled && ltb 0 h.security_footer_size) []
        (λ on. weaker-Yields (λ footer k _. k) (footer-Yields h.security_footer_size))
        (λ off on. no_footer h.security_footer_enabled h.security_footer_size off on))
      (λ footer k. map-Yields _ (any-Yields _) (λ signature _. k))
  where
    no_footer :
        (b : Bool) (size : ℕ) → (b && ltb 0 size) ≡ false → b ≡ true → (0 ≡ size) × (size < 256)
    no_footer b size off on = ground arith

NonceCounted : SecurityHeader → Type 0
NonceCounted h = length h.message_nonce ≡ h.nonce_length

security_header-Yields : Yields NonceCounted decode_security_header
unfolding decode_security_header decode_security_values NonceCounted
security_header-Yields = >>=-Yields (any-Yields byte_decode_binary) λ v _.
    >>=-Yields (any-Yields uint32_decode_binary) λ id _.
      >>=-Yields (any-Yields byte_decode_binary) λ n _.
        >>=-Yields (each-Yields byte_decode_binary n (any-Yields byte_decode_binary))
          λ nonce h. map-Yields _ (any-Yields _) λ size _. h.0

publisher_id-Yields : (type : ℕ) → Yields (λ id. type < 5) (decode_publisher_id type)
unfolding decode_publisher_id
publisher_id-Yields type =
    if-Yields (type == 0) (λ e. named _ (ground arith))
      λ _.
        if-Yields (type == 1) (λ e. named _ (ground arith))
          λ _.
            if-Yields (type == 2) (λ e. named _ (ground arith))
              λ _.
                if-Yields (type == 3) (λ e. named _ (ground arith))
                  λ _. if-Yields (type == 4) (λ e. named _ (ground arith)) λ _. fail-Yields _
  where
    named : (d : Reader PublisherId) → type < 5 → Yields (λ id. type < 5) d
    named d h = weaker-Yields (λ id _. h) (any-Yields d)

module _ (c : VariantCodec) where
  IdsCounted : ℕ × Option (List ℕ) → Type 0
  IdsCounted (count, ids) = length (writer_ids c ids) ≡ count

  payload_header-Yields : (type : ℕ) → Yields IdsCounted (decode_payload_header type)
  unfolding decode_payload_header IdsCounted
  payload_header-Yields type =
      if-Yields (not (type == 0)) (λ _. fail-Yields _)
        λ _. >>=-Yields (any-Yields byte_decode_binary) λ count _.
          map-Yields _ (each-Yields uint16_decode_binary count (any-Yields _)) λ ids h. h.0

  record PayloadCounted (flags : Flags) (counted : ℕ)
      (payload : List ℕ × List (DataSetMessage c.Variant)) : Type 0 where
    pub is_data_set : flags.network_message_type ≡ 0
    pub sizes : (flags.payload_header_enabled && ltb 1 counted) ≡ true → length payload.0 ≡ counted
    pub messages : length payload.1 ≡ (if flags.payload_header_enabled then counted else 1)
    pub consistent : All Consistent payload.1

  payload-Yields :
      (flags : Flags) (counted : ℕ)
      → Yields (PayloadCounted flags counted) (decode_payload c flags counted)
  unfolding decode_payload
  payload-Yields flags counted =
      if-Yields (not (flags.network_message_type == 0)) (λ _. fail-Yields _)
        λ t.
          >>=-Yields
            {P = λ sizes.
              (flags.payload_header_enabled && ltb 1 counted) ≡ true → length sizes ≡ counted}
            (read_if-Yields _ []
              (λ on.
                weaker-Yields (λ sizes h _. h.0)
                  (each-Yields uint16_decode_binary counted (any-Yields _)))
              (λ off on. absurd (true≢false (sym on ∙ off))))
            λ sizes s.
              map-Yields _ (each-Yields (decode_data_set_message c) _ (data_set_message-Yields c))
                λ messages h. record {
                  is_data_set = ground arith;
                  sizes = s;
                  messages = h.0;
                  consistent = h.1;
                }

  sections-Yields : (flags : Flags) → Yields (NetworkMessageConsistent c) (decode_sections c flags)
  unfolding decode_sections FooterCounted NonceCounted IdsCounted
  sections-Yields flags =
      >>=-Yields {P = λ id. flags.publisher_id_enabled ≡ true → flags.publisher_id_type < 5}
        (read_if-Yields _ (number 0)
          (λ on. weaker-Yields (λ id h _. h) (publisher_id-Yields flags.publisher_id_type))
          (λ off on. absurd (true≢false (sym on ∙ off))))
        λ id named. >>=-Yields (any-Yields _) λ class_id _.
          >>=-Yields (any-Yields _) λ group_header _.
            >>=-Yields {P = IdsCounted}
              (read_if-Yields _ (0, none) (λ _. payload_header-Yields flags.network_message_type)
                (λ _. refl))
              λ header ids. >>=-Yields (any-Yields _) λ timestamp _.
                >>=-Yields (any-Yields _) λ picoseconds _. >>=-Yields (any-Yields _) λ promoted _.
                  >>=-Yields {P = NonceCounted}
                    (read_if-Yields _ zero_security_header (λ _. security_header-Yields)
                      (λ _. refl))
                    λ security nonce. >>=-Yields (payload-Yields flags header.0) λ payload counted.
                      map-Yields
                        {P = λ end. flags.security_enabled ≡ true → FooterCounted security end} _
                        (read_if-Yields _ ([], null)
                          (λ on.
                            weaker-Yields (λ end h _. h) (footer_and_signature-Yields security))
                          (λ off on. absurd (true≢false (sym on ∙ off))))
                        λ end footer. record {
                          is_data_set = counted.is_data_set;
                          publisher_id_named = named;
                          ids_counted = ids;
                          messages_counted = counted.messages;
                          messages_consistent = counted.consistent;
                          sizes_counted = counted.sizes;
                          promoted_counted = refl;
                          nonce_counted = nonce;
                          footer_counted = footer;
                        }

  network_message-Yields : Yields (NetworkMessageConsistent c) (decode_network_message c)
  unfolding decode_network_message
  network_message-Yields = >>=-Yields (any-Yields decode_flags) (λ flags _. sections-Yields flags)

-- Over any codec of variants, whatever the input is, a NetworkMessage that is decoded with success
-- is consistent: it is of the DataSet type with a publisher id of a named type where there is one,
-- its counts are the lengths of its arrays, and so are those of each of its DataSetMessages that is
-- in a named encoding.
pub decode_network_message-Consistent :
    (c : VariantCodec) (input : List ℕ)
    → Holds (NetworkMessageConsistent c) (decode_network_message c input)
decode_network_message-Consistent c input = (network_message-Yields c).yields input
