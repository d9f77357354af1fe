-- ===== src/Message/Network/Reading/Front.antt =====
-- What `UA_NetworkMessage_decodeBinaryInternal` reads of the flags, and of the security footer and
-- the signature.
use open_pub_sub.Base.{
  ℕ, ◌/◌, ◌^◌, ◌≡◌, refl, Bool, true, false, has_flag, bit_and, [], ◌∷◌, ◌++◌, if◌then◌else◌, arith,
}
use open_pub_sub.Binary.Reader.{read_if}
use open_pub_sub.Binary.Reader.Reads.{
  Reads, >>=-Reads, map-Reads, Reads-eq, read_if-Reads, pure-Reads,
}
use open_pub_sub.Binary.Writer.Writes.{part}
use open_pub_sub.Binary.Text.{null}
use open_pub_sub.Binary.Text.Laws.{text_encoding, canonical_text}
use open_pub_sub.Binary.Generated.Laws.{byte_decode_binary-Reads, text_decode_binary-Reads}
use open_pub_sub.Binary.VariantCodec.{VariantCodec}
use open_pub_sub.Message.SecurityHeader.Laws.{canonical_security_header}
use open_pub_sub.Message.Network.{NetworkMessage, extended_flags1_enabled, extended_flags2_enabled}
use open_pub_sub.Message.Network.Encode.{uadp_flags, extended_flags1, extended_flags2}
use open_pub_sub.Message.Network.Fits.{NetworkMessageFits, flags_encoding}
use open_pub_sub.Message.Network.Decode.{
  zero_security_header, decode_extended_flags2, decode_extended_flags1, flags_of_bytes,
  decode_flags, decode_footer_and_signature,
}
use open_pub_sub.Message.Network.FlagBits.{
  uadp_flags_bits, extended_flags1_bits, extended_flags2_bits,
}
use open_pub_sub.Message.Network.Canonical.{NetworkMessageInRange, flags_of}
use open_pub_sub.Message.Network.Reading.{optional_footer-Reads}

module _ (c : VariantCodec) where
  module _ (m : NetworkMessage c.Variant) (f : NetworkMessageFits c m)
      (r : NetworkMessageInRange c m) where
    flags2-Reads :
        Reads decode_extended_flags2
          (extended_flags2 m ∷ [])
          (m.network_message_type, m.chunk_message, m.promoted_fields_enabled)
    unfolding decode_extended_flags2
    flags2-Reads =
        let (e28, e1, e2) = extended_flags2_bits m (omega (arith, f.is_data_set)) in
        Reads-eq refl (λ i. (e28 i, e1 i, e2 i))
          (map-Reads (λ v. (bit_and v 28 / 2 ^ 2, has_flag v 1, has_flag v 2))
            (byte_decode_binary-Reads (extended_flags2 m)))

    flags2_value :
        let there : ℕ × Bool × Bool =
          (m.network_message_type, m.chunk_message, m.promoted_fields_enabled) in
        (if extended_flags2_enabled m then there else (0, false, false)) ≡ there
    unfolding extended_flags2_enabled
    flags2_value = ground arith

    abbrev flags1 : ℕ × Bool × Bool × Bool × Bool × (ℕ × Bool × Bool)
    flags1 = (
      m.publisher_id_type,
      m.data_set_class_id_enabled,
      m.security_enabled,
      m.timestamp_enabled,
      m.picoseconds_enabled,
      (m.network_message_type, m.chunk_message, m.promoted_fields_enabled),
    )

    flags1-Reads :
        Reads decode_extended_flags1
          ((extended_flags1 m ∷ []) ++ part (extended_flags2_enabled m) (extended_flags2 m ∷ []))
          flags1
    unfolding decode_extended_flags1
    flags1-Reads =
        let v : ℕ = extended_flags1 m in
        let (e7, e8, e16, e32, e64, e128) =
          extended_flags1_bits m (omega (arith, f.publisher_id_fits.named)) in
        >>=-Reads _ (byte_decode_binary-Reads v) (
          Reads-eq refl (λ i. (e7 i, e8 i, e16 i, e32 i, e64 i, flags2_value i))
            (map-Reads
              (λ flags2.
                (bit_and v 7, has_flag v 8, has_flag v 16, has_flag v 32, has_flag v 64, flags2))
              (rw e128 (read_if-Reads (extended_flags2_enabled m) (0, false, false) flags2-Reads))))

    flags1_value :
        (if extended_flags1_enabled m
          then flags1
          else (0, false, false, false, false, (0, false, false)))
        ≡ flags1
    unfolding extended_flags1_enabled extended_flags2_enabled
    flags1_value = ground arith

    optional_flags1-Reads :
        Reads
          (read_if
            (has_flag (uadp_flags m) 128)
            decode_extended_flags1
            (0, false, false, false, false, (0, false, false)))
          (part
            (extended_flags1_enabled m)
            ((extended_flags1 m ∷ []) ++ part (extended_flags2_enabled m) (extended_flags2 m ∷ [])))
          flags1
    optional_flags1-Reads = rw ((uadp_flags_bits m r.version_bits).4) (
        Reads-eq refl flags1_value (
          read_if-Reads (extended_flags1_enabled m)
            (0, false, false, false, false, (0, false, false)) flags1-Reads))

    pub flags-Reads : Reads decode_flags (flags_encoding c m) (flags_of c m)
    unfolding decode_flags
    flags-Reads =
        let (e15, e16, e32, e64, e128) = uadp_flags_bits m r.version_bits in
        >>=-Reads _ (byte_decode_binary-Reads (uadp_flags m)) (
          Reads-eq refl
            (λ i. record (flags_of c m) {
              version = e15 i;
              publisher_id_enabled = e16 i;
              group_header_enabled = e32 i;
              payload_header_enabled = e64 i;
            })
            (map-Reads (flags_of_bytes (uadp_flags m)) optional_flags1-Reads))

  pub footer_and_signature-Reads :
      (m : NetworkMessage c.Variant) (on : Bool)
      → NetworkMessageFits c m
      → Reads
          (read_if on
            (decode_footer_and_signature
              (if on then canonical_security_header m.security_header else zero_security_header))
            ([], null))
          (part on (
            part m.security_header.security_footer_enabled m.security_footer
            ++ part m.security_header.network_message_signed (text_encoding m.signature)))
          (if on
            then (
              (if m.security_header.security_footer_enabled then m.security_footer else []),
              (if m.security_header.network_message_signed
                  then canonical_text m.signature
                  else null),
            )
            else ([], null))
  unfolding read_if part decode_footer_and_signature
  footer_and_signature-Reads m true f =
      >>=-Reads _
        (optional_footer-Reads m.security_header.security_footer_enabled
          m.security_header.security_footer_size m.security_footer f.footer_range f.footer_counted)
        (map-Reads _ (read_if-Reads _ null (text_decode_binary-Reads m.signature f.signature_fits)))
  footer_and_signature-Reads m false f = pure-Reads _
