-- ===== src/Message/SecurityHeader/Laws.antt =====
-- The security header: what is written, what is read back, and the bounds.
use open_pub_sub.Base.{
  ℕ, ◌+◌, ◌<◌, ◌^◌, ◌≡◌, Bool, List, [], ◌∷◌, ◌++◌, length, take, has_flag, if◌then◌else◌, arith,
}
use open_pub_sub.Binary.Writer.Writes.{Writes, >>-Writes, when-Writes, part}
use open_pub_sub.Binary.Writer.Safe.{Safe, >>-Safe, when-Safe}
use open_pub_sub.Binary.Reader.Reads.{Reads, >>=-Reads, map-Reads, Reads-eq, read_if-Reads}
use open_pub_sub.Binary.Reader.Consumes.{Consumes, >>=-Consumes, pure-Consumes, read_if-Consumes}
use open_pub_sub.Binary.Scalars.{encode16, encode32}
use open_pub_sub.Binary.Generated.Laws.{
  byte_encode_binary-Writes, uint16_encode_binary-Writes, uint32_encode_binary-Writes,
  byte_encode_binary-Safe, uint16_encode_binary-Safe, uint32_encode_binary-Safe,
  byte_decode_binary-Reads, uint16_decode_binary-Reads, uint32_decode_binary-Reads,
  byte_decode_binary-Consumes, uint16_decode_binary-Consumes, uint32_decode_binary-Consumes,
}
use open_pub_sub.Binary.Parts.{sums}
use open_pub_sub.Binary.Each.{each-Consumes}
use open_pub_sub.Binary.Bytes.{bytes-Writes, bytes-Safe, bytes-Reads}
use open_pub_sub.Message.FourFlags.{four_flags_bits}
use open_pub_sub.Message.SecurityHeader.{
  SecurityHeader, security_flags, encode_security_header, decode_security_values,
  decode_security_header, calc_size_security_header,
}

pub record SecurityHeaderFits (h : SecurityHeader) : Type 0 where
  pub security_token_id_range : h.security_token_id < 2 ^ 32
  pub nonce_counted : h.nonce_length ≡ length h.message_nonce
  pub nonce_range : h.nonce_length < 2 ^ 8
  pub security_footer_size_range : h.security_footer_size < 2 ^ 16

-- What stands behind the flags.
abbrev security_values : Bool → SecurityHeader → List ℕ
security_values footer h =
    encode32 h.security_token_id
    ++ ((h.nonce_length ∷ []) ++ (h.message_nonce ++ part footer (encode16 h.security_footer_size)))

unfoldable pub security_header_encoding : SecurityHeader → List ℕ
security_header_encoding h = (security_flags h ∷ []) ++ security_values h.security_footer_enabled h

-- A security header of four flags, with the values of `h`.
abbrev pub secured : Bool → Bool → Bool → Bool → SecurityHeader → SecurityHeader
secured a b c d h = record {
  network_message_signed = a;
  network_message_encrypted = b;
  security_footer_enabled = c;
  force_key_reset = d;
  security_token_id = h.security_token_id;
  nonce_length = h.nonce_length;
  message_nonce = h.message_nonce;
  security_footer_size = if c then h.security_footer_size else 0;
}

abbrev pub canonical_security_header : SecurityHeader → SecurityHeader
canonical_security_header h =
    secured h.network_message_signed h.network_message_encrypted h.security_footer_enabled
      h.force_key_reset h

pub security_header-Safe : (h : SecurityHeader) → Safe (encode_security_header h)
unfolding encode_security_header
security_header-Safe h = >>-Safe (byte_encode_binary-Safe _) (
    >>-Safe (uint32_encode_binary-Safe _) (
      >>-Safe (byte_encode_binary-Safe _) (
        >>-Safe (bytes-Safe (take h.nonce_length h.message_nonce))
          (when-Safe _ (uint16_encode_binary-Safe _)))))

values-Consumes : (v : ℕ) → Consumes (decode_security_values v)
unfolding decode_security_values
values-Consumes v = >>=-Consumes _ uint32_decode_binary-Consumes λ id.
    >>=-Consumes _ byte_decode_binary-Consumes λ n.
      >>=-Consumes _ (each-Consumes _ n byte_decode_binary-Consumes) λ nonce.
        >>=-Consumes _ (read_if-Consumes _ 0 uint16_decode_binary-Consumes) λ size. pure-Consumes _

pub security_header-Consumes : Consumes decode_security_header
unfolding decode_security_header
security_header-Consumes =
    >>=-Consumes decode_security_values byte_decode_binary-Consumes values-Consumes

module _ (h : SecurityHeader) (f : SecurityHeaderFits h) where
  pub security_header-Writes : Writes (encode_security_header h) (security_header_encoding h)
  unfolding encode_security_header security_header_encoding
  security_header-Writes = >>-Writes (byte_encode_binary-Writes _) (
      >>-Writes (uint32_encode_binary-Writes _) (
        >>-Writes (byte_encode_binary-Writes _) (
          >>-Writes (bytes-Writes h.nonce_length h.message_nonce f.nonce_counted)
            (when-Writes _ (uint16_encode_binary-Writes _)))))

  pub length-security_header_encoding :
      (size : ℕ) → calc_size_security_header h size ≡ size + length (security_header_encoding h)
  unfolding security_header_encoding calc_size_security_header
  length-security_header_encoding size = simp sums (omega (arith, f.nonce_counted))

  values-Reads :
      (v : ℕ)
      → Reads
          (decode_security_values v)
          (security_values (has_flag v 4) h)
          (secured (has_flag v 1) (has_flag v 2) (has_flag v 4) (has_flag v 8) h)
  unfolding decode_security_values
  values-Reads v = >>=-Reads _ (uint32_decode_binary-Reads _ f.security_token_id_range) (
      >>=-Reads _ (byte_decode_binary-Reads _) (
        >>=-Reads _ (bytes-Reads h.nonce_length h.message_nonce f.nonce_counted) (
          map-Reads _
            (read_if-Reads _ 0 (uint16_decode_binary-Reads _ f.security_footer_size_range)))))

  pub security_header-Reads :
      Reads decode_security_header (security_header_encoding h) (canonical_security_header h)
  unfolding decode_security_header security_header_encoding security_flags
  security_header-Reads =
      let (ea, eb, ec, ed) =
        four_flags_bits h.network_message_signed h.network_message_encrypted
          h.security_footer_enabled h.force_key_reset in
      >>=-Reads decode_security_values (byte_decode_binary-Reads (security_flags h)) (
        Reads-eq (λ i. security_values (ec i) h) (λ i. secured (ea i) (eb i) (ec i) (ed i) h)
          (values-Reads (security_flags h)))
