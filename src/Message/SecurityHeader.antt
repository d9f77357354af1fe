-- ===== src/Message/SecurityHeader.antt =====
-- The security header of a NetworkMessage: `UA_NetworkMessageSecurityHeader` of
-- openPubSub/ua_pubsub/ua_pubsub_networkmessage.h, with its parts of
-- `UA_NetworkMessage_encodeBinary`, `_decodeBinaryInternal` and `_calcSizeBinary`.
pub mod Laws
pub mod Correct
use open_pub_sub.Base.{ℕ, ◌+◌, Bool, List, has_flag, take}
use open_pub_sub.Binary.Writer.{Encoder, ◌>>◌, when}
use open_pub_sub.Binary.Reader.{Reader, pure, read_if, ◌>>=◌}
use open_pub_sub.Binary.Scalars.{calc_size_binary1, calc_size_binary2, calc_size_binary4}
use open_pub_sub.Binary.Generated.{
  byte_encode_binary, uint16_encode_binary, uint32_encode_binary, byte_decode_binary,
  uint16_decode_binary, uint32_decode_binary,
}
use open_pub_sub.Binary.Each.{encode_each, decode_each}
use open_pub_sub.Binary.Parts.{add_if}
use open_pub_sub.Message.FourFlags.{four_flags}

-- The bytes of `messageNonce` are a list; its length is counted by `nonceLength` alone.
pub record SecurityHeader : Type 0 where
  pub network_message_signed : Bool
  pub network_message_encrypted : Bool
  pub security_footer_enabled : Bool
  pub force_key_reset : Bool
  pub security_token_id : ℕ
  pub nonce_length : ℕ
  pub message_nonce : List ℕ
  pub security_footer_size : ℕ

unfoldable pub security_flags : SecurityHeader → ℕ
security_flags h =
    four_flags h.network_message_signed h.network_message_encrypted h.security_footer_enabled
      h.force_key_reset

unfoldable pub encode_security_header : SecurityHeader → Encoder
encode_security_header h =
    byte_encode_binary (security_flags h)
    >> uint32_encode_binary h.security_token_id
    >> byte_encode_binary h.nonce_length
    >> encode_each byte_encode_binary (take h.nonce_length h.message_nonce)
    >> when h.security_footer_enabled (uint16_encode_binary h.security_footer_size)

-- The values behind the byte of flags. A nonce of length zero is not allocated, and stays empty.
unfoldable pub decode_security_values : ℕ → Reader SecurityHeader
decode_security_values v = do
  security_token_id ← uint32_decode_binary
  nonce_length ← byte_decode_binary
  message_nonce ← decode_each byte_decode_binary nonce_length
  security_footer_size ← read_if (has_flag v 4) uint16_decode_binary 0
  pure (record {
    network_message_signed = has_flag v 1;
    network_message_encrypted = has_flag v 2;
    security_footer_enabled = has_flag v 4;
    force_key_reset = has_flag v 8;
    security_token_id = security_token_id;
    nonce_length = nonce_length;
    message_nonce = message_nonce;
    security_footer_size = security_footer_size;
  })

unfoldable pub decode_security_header : Reader SecurityHeader
decode_security_header = byte_decode_binary >>= decode_security_values

-- `if(p->securityHeader.nonceLength > 0) size += 1 * nonceLength` adds nothing for a length of zero.
unfoldable pub calc_size_security_header : SecurityHeader → ℕ → ℕ
calc_size_security_header h size =
    add_if h.security_footer_enabled calc_size_binary2
      (size + calc_size_binary1 + calc_size_binary4 + calc_size_binary1 + h.nonce_length)
