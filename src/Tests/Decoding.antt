-- ===== src/Tests/Decoding.antt =====
-- The theorem about every decoded NetworkMessage at a concrete input.
use open_pub_sub.Base.{ℕ, List, [], ◌∷◌}
use open_pub_sub.Binary.Reader.Yields.{Holds}
use open_pub_sub.Message.Network.Decode.{decode_network_message}
use open_pub_sub.Message.Network.Consistent.{
  NetworkMessageConsistent, decode_network_message-Consistent,
}
use open_pub_sub.Tests.Codec.{option_codec}

-- One message with a payload header, whose id is 7; the message is a keep-alive.
abbrev bytes : List ℕ
bytes = 65 ∷ 1 ∷ 7 ∷ 0 ∷ 129 ∷ 3 ∷ 99 ∷ []

decode_network_message-Consistent_example :
    Holds (NetworkMessageConsistent option_codec) (decode_network_message option_codec bytes)
decode_network_message-Consistent_example = decode_network_message-Consistent option_codec bytes
