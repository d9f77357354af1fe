-- ===== src/Binary/Scalars.antt =====
-- The encoders, decoders and sizes of booleans and unsigned integers in
-- openPubSub/ua_pubsub/ua_types_encoding_binary.c. A C integer is a number below 2 ^ width.
pub mod Laws
use open_pub_sub.Base.{
  ℕ, ◌+◌, ◌*◌, ◌/◌, ◌%◌, ◌^◌, Bool, true, false, List, [], ◌∷◌, get_or, ltb, bit,
}
use open_pub_sub.Binary.Writer.{Encoder, write}
use open_pub_sub.Binary.Reader.{Reader, pure, ◌>>=◌, read_bytes}

-- The bytes of an integer in memory, lowest first.
unfoldable pub encode16 : ℕ → List ℕ
encode16 v = (v % 256) ∷ (v / 2 ^ 8 % 256) ∷ []

unfoldable pub decode16 : List ℕ → ℕ
decode16 buf = (get_or buf 0 0 + get_or buf 1 0 * 2 ^ 8) % 2 ^ 16

unfoldable pub encode32 : ℕ → List ℕ
encode32 v = (v % 256) ∷ (v / 2 ^ 8 % 256) ∷ (v / 2 ^ 16 % 256) ∷ (v / 2 ^ 24 % 256) ∷ []

unfoldable pub decode32 : List ℕ → ℕ
decode32 buf =
    (get_or buf 0 0 + get_or buf 1 0 * 2 ^ 8 + get_or buf 2 0 * 2 ^ 16 + get_or buf 3 0 * 2 ^ 24)
    % 2 ^ 32

unfoldable pub encode64 : ℕ → List ℕ
encode64 v =
    (v % 256)
    ∷ (v / 2 ^ 8 % 256)
    ∷ (v / 2 ^ 16 % 256)
    ∷ (v / 2 ^ 24 % 256)
    ∷ (v / 2 ^ 32 % 256)
    ∷ (v / 2 ^ 40 % 256)
    ∷ (v / 2 ^ 48 % 256)
    ∷ (v / 2 ^ 56 % 256)
    ∷ []

unfoldable pub decode64 : List ℕ → ℕ
decode64 buf =
    (get_or buf 0 0
      + get_or buf 1 0 * 2 ^ 8
      + get_or buf 2 0 * 2 ^ 16
      + get_or buf 3 0 * 2 ^ 24
      + get_or buf 4 0 * 2 ^ 32
      + get_or buf 5 0 * 2 ^ 40
      + get_or buf 6 0 * 2 ^ 48
      + get_or buf 7 0 * 2 ^ 56)
    % 2 ^ 64

unfoldable pub encode_boolean : Bool → Encoder
unfolding write
encode_boolean c = write (bit c ∷ [])

unfoldable pub decode_boolean : Reader Bool
unfolding pure ◌>>=◌ read_bytes
decode_boolean = read_bytes 1 >>= λ buf. pure (ltb 0 (get_or buf 0 0))

unfoldable pub encode_byte : ℕ → Encoder
unfolding write
encode_byte v = write (v ∷ [])

unfoldable pub decode_byte : Reader ℕ
unfolding pure ◌>>=◌ read_bytes
decode_byte = read_bytes 1 >>= λ buf. pure (get_or buf 0 0)

unfoldable pub encode_uint16 : ℕ → Encoder
unfolding write encode16
encode_uint16 v = write (encode16 v)

unfoldable pub decode_uint16 : Reader ℕ
unfolding pure ◌>>=◌ read_bytes decode16
decode_uint16 = read_bytes 2 >>= λ buf. pure (decode16 buf)

unfoldable pub encode_uint32 : ℕ → Encoder
unfolding write encode32
encode_uint32 v = write (encode32 v)

unfoldable pub decode_uint32 : Reader ℕ
unfolding pure ◌>>=◌ read_bytes decode32
decode_uint32 = read_bytes 4 >>= λ buf. pure (decode32 buf)

unfoldable pub encode_uint64 : ℕ → Encoder
unfolding write encode64
encode_uint64 v = write (encode64 v)

unfoldable pub decode_uint64 : Reader ℕ
unfolding pure ◌>>=◌ read_bytes decode64
decode_uint64 = read_bytes 8 >>= λ buf. pure (decode64 buf)

-- The sizes do not depend on the value.
abbrev pub calc_size_binary1 : ℕ
calc_size_binary1 = 1

abbrev pub calc_size_binary2 : ℕ
calc_size_binary2 = 2

abbrev pub calc_size_binary4 : ℕ
calc_size_binary4 = 4

abbrev pub calc_size_binary8 : ℕ
calc_size_binary8 = 8
