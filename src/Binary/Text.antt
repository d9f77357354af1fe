-- ===== src/Binary/Text.antt =====
-- Arrays of bytes: `Array_encodeBinary`, `Array_decodeBinary` and `Array_calcSizeBinary` of
-- openPubSub/ua_pubsub/ua_types_encoding_binary.c at the element type Byte, which String,
-- ByteString and XmlElement are.
pub mod Laws
pub mod Correct
use open_pub_sub.Base.{
  ℕ, ◌+◌, ◌-◌, ◌/◌, ◌^◌, Bool, true, false, List, [], length, take, ltb, leb, ◌==◌, if◌then◌else◌,
}
use open_pub_sub.Binary.Status.{good, bad_internal_error, bad_decoding_error}
use open_pub_sub.Binary.Writer.{
  Buffer, Encoder, put, fail, ◌>>◌, when, exchange_buffer, encode_with_exchange_buffer,
}
use open_pub_sub.Binary.Reader
use open_pub_sub.Binary.Reader.{Reader, err, pure, ◌>>=◌, read_bytes}
use open_pub_sub.Binary.Scalars.{encode_uint32, decode_uint32}

-- A `UA_String`: its `data` is NULL, the sentinel of an empty array, or a pointer to the bytes.
pub data Text : Type 0 where
  null : Text
  empty_sentinel : Text
  chars : List ℕ → Text

abbrev pub text_bytes : Text → List ℕ
text_bytes null = []
text_bytes empty_sentinel = []
text_bytes (chars bs) = bs

abbrev pub is_sentinel : Text → Bool
is_sentinel empty_sentinel = true
is_sentinel _ = false

abbrev pub int32_max : ℕ
int32_max = 2 ^ 31 - 1

-- `signed_length`, as the bit pattern of an int32: -1 for an array that is not there.
unfoldable pub signed_length : ℕ → Bool → ℕ
signed_length n sentinel = if ltb 0 n then n else if sentinel then 0 else 2 ^ 32 - 1

-- The loop ends at its first round, since `exchange_buffer` fails without a callback: the bytes
-- that still fit are copied before.
unfoldable pub encode_overlayable : List ℕ → Encoder
unfolding put exchange_buffer
encode_overlayable bs b =
    if ltb (length b.after) (length bs)
    then exchange_buffer (put (take (length b.after) bs) b)
    else (good, put bs b)

unfoldable pub encode_array : ℕ → Bool → Encoder → Encoder
unfolding signed_length ◌>>◌ when fail encode_with_exchange_buffer encode_uint32
encode_array n sentinel content =
    if ltb int32_max n
    then fail bad_internal_error
    else encode_with_exchange_buffer (encode_uint32 (signed_length n sentinel))
      >> when (ltb 0 n) content

unfoldable pub encode_text : Text → Encoder
unfolding encode_array encode_overlayable
encode_text t =
    encode_array (length (text_bytes t)) (is_sentinel t) (encode_overlayable (text_bytes t))

-- `if(ctx->pos + n > ctx->end) return BADDECODINGERROR;`
unfoldable pub ensure {ℓ} : {A : Type ℓ} → ℕ → Reader A → Reader A
ensure n d input = if ltb (length input) n then err bad_decoding_error input else d input

-- The elements of an array, by their number.
unfoldable pub decode_content : ℕ → Reader Text
unfolding pure ◌>>=◌ read_bytes
decode_content n = read_bytes n >>= λ bs. pure (chars bs)

-- An array of `n` elements, as the length field gives it; an element takes one byte in memory.
unfoldable pub decode_elements : ℕ → Reader Text
unfolding pure ensure decode_content
decode_elements n =
    if n == 0
    then pure empty_sentinel
    else if leb (2 ^ 31) n
    then pure null
    else ensure (n / 32) (decode_content n)

unfoldable pub decode_text : Reader Text
unfolding ◌>>=◌ decode_elements decode_uint32
decode_text = decode_uint32 >>= decode_elements

unfoldable pub calc_size_text : Text → ℕ
calc_size_text t = 4 + length (text_bytes t)
