-- ===== src/Tests/Codec.antt =====
-- A codec of two kinds of variants, a missing one and a UInt32, on which the examples run.
use open_pub_sub.Base.{
  ℕ, zero, suc, ◌<◌, ◌^◌, ◌≡◌, refl, Option, none, some, List, [], ◌∷◌, ◌++◌, length, arith,
}
use open_pub_sub.Binary.Writer.{Encoder, ◌>>◌}
use open_pub_sub.Binary.Writer.Writes.{Writes, >>-Writes}
use open_pub_sub.Binary.Writer.Safe.{Safe, >>-Safe}
use open_pub_sub.Binary.Reader.{Reader, pure, ◌>>=◌}
use open_pub_sub.Binary.Reader.Reads.{Reads, >>=-Reads, map-Reads, pure-Reads}
use open_pub_sub.Binary.Scalars.{encode_byte, encode_uint32, decode_byte, decode_uint32, encode32}
use open_pub_sub.Binary.Scalars.Laws.{
  byte-Writes, uint32-Writes, byte-Safe, uint32-Safe, byte-Reads, uint32-Reads, length-encode32,
}
use open_pub_sub.Binary.VariantCodec.{VariantCodec}

abbrev InRange : Option ℕ → Type 0
InRange none = Unit
InRange (some n) = n < 2 ^ 32

abbrev encode_option : Option ℕ → Encoder
encode_option none = encode_byte 0
encode_option (some n) = encode_byte 7 >> encode_uint32 n

abbrev decode_typed : ℕ → Reader (Option ℕ)
decode_typed zero = pure none
decode_typed (suc t) = decode_uint32 >>= λ n. pure (some n)

abbrev option_encoding : Option ℕ → List ℕ
option_encoding none = 0 ∷ []
option_encoding (some n) = (7 ∷ []) ++ encode32 n

abbrev option_size : Option ℕ → ℕ
option_size none = 1
option_size (some n) = 5

pub option-Writes : (v : Option ℕ) → InRange v → Writes (encode_option v) (option_encoding v)
option-Writes none h = byte-Writes 0
option-Writes (some n) h = >>-Writes (byte-Writes 7) (uint32-Writes n)

pub option-Safe : (v : Option ℕ) → InRange v → Safe (encode_option v)
option-Safe none h = byte-Safe 0
option-Safe (some n) h = >>-Safe (byte-Safe 7) (uint32-Safe n)

pub option-Reads :
    (v : Option ℕ) → InRange v → Reads (decode_byte >>= decode_typed) (option_encoding v) v
option-Reads none h = >>=-Reads decode_typed (byte-Reads 0) (pure-Reads none)
option-Reads (some n) h =
    >>=-Reads decode_typed (byte-Reads 7) (map-Reads (λ m. some m) (uint32-Reads n h))

pub option-NonEmpty : (v : Option ℕ) → InRange v → 0 < length (option_encoding v)
option-NonEmpty none h = omega arith
option-NonEmpty (some n) h = omega arith

pub length-option_encoding : (v : Option ℕ) → InRange v → length (option_encoding v) ≡ option_size v
length-option_encoding none h = refl
length-option_encoding (some n) h = omega (arith, length-encode32 n)

abbrev pub option_codec : VariantCodec
option_codec = record {
  Variant = Option ℕ;
  empty = none;
  encode = encode_option;
  decode = λ depth. decode_byte >>= decode_typed;
  calc_size = option_size;
  Fits = InRange;
  encoding = option_encoding;
  canonical = λ v. v;
  encode-Writes = option-Writes;
  encode-Safe = option-Safe;
  decode-Reads = λ depth v h f. option-Reads v f;
  encoding-NonEmpty = option-NonEmpty;
  length-encoding = length-option_encoding;
}
