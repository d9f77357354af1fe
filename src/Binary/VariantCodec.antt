-- ===== src/Binary/VariantCodec.antt =====
-- What the messages use of a Variant: the interface of `Variant_encodeBinary`,
-- `Variant_decodeBinary` and `Variant_calcSizeBinary` of
-- openPubSub/ua_pubsub/ua_types_encoding_binary.c.
use open_pub_sub.Base.{ℕ, ◌≤◌, ◌<◌, ◌≡◌, List, length}
use open_pub_sub.Binary.Writer.{Encoder}
use open_pub_sub.Binary.Writer.Writes.{Writes}
use open_pub_sub.Binary.Writer.Safe.{Safe}
use open_pub_sub.Binary.Reader.{Reader}
use open_pub_sub.Binary.Reader.Reads.{Reads}

-- The decoder takes the nesting depth at which it starts. `Fits` says which values can be encoded,
-- and `canonical` what comes back of one. The laws are about those values alone: nothing is assumed of
-- the decoder on other bytes.
pub record VariantCodec : Type 1 where
  pub Variant : Type 0
  pub empty : Variant
  pub encode : Variant → Encoder
  pub decode : ℕ → Reader Variant
  pub calc_size : Variant → ℕ
  pub Fits : Variant → Type 0
  pub encoding : Variant → List ℕ
  pub canonical : Variant → Variant
  pub encode-Writes : (v : Variant) → Fits v → Writes (encode v) (encoding v)
  pub encode-Safe : (v : Variant) → Fits v → Safe (encode v)
  pub decode-Reads :
      (depth : ℕ) (v : Variant)
      → depth ≤ 1
      → Fits v
      → Reads (decode depth) (encoding v) (canonical v)
  pub encoding-NonEmpty : (v : Variant) → Fits v → 0 < length (encoding v)
  pub length-encoding : (v : Variant) → Fits v → length (encoding v) ≡ calc_size v
