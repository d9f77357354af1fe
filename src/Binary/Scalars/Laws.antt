-- ===== src/Binary/Scalars/Laws.antt =====
-- Booleans and integers: what is written, what is read back, and the bounds of both.
use open_pub_sub.Base.{
  ℕ, ◌<◌, ◌^◌, ◌≡◌, refl, Bool, List, [], ◌∷◌, length, bit, arith, append-nil, ltb, get_or,
}
use open_pub_sub.Binary.Writer.Writes.{Writes, write-Writes}
use open_pub_sub.Binary.Writer.Safe.{Safe, write-Safe}
use open_pub_sub.Binary.Reader.{pure, ◌>>=◌, read_bytes}
use open_pub_sub.Binary.Reader.Reads.{Reads, >>=-Reads, pure-Reads, read_bytes-Reads}
use open_pub_sub.Binary.Reader.Consumes.{Consumes, >>=-Consumes, pure-Consumes, read_bytes-Consumes}
use open_pub_sub.Binary.Scalars.{
  encode16, decode16, encode32, decode32, encode64, decode64, encode_boolean, decode_boolean,
  encode_byte, decode_byte, encode_uint16, decode_uint16, encode_uint32, decode_uint32,
  encode_uint64, decode_uint64,
}

-- Reading a fixed number of bytes and converting them.
read_fixed-Reads {ℓ} :
    {A : Type ℓ} (f : List ℕ → A) (bs : List ℕ) {a : A}
    → f bs ≡ a
    → Reads (read_bytes (length bs) >>= λ buf. pure (f buf)) bs a
read_fixed-Reads f bs e = rw (← e) (
    rw (append-nil bs) at
      (>>=-Reads (λ buf. pure (f buf)) (read_bytes-Reads bs) (pure-Reads (f bs))))

read_fixed-Consumes {ℓ} :
    {A : Type ℓ} (f : List ℕ → A) (n : ℕ) → Consumes (read_bytes n >>= λ buf. pure (f buf))
read_fixed-Consumes f n =
    >>=-Consumes (λ buf. pure (f buf)) (read_bytes-Consumes n) (λ buf. pure-Consumes (f buf))

pub decode16-encode16 : (v : ℕ) → v < 2 ^ 16 → decode16 (encode16 v) ≡ v
unfolding decode16 encode16
decode16-encode16 v h = omega arith

pub decode32-encode32 : (v : ℕ) → v < 2 ^ 32 → decode32 (encode32 v) ≡ v
unfolding decode32 encode32
decode32-encode32 v h = omega arith

pub decode64-encode64 : (v : ℕ) → v < 2 ^ 64 → decode64 (encode64 v) ≡ v
unfolding decode64 encode64
decode64-encode64 v h = omega arith

pub length-encode16 : (v : ℕ) → length (encode16 v) ≡ 2
unfolding encode16
length-encode16 v = refl

pub length-encode32 : (v : ℕ) → length (encode32 v) ≡ 4
unfolding encode32
length-encode32 v = refl

pub length-encode64 : (v : ℕ) → length (encode64 v) ≡ 8
unfolding encode64
length-encode64 v = refl

pub boolean-Writes : (c : Bool) → Writes (encode_boolean c) (bit c ∷ [])
unfolding encode_boolean
boolean-Writes c = write-Writes (bit c ∷ [])

pub byte-Writes : (v : ℕ) → Writes (encode_byte v) (v ∷ [])
unfolding encode_byte
byte-Writes v = write-Writes (v ∷ [])

pub uint16-Writes : (v : ℕ) → Writes (encode_uint16 v) (encode16 v)
unfolding encode_uint16
uint16-Writes v = write-Writes (encode16 v)

pub uint32-Writes : (v : ℕ) → Writes (encode_uint32 v) (encode32 v)
unfolding encode_uint32
uint32-Writes v = write-Writes (encode32 v)

pub uint64-Writes : (v : ℕ) → Writes (encode_uint64 v) (encode64 v)
unfolding encode_uint64
uint64-Writes v = write-Writes (encode64 v)

pub boolean-Safe : (c : Bool) → Safe (encode_boolean c)
unfolding encode_boolean
boolean-Safe c = write-Safe (bit c ∷ [])

pub byte-Safe : (v : ℕ) → Safe (encode_byte v)
unfolding encode_byte
byte-Safe v = write-Safe (v ∷ [])

pub uint16-Safe : (v : ℕ) → Safe (encode_uint16 v)
unfolding encode_uint16
uint16-Safe v = write-Safe (encode16 v)

pub uint32-Safe : (v : ℕ) → Safe (encode_uint32 v)
unfolding encode_uint32
uint32-Safe v = write-Safe (encode32 v)

pub uint64-Safe : (v : ℕ) → Safe (encode_uint64 v)
unfolding encode_uint64
uint64-Safe v = write-Safe (encode64 v)

pub boolean-Reads : (c : Bool) → Reads decode_boolean (bit c ∷ []) c
unfolding decode_boolean
boolean-Reads c = read_fixed-Reads (λ buf. ltb 0 (get_or buf 0 0)) (bit c ∷ []) (ground arith)

pub byte-Reads : (v : ℕ) → Reads decode_byte (v ∷ []) v
unfolding decode_byte
byte-Reads v = read_fixed-Reads (λ buf. get_or buf 0 0) (v ∷ []) refl

pub uint16-Reads : (v : ℕ) → v < 2 ^ 16 → Reads decode_uint16 (encode16 v) v
unfolding decode_uint16 encode16
uint16-Reads v h = read_fixed-Reads decode16 (encode16 v) (decode16-encode16 v h)

pub uint32-Reads : (v : ℕ) → v < 2 ^ 32 → Reads decode_uint32 (encode32 v) v
unfolding decode_uint32 encode32
uint32-Reads v h = read_fixed-Reads decode32 (encode32 v) (decode32-encode32 v h)

pub uint64-Reads : (v : ℕ) → v < 2 ^ 64 → Reads decode_uint64 (encode64 v) v
unfolding decode_uint64 encode64
uint64-Reads v h = read_fixed-Reads decode64 (encode64 v) (decode64-encode64 v h)

pub boolean-Consumes : Consumes decode_boolean
unfolding decode_boolean
boolean-Consumes = read_fixed-Consumes (λ buf. ltb 0 (get_or buf 0 0)) 1

pub byte-Consumes : Consumes decode_byte
unfolding decode_byte
byte-Consumes = read_fixed-Consumes (λ buf. get_or buf 0 0) 1

pub uint16-Consumes : Consumes decode_uint16
unfolding decode_uint16
uint16-Consumes = read_fixed-Consumes decode16 2

pub uint32-Consumes : Consumes decode_uint32
unfolding decode_uint32
uint32-Consumes = read_fixed-Consumes decode32 4

pub uint64-Consumes : Consumes decode_uint64
unfolding decode_uint64
uint64-Consumes = read_fixed-Consumes decode64 8
