-- ===== src/Binary/Bytes.antt =====
-- Runs of single bytes that a count announces: the nonce and the footer of a message.
use open_pub_sub.Base.{take_counted, ℕ, ◌≡◌, refl, ap, subst, List, [], ◌∷◌, length, take, map, All}
use open_pub_sub.Binary.Writer.Writes.{Writes}
use open_pub_sub.Binary.Writer.Safe.{Safe}
use open_pub_sub.Binary.Reader.Reads.{Reads, Reads-eq}
use open_pub_sub.Binary.Generated.{byte_encode_binary, byte_decode_binary}
use open_pub_sub.Binary.Generated.Laws.{
  byte_encode_binary-Writes, byte_encode_binary-Safe, byte_decode_binary-Reads,
}
use open_pub_sub.Binary.Each.{encode_each, decode_each, concat, each-Writes, each-Safe, each-Reads}

abbrev one : ℕ → List ℕ
one x = x ∷ []

abbrev Any : ℕ → Type 0
Any x = Unit

All-bytes : (bs : List ℕ) → All Any bs
All-bytes [] = tt
All-bytes (x ∷ xs) = (tt, All-bytes xs)

concat-one : (bs : List ℕ) → concat one bs ≡ bs
concat-one [] = refl
concat-one (x ∷ xs) = ap (λ ys. x ∷ ys) (concat-one xs)

map-itself : (bs : List ℕ) → map (λ x. x) bs ≡ bs
map-itself [] = refl
map-itself (x ∷ xs) = ap (λ ys. x ∷ ys) (map-itself xs)

pub bytes-Writes :
    (n : ℕ) (bs : List ℕ) → n ≡ length bs → Writes (encode_each byte_encode_binary (take n bs)) bs
bytes-Writes n bs e = rw (take_counted e) (
    subst (λ cs. Writes (encode_each byte_encode_binary bs) cs) (concat-one bs)
      (each-Writes byte_encode_binary one bs (λ x h. byte_encode_binary-Writes x) (All-bytes bs)))

pub bytes-Safe : (bs : List ℕ) → Safe (encode_each byte_encode_binary bs)
bytes-Safe bs = each-Safe byte_encode_binary bs (λ x h. byte_encode_binary-Safe x) (All-bytes bs)

pub bytes-Reads :
    (n : ℕ) (bs : List ℕ) → n ≡ length bs → Reads (decode_each byte_decode_binary n) bs bs
bytes-Reads n bs e = rw e (
    Reads-eq (concat-one bs) (map-itself bs) (
      each-Reads byte_decode_binary one (λ x. x) bs (λ x h. byte_decode_binary-Reads x)
        (All-bytes bs)))
