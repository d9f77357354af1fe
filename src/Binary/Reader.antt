-- ===== src/Binary/Reader.antt =====
-- Decoding from a byte string: `Ctx`, the bounds checks and `UA_decodeBinary` of
-- openPubSub/ua_pubsub/ua_types_encoding_binary.c. The input is the bytes from `pos` to `end`.
pub mod Reads
pub mod Consumes
pub mod Yields
use open_pub_sub.Base.{ℕ, Bool, List, if◌then◌else◌, length, leb, take, drop}
use open_pub_sub.Binary.Status.{Status, bad_decoding_error, or}

-- Success with a value, or a status other than good; each with the input that is left.
pub data Read {ℓ} (A : Type ℓ) : Type ℓ where
  ok : A → List ℕ → Read A
  err : Status → List ℕ → Read A

abbrev pub Reader {ℓ} : Type ℓ → Type ℓ
Reader A = List ℕ → Read A

abbrev pub remaining {ℓ} : {A : Type ℓ} → Read A → List ℕ
remaining (ok a r) = r
remaining (err s r) = r

module _ {ℓ} {A : Type ℓ} where
  unfoldable pub pure : A → Reader A
  pure a input = ok a input

  unfoldable pub fail : Status → Reader A
  fail s input = err s input

  -- `if(c) { d } else { *dst = a; }`
  unfoldable pub read_if : Bool → Reader A → A → Reader A
  unfolding pure
  read_if c d a = if c then d else pure a

  -- The offset moves only on success: `settle offset result`.
  abbrev pub settle : List ℕ → Read A → Read A
  settle input (ok a r) = ok a r
  settle input (err s r) = err s input

  unfoldable pub decode_binary : Reader A → Reader A
  decode_binary d input = settle input (d input)

  -- `rv = d; if(rv != UA_STATUSCODE_GOOD) return rv; k`
  abbrev pub and_then {κ} : {B : Type κ} → Read A → (A → Reader B) → Read B
  and_then (ok a r) k = k a r
  and_then (err s r) k = err s r

  infixl 5 ◌>>=◌
  unfoldable pub ◌>>=◌ {κ} : {B : Type κ} → Reader A → (A → Reader B) → Reader B
  ◌>>=◌ d k input = and_then (d input) k

  -- `ret |= d; ret |= k`, where `k` runs from where `d` stopped, whether or not `d` succeeded.
  abbrev pub join {κ} : {B : Type κ} → Read A → Read B → Read (A × B)
  join (ok a _) (ok b t) = ok (a, b) t
  join (ok a _) (err s t) = err s t
  join (err s _) (ok b t) = err s t
  join (err s _) (err u t) = err (or s u) t

  unfoldable pub also {κ} : {B : Type κ} → Reader A → Reader B → Reader (A × B)
  unfolding or
  also d k input = join (d input) (k (remaining (d input)))

-- `if(ctx->pos + n > ctx->end) return BADDECODINGERROR; memcpy(…, ctx->pos, n); ctx->pos += n;`
unfoldable pub read_bytes : ℕ → Reader (List ℕ)
read_bytes n input =
    if leb n (length input) then ok (take n input) (drop n input) else err bad_decoding_error input
