-- ===== src/Binary/Writer.antt =====
-- Encoding into a buffer of fixed size: `Ctx`, `exchangeBuffer`, `encodeWithExchangeBuffer` and
-- `UA_encodeBinary` of openPubSub/ua_pubsub/ua_types_encoding_binary.c, with no exchange callback.
pub mod Writes
pub mod Safe
pub mod Unchecked
use open_pub_sub.Base.{ℕ, Bool, List, ◌++◌, length, drop, leb, if◌then◌else◌}
use open_pub_sub.Binary.Status.{
  Status, good, bad_encoding_error, bad_encoding_limits_exceeded, is_good, is_limits_exceeded, or,
}

-- The buffer cut at `pos`: the bytes before it, and those from it to `end`.
pub record Buffer : Type 0 where
  pub before : List ℕ
  pub after : List ℕ

-- A function that encodes at `pos`, moves it and returns a status.
abbrev pub Encoder : Type 0
Encoder = Buffer → Status × Buffer

-- Copies bytes to `pos` and moves it behind them.
unfoldable pub put : List ℕ → Buffer → Buffer
put bs b = record { before = b.before ++ bs; after = drop (length bs) b.after }

-- `if(ctx->pos + n > ctx->end) return LIMITSEXCEEDED; memcpy(ctx->pos, …, n); ctx->pos += n;`
unfoldable pub write : List ℕ → Encoder
unfolding put
write bs b =
    if leb (length bs) (length b.after) then (good, put bs b) else (bad_encoding_limits_exceeded, b)

unfoldable pub done : Encoder
done b = (good, b)

unfoldable pub fail : Status → Encoder
fail s b = (s, b)

-- `rv = e; if(rv != UA_STATUSCODE_GOOD) return rv; k`
infixr 6 ◌>>◌
unfoldable pub ◌>>◌ : Encoder → Encoder → Encoder
◌>>◌ e k b = let (s, b') = e b in if is_good s then k b' else (s, b')

-- `rv = e; k`, where `k` sets `rv` anew: the status of `e` is lost.
unfoldable pub unchecked : Encoder → Encoder → Encoder
unchecked e k b = k (e b).1

-- `ret |= e; ret |= k`
unfoldable pub also : Encoder → Encoder → Encoder
unfolding or
also e k b = let (s, b') = e b in let (t, b'') = k b' in (or s t, b'')

-- `if(c) { e }`
unfoldable pub when : Bool → Encoder → Encoder
unfolding done
when c e = if c then e else done

-- Without a callback the buffer cannot be exchanged.
unfoldable pub exchange_buffer : Encoder
exchange_buffer b = (bad_encoding_error, b)

-- `ctx->pos = oldpos`
unfoldable pub rewind : Buffer → Buffer → Buffer
rewind old b = record {
  before = old.before;
  after = drop (length old.before) (b.before ++ b.after);
}

unfoldable pub encode_with_exchange_buffer : Encoder → Encoder
unfolding exchange_buffer rewind ◌>>◌
encode_with_exchange_buffer e b =
    let (s, b') = e b in
    if is_limits_exceeded s then (exchange_buffer >> e) (rewind b b') else (s, b')

-- The buffer position is handed back on errors too.
unfoldable pub encode_binary : Encoder → Encoder
unfolding encode_with_exchange_buffer
encode_binary e = encode_with_exchange_buffer e
