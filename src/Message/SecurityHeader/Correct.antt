-- ===== src/Message/SecurityHeader/Correct.antt =====
-- The security header through a buffer.
use open_pub_sub.Base.{ℕ, ◌≤◌, ◌≡◌, List, [], ◌++◌, length, drop, arith}
use open_pub_sub.Binary.Status.{good}
use open_pub_sub.Binary.Writer.{Buffer}
use open_pub_sub.Binary.Reader.{ok}
use open_pub_sub.Binary.Reader.Consumes.{Suffix, local}
use open_pub_sub.Binary.Correct.{round_trip}
use open_pub_sub.Message.SecurityHeader.{
  SecurityHeader, encode_security_header, decode_security_header, calc_size_security_header,
}
use open_pub_sub.Message.SecurityHeader.Laws.{
  SecurityHeaderFits, canonical_security_header, security_header-Writes, security_header-Reads,
  security_header-Consumes, length-security_header_encoding,
}

-- A security header that fits (its values are in the ranges of their types, and its nonce is as long as it says), encoded
-- into a buffer with room for its computed size, is encoded with status good, and decoding the
-- appended bytes returns it with the values that its flags switch off set to zero, and leaves no
-- input.
pub encode_security_header-decode_security_header :
    (h : SecurityHeader) (b : Buffer)
    → SecurityHeaderFits h
    → calc_size_security_header h 0 ≤ length b.after
    → ((encode_security_header h b).0 ≡ good)
      × (decode_security_header (drop (length b.before) (encode_security_header h b).1.before)
          ≡ ok (canonical_security_header h) [])
encode_security_header-decode_security_header h b f room =
    round_trip (security_header-Writes h f) (omega (arith, length-security_header_encoding h f 0)) b
      room (security_header-Reads h f)

-- Where decoding a security header from any input succeeds, what is left is the input without some
-- bytes at its front, and from the same input with any more bytes behind it the same is decoded,
-- and those bytes are left behind the rest.
pub decode_security_header-append :
    (input more : List ℕ) (a : SecurityHeader) (rest : List ℕ)
    → decode_security_header input ≡ ok a rest
    → Suffix rest input × (decode_security_header (input ++ more) ≡ ok a (rest ++ more))
decode_security_header-append input more a rest e = local input more security_header-Consumes e
