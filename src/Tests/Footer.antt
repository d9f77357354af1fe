-- ===== src/Tests/Footer.antt =====
-- A security footer of 300 bytes.
use open_pub_sub.Base.{◌≡◌, refl, false, length, arith}
use open_pub_sub.Binary.Status.{is_good}
use open_pub_sub.Message.Network.Encode.{encode_security_footer}
use open_pub_sub.Message.Network.Footer.{encode_security_footer-overlong}
use open_pub_sub.Tests.Network.{zeros, large}

encode_security_footer-overlong_example :
    (is_good (encode_security_footer 300 (zeros 300) large).0 ≡ false)
    × (length (encode_security_footer 300 (zeros 300) large).1.after ≡ 0)
encode_security_footer-overlong_example =
    encode_security_footer-overlong 300 (zeros 300) large refl (omega arith)
