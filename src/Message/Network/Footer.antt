-- ===== src/Message/Network/Footer.antt =====
-- The loop over the security footer, whose counter is a byte: what it writes and reads of a footer
-- below 256 bytes, and what it does with a longer one.
use open_pub_sub.Base.{
  get_or, get_or-drop, drop-suc, drop, ap, ℕ, zero, suc, ◌+◌, ◌%◌, ◌^◌, ◌≤◌, ◌<◌, ◌≡◌, false, refl,
  ◌∙◌, le→ltb, lt→ltb, List, [], ◌∷◌, ◌++◌, length, length-append, arith,
}
use open_pub_sub.Binary.Status.{good, is_good}
use open_pub_sub.Binary.Writer.{Buffer, put, fail, ◌>>◌}
use open_pub_sub.Binary.Writer.Writes.{Writes, done-Writes, length-after_put, put-put}
use open_pub_sub.Binary.Writer.Safe.{Extends}
use open_pub_sub.Binary.Reader.{ok, pure, ◌>>=◌}
use open_pub_sub.Binary.Reader.Reads.{Reads}
use open_pub_sub.Binary.Generated.Laws.{
  byte_encode_binary-Writes, byte_encode_binary-Safe, byte_decode_binary-Reads,
}
use open_pub_sub.Message.Network.Encode.{encode_footer_from, encode_security_footer}
use open_pub_sub.Message.Network.Decode.{decode_footer_from, decode_security_footer}
use native.Mathlib.Decide.{dec_le}

-- From the index `i` on, `bs` is left of the footer.
written :
    (bs footer : List ℕ) (fuel i size : ℕ) (b : Buffer)
    → drop i footer ≡ bs
    → i + length bs ≡ size
    → size < 256
    → length b.after < fuel
    → length bs ≤ length b.after
    → encode_footer_from fuel i size footer b ≡ (good, put bs b)
unfolding encode_footer_from ◌>>◌
written bs footer zero i size b d e h f r = absurd (omega (arith, f))
written [] footer (suc fuel) i size b d e h f r =
    rw (le→ltb i size (omega (arith, e))) (done-Writes.fits b r)
written (x ∷ xs) footer (suc fuel) i size b d e h f r =
    let next : (i + 1) % 2 ^ 8 ≡ suc i = omega (arith, e, h) in
    rw
      (
        lt→ltb i size (omega (arith, e)),
        get_or-drop i footer 0 x xs d,
        (byte_encode_binary-Writes x).fits b (omega (arith, r)),
        next,
      )
      (written xs footer fuel (suc i) size (put (x ∷ []) b) (drop-suc i footer x xs d)
          (omega (arith, e)) h (omega (arith, f, r, length-after_put (x ∷ []) b))
          (omega (arith, r, length-after_put (x ∷ []) b))
        ∙ ap (λ c. (good, c)) (put-put (x ∷ []) xs b))

not_written :
    (bs footer : List ℕ) (fuel i size : ℕ) (b : Buffer)
    → drop i footer ≡ bs
    → i + length bs ≡ size
    → size < 256
    → length b.after < length bs
    → is_good (encode_footer_from fuel i size footer b).0 ≡ false
unfolding encode_footer_from ◌>>◌ fail
not_written bs footer zero i size b d e h r = refl
not_written [] footer (suc fuel) i size b d e h r = absurd (omega (arith, r))
not_written (x ∷ xs) footer (suc fuel) i size b d e h r =
    let next : (i + 1) % 2 ^ 8 ≡ suc i = omega (arith, e, h) in
    rw (lt→ltb i size (omega (arith, e)), get_or-drop i footer 0 x xs d, next)
      (elim (dec_le 1 (length b.after)) [
        | yes p ↦ rw ((byte_encode_binary-Writes x).fits b p) (
            not_written xs footer fuel (suc i) size (put (x ∷ []) b) (drop-suc i footer x xs d)
              (omega (arith, e)) h (omega (arith, r, p, length-after_put (x ∷ []) b)))
        | no p ↦ let s = (byte_encode_binary-Writes x).short b (omega arith) in rw s s
      ])

pub footer-Writes :
    (size : ℕ) (footer : List ℕ)
    → size < 256
    → size ≡ length footer
    → Writes (encode_security_footer size footer) footer
unfolding encode_security_footer
footer-Writes size footer h e = record {
  fits = λ b r.
      written footer footer (suc (length b.after)) 0 size b refl (omega (arith, e)) h (omega arith)
        r;
  short =
      λ b r. not_written footer footer (suc (length b.after)) 0 size b refl (omega (arith, e)) h r;
}

read :
    (bs : List ℕ) (fuel i size : ℕ) (rest : List ℕ)
    → i + length bs ≡ size
    → size < 256
    → length bs < fuel
    → decode_footer_from fuel i size (bs ++ rest) ≡ ok bs rest
unfolding decode_footer_from ◌>>=◌ pure
read bs zero i size rest e h f = absurd (omega (arith, f))
read [] (suc fuel) i size rest e h f = rw (le→ltb i size (omega (arith, e))) refl
read (x ∷ xs) (suc fuel) i size rest e h f =
    let next : (i + 1) % 2 ^ 8 ≡ suc i = omega (arith, e, h) in
    rw
      (
        lt→ltb i size (omega (arith, e)),
        (byte_decode_binary-Reads x).reads (xs ++ rest),
        next,
        read xs fuel (suc i) size rest (omega (arith, e)) h (omega (arith, f)),
      )
      refl

pub footer-Reads :
    (size : ℕ) (footer : List ℕ)
    → size < 256
    → size ≡ length footer
    → Reads (decode_security_footer size) footer footer
unfolding decode_security_footer
footer-Reads size footer h e = record {
  reads = λ rest.
      read footer (suc (length (footer ++ rest))) 0 size rest (omega (arith, e)) h
        (omega (arith, length-append footer rest));
}

-- A counter that is a byte stays below the size, so that the loop ends where the room does.
overlong :
    (footer : List ℕ) (fuel i size : ℕ) (b : Buffer)
    → i < 256
    → 256 ≤ size
    → length b.after < fuel
    → (is_good (encode_footer_from fuel i size footer b).0 ≡ false)
      × (length (encode_footer_from fuel i size footer b).1.after ≡ 0)
unfolding encode_footer_from ◌>>◌
overlong footer zero i size b h k f = absurd (omega (arith, f))
overlong footer (suc fuel) i size b h k f =
    let x : ℕ = get_or footer i 0 in
    rw (lt→ltb i size (omega (arith, h, k))) (elim (dec_le 1 (length b.after)) [
      | yes p ↦ rw ((byte_encode_binary-Writes x).fits b p) (
          overlong footer fuel ((i + 1) % 2 ^ 8) size (put (x ∷ []) b) (omega arith) k
            (omega (arith, f, p, length-after_put (x ∷ []) b)))
      | no p ↦
          let s = (byte_encode_binary-Writes x).short b (omega arith) in
          let left = Extends.size ((byte_encode_binary-Safe x).extends b) in
          rw s (s, omega (arith, left))
    ])

-- A security footer of 256 bytes or more, as many as its size says, is encoded into no buffer, however
-- much room it has: the counter of the loop, a byte, never reaches the size, so that the loop writes
-- the footer again and again until the buffer is full, and ends there with a status that is not good.
pub encode_security_footer-overlong :
    (size : ℕ) (footer : List ℕ) (b : Buffer)
    → size ≡ length footer
    → 256 ≤ size
    → (is_good (encode_security_footer size footer b).0 ≡ false)
      × (length (encode_security_footer size footer b).1.after ≡ 0)
unfolding encode_security_footer
encode_security_footer-overlong size footer b e h =
    overlong footer (suc (length b.after)) 0 size b (omega arith) h (omega arith)
