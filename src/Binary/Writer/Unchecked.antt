-- ===== src/Binary/Writer/Unchecked.antt =====
-- An encoder whose status is overwritten, before one that writes at least as much: where the first
-- finds no room, the second finds none either.
use open_pub_sub.Base.{ℕ, ◌≤◌, List, ◌++◌, length, length-append, arith}
use open_pub_sub.Binary.Writer.{Encoder, put, unchecked}
use open_pub_sub.Binary.Writer.Writes.{Writes, put-put, length-after_put}
use open_pub_sub.Binary.Writer.Safe.{Safe}
use native.Mathlib.Decide.{dec_le}

module _ {e k : Encoder} {xs ys : List ℕ} (we : Writes e xs) (se : Safe e) (wk : Writes k ys)
    (longer : length xs ≤ length ys) where
  pub unchecked-Writes : Writes (unchecked e k) (xs ++ ys)
  unfolding unchecked
  unchecked-Writes = record {
    fits = λ b h. rw (
      we.fits b (omega (arith, length-append xs ys)),
      wk.fits (put xs b) (omega (arith, length-append xs ys, length-after_put xs b)),
      put-put xs ys b,
    );
    short = λ b h. elim (dec_le (length xs) (length b.after)) [
      | yes p ↦
          rw (unchecked, we.fits b p)
            (wk.short (put xs b) (omega (arith, length-append xs ys, length-after_put xs b)))
      | no p ↦ wk.short (e b).1 (omega (arith, (se.extends b).size))
    ];
  }
