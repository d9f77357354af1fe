-- ===== src/Binary/Correct.antt =====
-- What an encoder and a decoder promise together: success exactly where the buffer has the computed
-- size, and a round trip through the buffer.
use open_pub_sub.Base.{
  refl, ◌+◌, ◌-◌, length-append, length-drop, ℕ, ◌≤◌, ◌≡◌, List, [], append-nil, length, drop,
  drop-append, leb, le→leb, lt→leb, arith,
}
use open_pub_sub.Binary.Status.{good, is_good}
use open_pub_sub.Binary.Writer.{Buffer, Encoder, put}
use open_pub_sub.Binary.Writer.Writes.{Writes}
use open_pub_sub.Binary.Reader.{Reader, ok}
use open_pub_sub.Binary.Reader.Reads.{Reads}
use native.Mathlib.Decide.{dec_le}

module _ {e : Encoder} {bs : List ℕ} (w : Writes e bs) {n : ℕ} (size : length bs ≡ n)
    (b : Buffer) where
  pub good_iff_room : is_good (e b).0 ≡ leb n (length b.after)
  good_iff_room = elim (dec_le n (length b.after)) [
    | yes p ↦ rw (le→leb _ _ p, w.fits b (omega (arith, size, p)))
    | no p ↦ rw (lt→leb n (length b.after) (omega arith)) (w.short b (omega (arith, size)))
  ]

  module _ (room : n ≤ length b.after) where
    -- The bytes that an encoder appends are those that the decoder turns into `a`.
    pub round_trip {ℓ} :
        {A : Type ℓ} {d : Reader A} {a : A}
        → Reads d bs a
        → ((e b).0 ≡ good) × (d (drop (length b.before) (e b).1.before) ≡ ok a [])
    unfolding put
    round_trip r =
        rw (w.fits b (omega (arith, size, room)), drop-append b.before bs)
          (refl, rw (← append-nil bs) (r.reads []))

    -- The number of bytes that are appended is the computed size.
    pub written_size :
        ((e b).0 ≡ good)
        × (length (e b).1.before ≡ length b.before + n)
        × (length (e b).1.after ≡ length b.after - n)
    unfolding put
    written_size = rw (w.fits b (omega (arith, size, room))) (
      refl,
      omega (arith, size, length-append b.before bs),
      omega (arith, size, length-drop (length bs) b.after),
    )
