-- ===== src/Binary/Writer/Writes.antt =====
-- Encoders that write exactly given bytes, or refuse because the buffer is too small.
use open_pub_sub.Base.{
  ℕ, ◌-◌, ◌≤◌, ◌<◌, ◌≡◌, sym, ap, Bool, true, false, List, [], ◌++◌, append_assoc, append-nil,
  length, if◌then◌else◌, length-append, length-drop, drop-drop, le→leb, lt→leb, inl, inr, arith,
  ◌⊎◌, Bool-cases,
}
use open_pub_sub.Binary.Status.{
  good, is_good, is_limits_exceeded, is_good-or_left, is_good-or_right,
}
use open_pub_sub.Binary.Writer.{
  Buffer, Encoder, put, write, done, ◌>>◌, also, when, exchange_buffer, encode_with_exchange_buffer,
  encode_binary,
}
use native.Mathlib.Decide.{dec_le}

-- `e` succeeds and writes `bs` whenever they fit, and never succeeds otherwise.
pub record Writes (e : Encoder) (bs : List ℕ) : Type 0 where
  pub fits : (b : Buffer) → length bs ≤ length b.after → e b ≡ (good, put bs b)
  pub short : (b : Buffer) → length b.after < length bs → is_good (e b).0 ≡ false

pub put-put : (xs ys : List ℕ) (b : Buffer) → put ys (put xs b) ≡ put (xs ++ ys) b
unfolding put
put-put xs ys b =
    λ i. record { before = append_assoc b.before xs ys i; after = drop-drop xs ys b.after i }

pub length-after_put :
    (bs : List ℕ) (b : Buffer) → length (put bs b).after ≡ length b.after - length bs
unfolding put
length-after_put bs b = length-drop (length bs) b.after

pub write-Writes : (bs : List ℕ) → Writes (write bs) bs
unfolding write
write-Writes bs = record { fits = λ b h. rw (le→leb _ _ h); short = λ b h. rw (lt→leb _ _ h) }

put-nil : (b : Buffer) → put [] b ≡ b
unfolding put
put-nil b = λ i. record { before = append-nil b.before i; after = b.after }

pub done-Writes : Writes done []
unfolding done
done-Writes = record {
  fits = λ b h. ap (λ (c : Buffer). (good, c)) (sym (put-nil b));
  short = λ b h. absurd (omega arith);
}

module _ {e k : Encoder} {xs ys : List ℕ} (we : Writes e xs) (wk : Writes k ys) where
  split_short :
      (b : Buffer)
      → length b.after < length (xs ++ ys)
      → (length b.after < length xs)
        ⊎ ((length xs ≤ length b.after) × (length (put xs b).after < length ys))
  split_short b h = elim (dec_le (length xs) (length b.after)) [
    | yes p ↦ inr (p, omega (arith, length-append xs ys, length-after_put xs b))
    | no p ↦ inl (omega arith)
  ]

  fits_first : (b : Buffer) → length (xs ++ ys) ≤ length b.after → length xs ≤ length b.after
  fits_first b h = omega (arith, length-append xs ys)

  fits_second :
      (b : Buffer) → length (xs ++ ys) ≤ length b.after → length ys ≤ length (put xs b).after
  fits_second b h = omega (arith, length-append xs ys, length-after_put xs b)

  pub >>-Writes : Writes (e >> k) (xs ++ ys)
  unfolding ◌>>◌
  >>-Writes = record {
    fits = λ b h.
        rw (we.fits b (fits_first b h), wk.fits (put xs b) (fits_second b h), put-put xs ys b);
    short = λ b h. elim (split_short b h) [
      | inl p ↦ rw (we.short b p) (we.short b p)
      | inr (p, q) ↦ rw (we.fits b p) (wk.short (put xs b) q)
    ];
  }

  pub also-Writes : Writes (also e k) (xs ++ ys)
  unfolding also
  also-Writes = record {
    fits = λ b h.
        rw (we.fits b (fits_first b h), wk.fits (put xs b) (fits_second b h), put-put xs ys b);
    short = λ b h. elim (split_short b h) [
      | inl p ↦ is_good-or_left _ _ (we.short b p)
      | inr (p, q) ↦ rw (we.fits b p) (is_good-or_right good _ (wk.short (put xs b) q))
    ];
  }

-- What a conditional part of a message contributes.
unfoldable pub part : Bool → List ℕ → List ℕ
part c bs = if c then bs else []

pub when-Writes :
    (c : Bool) {e : Encoder} {bs : List ℕ} → Writes e bs → Writes (when c e) (part c bs)
unfolding when part
when-Writes true w = w
when-Writes false w = done-Writes

pub if-Writes :
    (c : Bool) {e k : Encoder} {xs ys : List ℕ}
    → Writes e xs
    → Writes k ys
    → Writes (if c then e else k) (if c then xs else ys)
if-Writes true we wk = we
if-Writes false we wk = wk

-- With no callback an encoder that finds no room is taken back and turned into a failure.
pub exchange-Writes :
    {e : Encoder} {bs : List ℕ} → Writes e bs → Writes (encode_with_exchange_buffer e) bs
unfolding encode_with_exchange_buffer ◌>>◌ exchange_buffer
exchange-Writes {e} w = record {
  fits = λ b h. rw (w.fits b h);
  short = λ b h. elim (Bool-cases (is_limits_exceeded (e b).0)) [
    | inl p ↦ rw p
    | inr p ↦ rw p (w.short b h)
  ];
}

pub encode_binary-Writes : {e : Encoder} {bs : List ℕ} → Writes e bs → Writes (encode_binary e) bs
unfolding encode_binary
encode_binary-Writes w = exchange-Writes w
