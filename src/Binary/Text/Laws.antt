-- ===== src/Binary/Text/Laws.antt =====
-- Strings: what is written, its size, and what is read back.
use open_pub_sub.Base.{
  false, ℕ, suc, lt→ltb, ◌-◌, ◌/◌, ◌<◌, ◌≤◌, ◌^◌, ◌≡◌, refl, List, [], ◌∷◌, ◌++◌, length, arith,
  append-nil, ltb, leb, ◌==◌, length-append, Bool-cases, inl, inr, take, length-take_le,
}
use open_pub_sub.Binary.Status.{bad_internal_error}
use open_pub_sub.Binary.Writer.{exchange_buffer}
use open_pub_sub.Binary.Writer.Writes.{Writes, >>-Writes, when-Writes, exchange-Writes, part}
use open_pub_sub.Binary.Writer.Safe.{
  Safe, >>-Safe, when-Safe, exchange-Safe, fail-Safe, put-Extends,
}
use open_pub_sub.Binary.Reader.{Reader, pure}
use open_pub_sub.Binary.Reader.Reads.{Reads, >>=-Reads, pure-Reads, read_bytes-Reads}
use open_pub_sub.Binary.Reader.Consumes.{Consumes, >>=-Consumes, pure-Consumes, read_bytes-Consumes}
use open_pub_sub.Binary.Scalars.{encode32}
use open_pub_sub.Binary.Scalars.Laws.{
  uint32-Writes, uint32-Safe, uint32-Reads, uint32-Consumes, length-encode32,
}
use open_pub_sub.Binary.Text.{
  Text, null, empty_sentinel, chars, text_bytes, is_sentinel, int32_max, signed_length,
  encode_overlayable, encode_array, encode_text, ensure, decode_content, decode_elements,
  decode_text, calc_size_text,
}

-- A string that an int32 can measure.
abbrev pub TextFits : Text → Type 0
TextFits t = length (text_bytes t) < 2 ^ 31

-- The four bytes of the length, then the content.
unfoldable pub text_encoding : Text → List ℕ
text_encoding t = encode32 (signed_length (length (text_bytes t)) (is_sentinel t)) ++ text_bytes t

-- A string of no bytes behind a pointer of its own comes back as a missing one.
abbrev pub canonical_text : Text → Text
canonical_text (chars []) = null
canonical_text t = t

overlayable-Writes : (bs : List ℕ) → Writes (encode_overlayable bs) bs
unfolding encode_overlayable exchange_buffer
overlayable-Writes bs = record { fits = λ b h. ground arith; short = λ b h. ground arith }

overlayable-Safe : (bs : List ℕ) → Safe (encode_overlayable bs)
unfolding encode_overlayable exchange_buffer
overlayable-Safe bs = record {
  extends = λ b. elim (Bool-cases (ltb (length b.after) (length bs))) [
    | inl p ↦ rw p (put-Extends (take (length b.after) bs) b (length-take_le _ bs))
    | inr p ↦ rw p (put-Extends bs b (ground arith))
  ];
}

nothing_to_copy : (bs : List ℕ) → part (ltb 0 (length bs)) bs ≡ bs
unfolding part
nothing_to_copy [] = refl
nothing_to_copy (x ∷ xs) = ground arith

pub text-Writes : (t : Text) → TextFits t → Writes (encode_text t) (text_encoding t)
unfolding encode_text encode_array text_encoding
text-Writes t h = elim (Bool-cases (ltb int32_max (length (text_bytes t)))) [
  | inl p ↦ absurd (ground arith)
  | inr p ↦ rw p (
      rw (nothing_to_copy (text_bytes t)) at (
        >>-Writes
          (exchange-Writes (uint32-Writes (signed_length (length (text_bytes t)) (is_sentinel t))))
          (when-Writes (ltb 0 (length (text_bytes t))) (overlayable-Writes (text_bytes t)))))
]

pub text-Safe : (t : Text) → Safe (encode_text t)
unfolding encode_text encode_array
text-Safe t = elim (Bool-cases (ltb int32_max (length (text_bytes t)))) [
  | inl p ↦ rw p (fail-Safe bad_internal_error)
  | inr p ↦ rw p (
      >>-Safe (exchange-Safe (uint32-Safe _))
        (when-Safe (ltb 0 (length (text_bytes t))) (overlayable-Safe (text_bytes t))))
]

pub length-text_encoding : (t : Text) → length (text_encoding t) ≡ calc_size_text t
unfolding text_encoding calc_size_text
length-text_encoding t =
    let n = signed_length (length (text_bytes t)) (is_sentinel t) in
    omega (arith, length-append (encode32 n) (text_bytes t), length-encode32 n)

ensure-Reads {ℓ} :
    {A : Type ℓ} (n : ℕ) {d : Reader A} {bs : List ℕ} {a : A}
    → n ≤ length bs
    → Reads d bs a
    → Reads (ensure n d) bs a
unfolding ensure
ensure-Reads n {d} {bs} h r = record {
  reads = λ rest. ground (arith, r.reads rest, length-append bs rest);
}

ensure-Consumes {ℓ} : {A : Type ℓ} (n : ℕ) {d : Reader A} → Consumes d → Consumes (ensure n d)
unfolding ensure
ensure-Consumes n c = record {
  consumes = λ input. elim (Bool-cases (ltb (length input) n)) [
    | inl p ↦ rw p (record { taken = []; split = refl })
    | inr p ↦ rw p (c.consumes input)
  ];
  kept = λ input more. elim (Bool-cases (ltb (length input) n)) [
    | inl p ↦ rw p tt
    | inr p ↦
        let room : ltb (length (input ++ more)) n ≡ false =
          ground (arith, length-append input more) in
        rw (p, room) (c.kept input more)
  ];
}

content-Reads : (bs : List ℕ) → Reads (decode_content (length bs)) bs (chars bs)
unfolding decode_content
content-Reads bs =
    rw (append-nil bs) at
      (>>=-Reads (λ buf. pure (chars buf)) (read_bytes-Reads bs) (pure-Reads (chars bs)))

elements-Reads :
    (bs : List ℕ)
    → 0 < length bs
    → length bs < 2 ^ 31
    → Reads (decode_elements (length bs)) bs (chars bs)
unfolding decode_elements
elements-Reads bs lo hi = record {
  reads = λ rest.
      ground
        (arith, Reads.reads (ensure-Reads (length bs / 32) (omega arith) (content-Reads bs)) rest);
}

pub text-Reads : (t : Text) → TextFits t → Reads decode_text (text_encoding t) (canonical_text t)
unfolding decode_text text_encoding signed_length decode_elements
text-Reads null h =
    >>=-Reads decode_elements (uint32-Reads (2 ^ 32 - 1) (omega arith)) (pure-Reads null)
text-Reads empty_sentinel h =
    >>=-Reads decode_elements (uint32-Reads 0 (omega arith)) (pure-Reads empty_sentinel)
text-Reads (chars []) h =
    >>=-Reads decode_elements (uint32-Reads (2 ^ 32 - 1) (omega arith)) (pure-Reads null)
text-Reads (chars (x ∷ xs)) h = rw (lt→ltb 0 (suc (length xs)) (omega arith)) (
    >>=-Reads decode_elements (uint32-Reads (length (x ∷ xs)) (omega arith))
      (elements-Reads (x ∷ xs) (omega arith) h))

elements-Consumes : (n : ℕ) → Consumes (decode_elements n)
unfolding decode_elements decode_content
elements-Consumes n = elim (Bool-cases (n == 0)) [
  | inl p ↦ rw p (pure-Consumes empty_sentinel)
  | inr p ↦ elim (Bool-cases (leb (2 ^ 31) n)) [
    | inl q ↦ rw (p, q) (pure-Consumes null)
    | inr q ↦
        rw (p, q)
          (ensure-Consumes (n / 32)
            (>>=-Consumes _ (read_bytes-Consumes n) (λ bs. pure-Consumes (chars bs))))
  ]
]

pub text-Consumes : Consumes decode_text
unfolding decode_text
text-Consumes = >>=-Consumes decode_elements uint32-Consumes elements-Consumes
