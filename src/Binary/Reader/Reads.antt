-- ===== src/Binary/Reader/Reads.antt =====
-- Decoders that take exactly given bytes off the input and return a given value.
use open_pub_sub.Base.{
  ℕ, ◌≡◌, refl, Bool, true, false, List, [], ◌++◌, if◌then◌else◌, length, append_assoc,
  length-append, take-append, drop-append, le→leb, arith,
}
use open_pub_sub.Binary.Writer.Writes.{part}
use open_pub_sub.Binary.Reader.{Reader, ok, pure, read_if, decode_binary, ◌>>=◌, also, read_bytes}

-- Whatever follows `bs`, `d` returns `a` and leaves it.
pub record Reads {ℓ} {A : Type ℓ} (d : Reader A) (bs : List ℕ) (a : A) : Type ℓ where
  pub reads : (rest : List ℕ) → d (bs ++ rest) ≡ ok a rest

module _ {ℓ} {A : Type ℓ} where
  pub pure-Reads : (a : A) → Reads (pure a) [] a
  unfolding pure
  pure-Reads a = record { reads = λ rest. refl }

  pub decode_binary-Reads :
      {d : Reader A} {bs : List ℕ} {a : A} → Reads d bs a → Reads (decode_binary d) bs a
  unfolding decode_binary
  decode_binary-Reads r = record { reads = λ rest. rw (r.reads rest) }

  pub read_if-Reads :
      (c : Bool) {d : Reader A} {bs : List ℕ} {a : A} (z : A)
      → Reads d bs a
      → Reads (read_if c d z) (part c bs) (if c then a else z)
  unfolding read_if part
  read_if-Reads true z r = r
  read_if-Reads false z r = pure-Reads z

  pub >>=-Reads {κ} :
      {B : Type κ} {d : Reader A} (k : A → Reader B) {xs ys : List ℕ} {a : A} {b : B}
      → Reads d xs a
      → Reads (k a) ys b
      → Reads (d >>= k) (xs ++ ys) b
  unfolding ◌>>=◌
  >>=-Reads k {xs} {ys} p q = record {
    reads = λ rest. rw (append_assoc xs ys rest, p.reads (ys ++ rest)) (q.reads rest);
  }

  pub also-Reads {κ} :
      {B : Type κ} {d : Reader A} {k : Reader B} {xs ys : List ℕ} {a : A} {b : B}
      → Reads d xs a
      → Reads k ys b
      → Reads (also d k) (xs ++ ys) (a, b)
  unfolding also
  also-Reads {xs} {ys} p q = record {
    reads = λ rest. rw (append_assoc xs ys rest, p.reads (ys ++ rest), q.reads rest);
  }

pub read_bytes-Reads : (bs : List ℕ) → Reads (read_bytes (length bs)) bs bs
unfolding read_bytes
read_bytes-Reads bs = record {
  reads = λ rest.
      rw (le→leb (length bs) (length (bs ++ rest)) (omega (arith, length-append bs rest)))
        (rw (take-append bs rest, drop-append bs rest));
}

module _ {ℓ} {A : Type ℓ} where
  -- The last value that is read, put into the result.
  pub map-Reads {κ} :
      {B : Type κ} {d : Reader A} (f : A → B) {bs : List ℕ} {a : A}
      → Reads d bs a
      → Reads (d >>= λ x. pure (f x)) bs (f a)
  unfolding ◌>>=◌ pure
  map-Reads f r = record { reads = λ rest. rw (r.reads rest) }

  pub Reads-eq :
      {d : Reader A} {bs cs : List ℕ} {a b : A} → bs ≡ cs → a ≡ b → Reads d bs a → Reads d cs b
  Reads-eq {d} p q r = record { reads = λ rest. rw (← p, ← q) (r.reads rest) }
