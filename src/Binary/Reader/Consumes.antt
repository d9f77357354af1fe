-- ===== src/Binary/Reader/Consumes.antt =====
-- Decoders take the bytes they read off the front of the input and look at no other: a decoder that
-- succeeds does so whatever follows, and leaves that.
use open_pub_sub.Base.{
  ℕ, ◌≡◌, refl, sym, ◌∙◌, Bool, true, false, List, [], ◌++◌, length, leb, take, append_assoc,
  Bool-cases, inl, inr, take_append_drop, take-append_le, drop-append_le, leb→le, le→leb,
  length-append, arith, if◌then◌else◌,
}
use open_pub_sub.Binary.Status.{Status}
use open_pub_sub.Binary.Reader.{
  Read, Reader, ok, err, remaining, pure, fail, read_if, decode_binary, ◌>>=◌, also, read_bytes,
  settle, and_then, join,
}

-- What is left is the input without some bytes at its front.
pub record Suffix (rest input : List ℕ) : Type 0 where
  pub taken : List ℕ
  pub split : input ≡ taken ++ rest

-- What a decoder returned stays what it returns when `more` follows the input.
abbrev Kept {ℓ} : {A : Type ℓ} → List ℕ → Read A → Read A → Type ℓ
Kept more (ok a rest) x = x ≡ ok a (rest ++ more)
Kept more (err s rest) x = Unit

-- A decoder that reads behind the end of the input would return more where more follows.
pub record Consumes {ℓ} {A : Type ℓ} (d : Reader A) : Type ℓ where
  pub consumes : (input : List ℕ) → Suffix (remaining (d input)) input
  pub kept : (input more : List ℕ) → Kept more (d input) (d (input ++ more))

pub Suffix-refl : (l : List ℕ) → Suffix l l
Suffix-refl l = record { taken = []; split = refl }

pub Suffix-trans : {a b c : List ℕ} → Suffix a b → Suffix b c → Suffix a c
Suffix-trans {a} p q = record {
  taken = q.taken ++ p.taken;
  split = q.split ∙ rw p.split (sym (append_assoc q.taken p.taken a));
}

module _ {ℓ} {A : Type ℓ} where
  pub pure-Consumes : (a : A) → Consumes (pure a)
  unfolding pure
  pure-Consumes a = record { consumes = Suffix-refl; kept = λ input more. refl }

  pub fail-Consumes : (s : Status) → Consumes (fail {A = A} s)
  unfolding fail
  fail-Consumes s = record { consumes = Suffix-refl; kept = λ input more. tt }

  pub read_if-Consumes : (c : Bool) {d : Reader A} (z : A) → Consumes d → Consumes (read_if c d z)
  unfolding read_if
  read_if-Consumes true z p = p
  read_if-Consumes false z p = pure-Consumes z

  settle-Suffix :
      (input : List ℕ) (r : Read A)
      → Suffix (remaining r) input
      → Suffix (remaining (settle input r)) input
  settle-Suffix input (ok a t) h = h
  settle-Suffix input (err s t) h = Suffix-refl input

  settle-Kept :
      (input whole more : List ℕ) (r x : Read A)
      → Kept more r x
      → Kept more (settle input r) (settle whole x)
  settle-Kept input whole more (ok a t) x h = rw h refl
  settle-Kept input whole more (err s t) x h = tt

  pub decode_binary-Consumes : {d : Reader A} → Consumes d → Consumes (decode_binary d)
  unfolding decode_binary
  decode_binary-Consumes {d} p = record {
    consumes = λ input. settle-Suffix input (d input) (p.consumes input);
    kept = λ input more.
        settle-Kept input (input ++ more) more (d input) (d (input ++ more)) (p.kept input more);
  }

  and_then-Suffix {κ} :
      {B : Type κ} (k : A → Reader B) (input : List ℕ) (r : Read A)
      → ((a : A) → Consumes (k a))
      → Suffix (remaining r) input
      → Suffix (remaining (and_then r k)) input
  and_then-Suffix k input (ok a t) ck h = Suffix-trans (Consumes.consumes (ck a) t) h
  and_then-Suffix k input (err s t) ck h = h

  and_then-Kept {κ} :
      {B : Type κ} (k : A → Reader B) (more : List ℕ) (r x : Read A)
      → ((a : A) → Consumes (k a))
      → Kept more r x
      → Kept more (and_then r k) (and_then x k)
  and_then-Kept k more (ok a t) x ck h = rw h (Consumes.kept (ck a) t more)
  and_then-Kept k more (err s t) x ck h = tt

  pub >>=-Consumes {κ} :
      {B : Type κ} {d : Reader A} (k : A → Reader B)
      → Consumes d
      → ((a : A) → Consumes (k a))
      → Consumes (d >>= k)
  unfolding ◌>>=◌
  >>=-Consumes {d} k p q = record {
    consumes = λ input. and_then-Suffix k input (d input) q (p.consumes input);
    kept = λ input more. and_then-Kept k more (d input) (d (input ++ more)) q (p.kept input more);
  }

  remaining-join {κ} : {B : Type κ} (r : Read A) (t : Read B) → remaining (join r t) ≡ remaining t
  remaining-join (ok a _) (ok b t) = refl
  remaining-join (ok a _) (err s t) = refl
  remaining-join (err s _) (ok b t) = refl
  remaining-join (err s _) (err u t) = refl

  join_right-Kept {κ} :
      {B : Type κ} (more : List ℕ) (a : A) (t : List ℕ) (r x : Read B)
      → Kept more r x
      → Kept more (join (ok a t) r) (join (ok a (t ++ more)) x)
  join_right-Kept more a t (ok b u) x h = rw h refl
  join_right-Kept more a t (err s u) x h = tt

  join_failed-Kept {κ} :
      {B : Type κ} (more : List ℕ) (s : Status) (t : List ℕ) (r : Read B) (x : Read (A × B))
      → Kept more (join (err s t) r) x
  join_failed-Kept more s t (ok b u) x = tt
  join_failed-Kept more s t (err v u) x = tt

  join-Kept {κ} :
      {B : Type κ} (k : Reader B) (more : List ℕ) (r x : Read A)
      → Consumes k
      → Kept more r x
      → Kept more (join r (k (remaining r))) (join x (k (remaining x)))
  join-Kept k more (ok a t) x c h =
      rw h (join_right-Kept more a t (k t) (k (t ++ more)) (c.kept t more))
  join-Kept k more (err s t) x c h = join_failed-Kept more s t (k t) _

  pub if-Consumes :
      (b : Bool) {d k : Reader A} → Consumes d → Consumes k → Consumes (if b then d else k)
  if-Consumes true p q = p
  if-Consumes false p q = q

  pub also-Consumes {κ} :
      {B : Type κ} {d : Reader A} {k : Reader B} → Consumes d → Consumes k → Consumes (also d k)
  unfolding also
  also-Consumes {d} {k} p q = record {
    consumes = λ input.
        rw (remaining-join (d input) (k (remaining (d input))))
          (Suffix-trans (q.consumes (remaining (d input))) (p.consumes input));
    kept = λ input more. join-Kept k more (d input) (d (input ++ more)) q (p.kept input more);
  }

read_bytes-Kept :
    (n : ℕ) (input more : List ℕ) → Kept more (read_bytes n input) (read_bytes n (input ++ more))
unfolding read_bytes
read_bytes-Kept n input more = elim (Bool-cases (leb n (length input))) [
  | inl p ↦
      let room = leb→le n (length input) p in
      rw
        (
          p,
          le→leb n (length (input ++ more)) (omega (arith, room, length-append input more)),
          take-append_le n input more room,
          drop-append_le n input more room,
        )
        refl
  | inr p ↦ rw p tt
]

pub read_bytes-Consumes : (n : ℕ) → Consumes (read_bytes n)
unfolding read_bytes
read_bytes-Consumes n = record {
  consumes = λ input. elim (Bool-cases (leb n (length input))) [
    | inl p ↦ rw p (record { taken = take n input; split = sym (take_append_drop n input) })
    | inr p ↦ rw p (Suffix-refl input)
  ];
  kept = λ input more. read_bytes-Kept n input more;
}

-- A success says what was consumed, and holds whatever follows.
pub local {ℓ} :
    {A : Type ℓ} {d : Reader A} {a : A} {rest : List ℕ} (input more : List ℕ)
    → Consumes d
    → d input ≡ ok a rest
    → Suffix rest input × (d (input ++ more) ≡ ok a (rest ++ more))
local input more c e = (rw e at (c.consumes input), rw e at (c.kept input more))
