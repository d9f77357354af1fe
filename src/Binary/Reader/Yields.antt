-- ===== src/Binary/Reader/Yields.antt =====
-- What holds of the values that a decoder returns, whatever the input.
use open_pub_sub.Base.{ℕ, ◌≡◌, refl, Bool, true, false, List, if◌then◌else◌}
use open_pub_sub.Binary.Status.{Status}
use open_pub_sub.Binary.Reader.{Read, Reader, ok, err, pure, fail, read_if, ◌>>=◌, and_then}

abbrev pub Holds {ℓ κ} : {A : Type ℓ} → (A → Type κ) → Read A → Type κ
Holds P (ok a rest) = P a
Holds P (err s rest) = Unit

pub record Yields {ℓ κ} {A : Type ℓ} (P : A → Type κ) (d : Reader A) : Type κ where
  pub yields : (input : List ℕ) → Holds P (d input)

module _ {ℓ κ} {A : Type ℓ} {P : A → Type κ} where
  pub pure-Yields : (a : A) → P a → Yields P (pure a)
  unfolding pure
  pure-Yields a p = record { yields = λ input. p }

  pub fail-Yields : (s : Status) → Yields P (fail s)
  unfolding fail
  fail-Yields s = record { yields = λ input. tt }

  pub read_if-Yields :
      (c : Bool) {d : Reader A} (z : A)
      → (c ≡ true → Yields P d)
      → (c ≡ false → P z)
      → Yields P (read_if c d z)
  unfolding read_if
  read_if-Yields true z p q = p refl
  read_if-Yields false z p q = pure-Yields z (q refl)

  pub if-Yields :
      (c : Bool) {d k : Reader A}
      → (c ≡ true → Yields P d)
      → (c ≡ false → Yields P k)
      → Yields P (if c then d else k)
  if-Yields true p q = p refl
  if-Yields false p q = q refl

  and_then-Holds {ℓ' κ'} :
      {B : Type ℓ'} {Q : B → Type κ'} (k : A → Reader B) (r : Read A)
      → Holds P r
      → ((a : A) → P a → Yields Q (k a))
      → Holds Q (and_then r k)
  and_then-Holds k (ok a rest) h q = Yields.yields (q a h) rest
  and_then-Holds k (err s rest) h q = tt

  pub >>=-Yields {ℓ' κ'} :
      {B : Type ℓ'} {Q : B → Type κ'} {d : Reader A} {k : A → Reader B}
      → Yields P d
      → ((a : A) → P a → Yields Q (k a))
      → Yields Q (d >>= k)
  unfolding ◌>>=◌
  >>=-Yields {d} {k} p q = record {
    yields = λ input. and_then-Holds k (d input) (p.yields input) q;
  }

module _ {ℓ κ κ'} {A : Type ℓ} {P : A → Type κ} {Q : A → Type κ'} (q : (a : A) → P a → Q a) where
  weaker-Holds : (r : Read A) → Holds P r → Holds Q r
  weaker-Holds (ok a rest) h = q a h
  weaker-Holds (err s rest) h = tt

  pub weaker-Yields : {d : Reader A} → Yields P d → Yields Q d
  weaker-Yields {d} p = record { yields = λ input. weaker-Holds (d input) (p.yields input) }

module _ {ℓ κ ℓ' κ'} {A : Type ℓ} {P : A → Type κ} {B : Type ℓ'} {Q : B → Type κ'} where
  pub map-Yields :
      {d : Reader A} (f : A → B)
      → Yields P d
      → ((a : A) → P a → Q (f a))
      → Yields Q (d >>= λ a. pure (f a))
  map-Yields f p q = >>=-Yields p (λ a h. pure-Yields (f a) (q a h))

module _ {ℓ} {A : Type ℓ} where
  any-Holds : (r : Read A) → Holds (λ a. Unit {0}) r
  any-Holds (ok a rest) = tt
  any-Holds (err s rest) = tt

  -- Nothing is known of what is returned.
  pub any-Yields : (d : Reader A) → Yields (λ a. Unit {0}) d
  any-Yields d = record { yields = λ input. any-Holds (d input) }
