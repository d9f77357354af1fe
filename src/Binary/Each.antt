-- ===== src/Binary/Each.antt =====
-- Loops over the elements of an array: `for(i = 0; i < n; i++) { rv = …; if(rv != GOOD) return rv; }`.
use open_pub_sub.Base.{
  ap, ℕ, zero, suc, ◌+◌, ◌≡◌, refl, List, [], ◌∷◌, ◌++◌, map, length, length-append, All, arith,
}
use open_pub_sub.Binary.Writer.{Encoder, done, ◌>>◌}
use open_pub_sub.Binary.Writer.Writes.{Writes, done-Writes, >>-Writes}
use open_pub_sub.Binary.Writer.Safe.{Safe, done-Safe, >>-Safe}
use open_pub_sub.Binary.Reader.{Reader, pure, ◌>>=◌}
use open_pub_sub.Binary.Reader.Reads.{Reads, pure-Reads, >>=-Reads, map-Reads}
use open_pub_sub.Binary.Reader.Consumes.{Consumes, pure-Consumes, >>=-Consumes}
use open_pub_sub.Binary.Reader.Yields.{Yields, pure-Yields, >>=-Yields, map-Yields}

module _ {ℓ} {A : Type ℓ} where
  unfoldable pub encode_each : (A → Encoder) → List A → Encoder
  encode_each e [] = done
  encode_each e (x ∷ xs) = e x >> encode_each e xs

  unfoldable pub decode_each : Reader A → ℕ → Reader (List A)
  decode_each d zero = pure []
  decode_each d (suc n) = d >>= λ x. decode_each d n >>= λ xs. pure (x ∷ xs)

  -- The bytes of all elements.
  abbrev pub concat : (A → List ℕ) → List A → List ℕ
  concat f [] = []
  concat f (x ∷ xs) = f x ++ concat f xs

  -- `for(…) size += f(x);`
  abbrev pub sum : (A → ℕ) → List A → ℕ
  sum f [] = 0
  sum f (x ∷ xs) = f x + sum f xs

module _ {ℓ} {A : Type ℓ} where
  module _ {κ} {P : A → Type κ} where
    pub each-Writes :
        (e : A → Encoder) (f : A → List ℕ) (xs : List A)
        → ((x : A) → P x → Writes (e x) (f x))
        → All P xs
        → Writes (encode_each e xs) (concat f xs)
    unfolding encode_each
    each-Writes e f [] w h = done-Writes
    each-Writes e f (x ∷ xs) w h = >>-Writes (w x h.0) (each-Writes e f xs w h.1)

    pub each-Safe :
        (e : A → Encoder) (xs : List A)
        → ((x : A) → P x → Safe (e x))
        → All P xs
        → Safe (encode_each e xs)
    unfolding encode_each
    each-Safe e [] s h = done-Safe
    each-Safe e (x ∷ xs) s h = >>-Safe (s x h.0) (each-Safe e xs s h.1)

    pub each-Reads {ℓ'} :
        {B : Type ℓ'} (d : Reader B) (f : A → List ℕ) (g : A → B) (xs : List A)
        → ((x : A) → P x → Reads d (f x) (g x))
        → All P xs
        → Reads (decode_each d (length xs)) (concat f xs) (map g xs)
    unfolding decode_each
    each-Reads d f g [] r h = pure-Reads []
    each-Reads d f g (x ∷ xs) r h =
        >>=-Reads _ (r x h.0) (map-Reads (λ ys. g x ∷ ys) (each-Reads d f g xs r h.1))

    pub length-concat :
        (f : A → List ℕ) (s : A → ℕ) (xs : List A)
        → ((x : A) → P x → length (f x) ≡ s x)
        → All P xs
        → length (concat f xs) ≡ sum s xs
    length-concat f s [] e h = refl
    length-concat f s (x ∷ xs) e h =
        omega (arith, length-append (f x) (concat f xs), e x h.0, length-concat f s xs e h.1)

  pub each-Consumes : (d : Reader A) (n : ℕ) → Consumes d → Consumes (decode_each d n)
  unfolding decode_each
  each-Consumes d zero s = pure-Consumes []
  each-Consumes d (suc n) s =
      >>=-Consumes _ s (λ x. >>=-Consumes _ (each-Consumes d n s) (λ xs. pure-Consumes (x ∷ xs)))

  -- As many elements as were asked for, each as the decoder of one returns it.
  pub each-Yields {κ} :
      {P : A → Type κ} (d : Reader A) (n : ℕ)
      → Yields P d
      → Yields (λ xs. (length xs ≡ n) × All P xs) (decode_each d n)
  unfolding decode_each
  each-Yields d zero p = pure-Yields [] (refl, tt)
  each-Yields d (suc n) p =
      >>=-Yields p
        (λ x h. map-Yields (λ xs. x ∷ xs) (each-Yields d n p) (λ xs e. (ap suc e.0, (h, e.1))))
