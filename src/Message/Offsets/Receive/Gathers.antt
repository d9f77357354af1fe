-- ===== src/Message/Offsets/Receive/Gathers.antt =====
-- Offsets that put the values standing at them into a message.
use open_pub_sub.Base.{
  ap, transport, ℕ, ◌+◌, ◌≡◌, refl, ◌∙◌, Bool, true, false, List, [], ◌∷◌, ◌++◌, append_assoc,
  length, length-append, drop-append, if◌then◌else◌, arith,
}
use open_pub_sub.Binary.Status.{Status, good}
use open_pub_sub.Binary.Reader.{Reader}
use open_pub_sub.Binary.Reader.Reads.{Reads}
use open_pub_sub.Binary.Writer.Writes.{part}
use open_pub_sub.Binary.VariantCodec.{VariantCodec}
use open_pub_sub.Message.Network.{NetworkMessage}
use open_pub_sub.Message.Offsets.{Content, NetworkMessageOffset}
use open_pub_sub.Message.Offsets.Receive.{decode_at, proceed, receive_one, receive_offsets}

-- Decoding at an offset reads what stands there, and moves behind it.
pub decode_at-there :
    {A : Type 0} {d : Reader A} {bs : List ℕ} {a : A} (z : A) (offset : ℕ) (pre post : List ℕ)
    → Reads d bs a
    → length pre ≡ offset
    → decode_at d z offset (pre ++ (bs ++ post)) ≡ (good, a, offset + length bs)
unfolding decode_at
decode_at-there {bs} {a} z offset pre post r e =
    rw (← e, drop-append pre (bs ++ post), r.reads post)
      (ap (λ n. (good, a, n))
        (omega (arith, length-append pre (bs ++ post), length-append bs post)))

module _ (c : VariantCodec) {S : Type 0} (position : ℕ) where
  -- Status and message, without the position.
  abbrev pub outcome :
      List (NetworkMessageOffset S c.Variant)
      → List ℕ
      → ℕ
      → NetworkMessage c.Variant
      → ℕ
      → Status × NetworkMessage c.Variant
  outcome offsets src offset nm counter =
      let (s, m, o) = receive_offsets c src position offsets good offset nm counter in (s, m)

  -- The offset of the previous round is overwritten.
  outcome-offset :
      (offsets : List (NetworkMessageOffset S c.Variant)) (src : List ℕ) (a b : ℕ)
      (nm : NetworkMessage c.Variant) (counter : ℕ)
      → outcome offsets src a nm counter ≡ outcome offsets src b nm counter
  unfolding receive_offsets
  outcome-offset [] src a b nm counter = refl
  outcome-offset (o ∷ os) src a b nm counter = refl

  -- The offsets, recorded from a place on, read `bs` at that place in any message that starts at the
  -- position, and make `nm` and the counter `n` into `nm'` and `n'`, with no error.
  pub record Gathers (offsets : ℕ → List (NetworkMessageOffset S c.Variant)) (bs : List ℕ)
      (nm : NetworkMessage c.Variant) (n : ℕ) (nm' : NetworkMessage c.Variant) (n' : ℕ)
      : Type 0 where
    pub gathers :
        (place : ℕ) (pre post : List ℕ) (more : List (NetworkMessageOffset S c.Variant))
        (offset : ℕ)
        → length pre ≡ place + position
        → outcome (offsets place ++ more) (pre ++ (bs ++ post)) offset nm n
          ≡ outcome more (pre ++ (bs ++ post)) offset nm' n'

  -- Bytes that no offset points to.
  pub skip-Gathers :
      (bs : List ℕ) (nm : NetworkMessage c.Variant) (n : ℕ) → Gathers (λ place. []) bs nm n nm n
  skip-Gathers bs nm n = record { gathers = λ place pre post more offset e. refl }

  pub slot-Gathers :
      (content : Content S c.Variant) (bs : List ℕ) {nm nm' : NetworkMessage c.Variant} {n n' : ℕ}
      → ((offset : ℕ) (pre post : List ℕ)
          → length pre ≡ offset
          → receive_one c {S = S} (pre ++ (bs ++ post)) position content offset nm n
            ≡ proceed good (offset + length bs) nm' n')
      → Gathers (λ place. record { content = content; offset = place } ∷ []) bs nm n nm' n'
  unfolding receive_offsets
  slot-Gathers content bs {nm} {nm'} {n} {n'} h = record {
    gathers = λ place pre post more offset e.
        rw (h (place + position) pre post e)
          (outcome-offset more (pre ++ (bs ++ post)) (place + position + length bs) offset nm' n');
  }

  pub ++-Gathers :
      {os qs : ℕ → List (NetworkMessageOffset S c.Variant)} {xs ys : List ℕ}
      {a b d : NetworkMessage c.Variant} {i j k : ℕ}
      → Gathers os xs a i b j
      → Gathers qs ys b j d k
      → Gathers (λ place. os place ++ qs (place + length xs)) (xs ++ ys) a i d k
  ++-Gathers {os} {qs} {xs} {ys} p q = record {
    gathers = λ place pre post more offset e.
        rw (append_assoc (os place) (qs (place + length xs)) more, append_assoc xs ys post)
          (p.gathers place pre (ys ++ post) (qs (place + length xs) ++ more) offset e
            ∙ (rw (append_assoc pre xs (ys ++ post)) at (
                q.gathers (place + length xs) (pre ++ xs) post more offset
                  (omega (arith, e, length-append pre xs)))));
  }

  pub Gathers-eq :
      {os qs : ℕ → List (NetworkMessageOffset S c.Variant)} {xs : List ℕ}
      {a b : NetworkMessage c.Variant} {i j : ℕ}
      → ((place : ℕ) → os place ≡ qs place)
      → Gathers os xs a i b j
      → Gathers qs xs a i b j
  Gathers-eq e p = record {
    gathers =
        λ place pre post more offset h. rw (← e place) (p.gathers place pre post more offset h);
  }

  pub Gathers-states :
      {os : ℕ → List (NetworkMessageOffset S c.Variant)} {xs : List ℕ}
      {a b a' b' : NetworkMessage c.Variant} {i j i' j' : ℕ}
      → a ≡ a'
      → i ≡ i'
      → b ≡ b'
      → j ≡ j'
      → Gathers os xs a i b j
      → Gathers os xs a' i' b' j'
  Gathers-states {os} {xs} d e f g p = transport (λ k. Gathers os xs (d k) (e k) (f k) (g k)) p

  pub if-Gathers :
      (t : Bool) {os : ℕ → List (NetworkMessageOffset S c.Variant)} {xs : List ℕ}
      {a b : NetworkMessage c.Variant} {i : ℕ}
      → Gathers os xs a i b i
      → Gathers (λ place. if t then os place else []) (part t xs) a i (if t then b else a) i
  unfolding part
  if-Gathers true p = p
  if-Gathers false {a} {i} p = skip-Gathers [] a i
