-- ===== src/Message/Offsets/Patches.antt =====
-- Offsets that turn the encoding of one value into that of another, in place.
use open_pub_sub.Base.{
  ℕ, ◌+◌, ◌≡◌, refl, ◌∙◌, Bool, true, false, List, [], ◌∷◌, ◌++◌, append_assoc, length,
  length-append, take-append, drop-append, some, if◌then◌else◌, arith,
}
use open_pub_sub.Binary.Status.{good}
use open_pub_sub.Binary.Writer.{Encoder, put}
use open_pub_sub.Binary.Writer.Writes.{Writes, part}
use open_pub_sub.Binary.VariantCodec.{VariantCodec}
use open_pub_sub.Message.Offsets.{
  Content, NetworkMessageOffset, encode_at, update_one, encoder_of, update_offsets,
}

-- Encoding over bytes of the same length replaces them.
pub encode_at-over :
    {e : Encoder} (pre old new post : List ℕ)
    → Writes e new
    → length old ≡ length new
    → encode_at e (length pre) (pre ++ (old ++ post)) ≡ (good, pre ++ (new ++ post))
unfolding encode_at put
encode_at-over {e} pre old new post w same =
    rw
      (
        take-append pre (old ++ post),
        drop-append pre (old ++ post),
        w.fits (record { before = pre; after = old ++ post })
            (omega (arith, same, length-append old post)),
        ← same,
        drop-append old post,
        append_assoc pre new post,
      )
      refl

module _ (c : VariantCodec) {S : Type 0} (memory : S) where
  -- The offsets, recorded from a position on, change `old` into `new` at that position in any buffer,
  -- leave the rest of it, and end with status good.
  pub record Patches (offsets : ℕ → List (NetworkMessageOffset S c.Variant)) (old new : List ℕ)
      : Type 0 where
    pub same_length : length old ≡ length new
    pub patches :
        (pre post : List ℕ) (more : List (NetworkMessageOffset S c.Variant))
        → update_offsets c memory good (offsets (length pre) ++ more) (pre ++ (old ++ post))
          ≡ update_offsets c memory good more (pre ++ (new ++ post))

  -- Bytes that no offset points to stay.
  pub keep-Patches : (bs : List ℕ) → Patches (λ position. []) bs bs
  keep-Patches bs = record { same_length = refl; patches = λ pre post more. refl }

  pub slot-Patches :
      (content : Content S c.Variant) {e : Encoder} (old new : List ℕ)
      → encoder_of c memory content ≡ some e
      → Writes e new
      → length old ≡ length new
      → Patches (λ position. record { content = content; offset = position } ∷ []) old new
  unfolding update_offsets update_one
  slot-Patches content old new given w same = record {
    same_length = same;
    patches = λ pre post more. rw (given, encode_at-over pre old new post w same) refl;
  }

  pub ++-Patches :
      {os qs : ℕ → List (NetworkMessageOffset S c.Variant)} {old new later newer : List ℕ}
      → Patches os old new
      → Patches qs later newer
      → Patches
          (λ position. os position ++ qs (position + length old))
          (old ++ later)
          (new ++ newer)
  ++-Patches {os} {qs} {old} {new} {later} {newer} p q = record {
    same_length =
        omega
          (arith, p.same_length, q.same_length, length-append old later, length-append new newer);
    patches = λ pre post more.
        let position : length (pre ++ new) ≡ length pre + length old =
          omega (arith, length-append pre new, p.same_length) in
        rw
          (
            append_assoc (os (length pre)) (qs (length pre + length old)) more,
            append_assoc old later post,
            append_assoc new newer post,
          )
          (p.patches pre (later ++ post) (qs (length pre + length old) ++ more)
            ∙ (rw
                (
                  append_assoc pre new (later ++ post),
                  append_assoc pre new (newer ++ post),
                  position,
                )
                at (q.patches (pre ++ new) post more)));
  }

  -- The same offsets, however they are computed.
  pub Patches-eq :
      {os qs : ℕ → List (NetworkMessageOffset S c.Variant)} {old new old' new' : List ℕ}
      → ((position : ℕ) → os position ≡ qs position)
      → old ≡ old'
      → new ≡ new'
      → Patches os old new
      → Patches qs old' new'
  Patches-eq e o n p = record {
    same_length = rw (← o, ← n) p.same_length;
    patches = λ pre post more. rw (← e (length pre), ← o, ← n) (p.patches pre post more);
  }

  pub if-Patches :
      (b : Bool) {os : ℕ → List (NetworkMessageOffset S c.Variant)} {old new : List ℕ}
      → Patches os old new
      → Patches (λ position. if b then os position else []) (part b old) (part b new)
  unfolding part
  if-Patches true p = p
  if-Patches false p = keep-Patches []
