-- ===== src/Message/Network/Promoted.antt =====
-- The loop over the promoted fields of a NetworkMessage: what it reads of encoded fields.
use open_pub_sub.Base.{
  le→ltb, ℕ, zero, suc, ◌+◌, ◌<◌, ◌≤◌, ◌≡◌, refl, lt→ltb, List, [], ◌∷◌, ◌++◌, map, length,
  append_assoc, append-nil, length-append, All, arith,
}
use open_pub_sub.Binary.Reader.{ok, pure, ◌>>=◌}
use open_pub_sub.Binary.Reader.Reads.{Reads}
use open_pub_sub.Binary.Each.{concat}
use open_pub_sub.Binary.VariantCodec.{VariantCodec}
use open_pub_sub.Binary.DataValue.Reading.{variant_decode_binary-Reads}
use open_pub_sub.Message.Network.Fits.{PromotedFits}
use open_pub_sub.Message.Network.Decode.{decode_promoted_values, decode_promoted_content}

module _ (c : VariantCodec) where
  bytes_enough :
      (vs : List c.Variant) → All (PromotedFits c) vs → length vs ≤ length (concat c.encoding vs)
  bytes_enough [] fs = omega arith
  bytes_enough (v ∷ vs) fs = omega (
    arith,
    length-append (c.encoding v) (concat c.encoding vs),
    c.encoding-NonEmpty v fs.0.fits,
    bytes_enough vs fs.1,
  )

  -- After each field but the last one the loop goes on, and after the last one it ends.
  values_read :
      (v : c.Variant) (vs : List c.Variant) (fuel whole size : ℕ) (rest : List ℕ)
      → All (PromotedFits c) (v ∷ vs)
      → length vs < fuel
      → whole ≡ length rest + size
      → decode_promoted_values c fuel whole size (concat c.encoding (v ∷ vs) ++ rest)
        ≡ ok (map c.canonical (v ∷ vs)) rest
  unfolding decode_promoted_values ◌>>=◌ pure
  values_read v vs zero whole size rest fs h e = absurd (omega arith)
  values_read v [] (suc fuel) whole size rest fs h e =
      rw
        (
          append-nil (c.encoding v),
          (variant_decode_binary-Reads c v fs.0.fits).reads rest,
          le→ltb whole (length rest + size) (omega arith),
        )
        refl
  values_read v (w ∷ ws) (suc fuel) whole size rest fs h e =
      rw
        (
          append_assoc (c.encoding v) (concat c.encoding (w ∷ ws)) rest,
          (variant_decode_binary-Reads c v fs.0.fits).reads (concat c.encoding (w ∷ ws) ++ rest),
          lt→ltb whole (length (concat c.encoding (w ∷ ws) ++ rest) + size) (
              omega (
                arith,
                bytes_enough (w ∷ ws) fs.1,
                length-append (concat c.encoding (w ∷ ws)) rest,
              )),
          values_read w ws fuel whole size rest fs.1 (omega arith) e,
        )
        refl

  -- The size in bytes says where the fields end.
  pub content-Reads :
      (vs : List c.Variant) (size : ℕ)
      → All (PromotedFits c) vs
      → size ≡ length (concat c.encoding vs)
      → Reads (decode_promoted_content c size) (concat c.encoding vs) (map c.canonical vs)
  unfolding decode_promoted_content
  content-Reads [] size fs e = record { reads = λ rest. rw e refl }
  content-Reads (v ∷ vs) size fs e = record {
    reads = λ rest.
        let more = length-append (concat c.encoding (v ∷ vs)) rest in
        rw (lt→ltb 0 size (omega (arith, e, bytes_enough (v ∷ vs) fs))) (
          values_read v vs (suc (length (concat c.encoding (v ∷ vs) ++ rest)))
            (length (concat c.encoding (v ∷ vs) ++ rest)) size rest fs
            (omega (arith, more, bytes_enough (v ∷ vs) fs)) (omega (arith, more, e)));
  }
