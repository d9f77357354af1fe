-- ===== src/Message/Offsets/Receive/Fields.antt =====
-- The values of a key frame, read into the fields of the first message.
use open_pub_sub.Base.{
  ap, ℕ, suc, ◌+◌, ◌≤◌, ◌≡◌, ◌∙◌, refl, List, [], ◌∷◌, ◌++◌, append_assoc, length, length-append,
  All, true, arith,
}
use open_pub_sub.Binary.Status.{good}
use open_pub_sub.Binary.VariantCodec.{VariantCodec}
use open_pub_sub.Message.Offsets.Memory.{VariantMemory, Place}
use open_pub_sub.Binary.Each.{concat}
use open_pub_sub.Binary.DataValue.{DataValue}
use open_pub_sub.Binary.DataValue.Reading.{variant_decode_binary-Reads}
use open_pub_sub.Message.DataSet.{DataSetMessage}
use open_pub_sub.Message.DataSet.Fits.{VariantFits, key_field_encoding}
use open_pub_sub.Message.Network.{NetworkMessage}
use open_pub_sub.Message.Offsets.{payload_variant}
use open_pub_sub.Message.Offsets.Record.{record_variants}
use open_pub_sub.Message.Offsets.Receive.{update_at, proceed, receive_one}
use open_pub_sub.Message.Offsets.Receive.Gathers.{
  decode_at-there, Gathers, skip-Gathers, slot-Gathers, ++-Gathers, Gathers-eq, Gathers-states,
}

update_at-length :
    {A : Type 0} (xs : List A) (x : A) (ys : List A) (f : A → A)
    → update_at (length xs) f (xs ++ (x ∷ ys)) ≡ xs ++ (f x ∷ ys)
unfolding update_at
update_at-length [] x ys f = refl
update_at-length (y ∷ xs) x ys f = ap (λ zs. y ∷ zs) (update_at-length xs x ys f)

module _ (c : VariantCodec) where
  -- A field whose value has been received.
  abbrev pub received_field : DataValue c.Variant → DataValue c.Variant → DataValue c.Variant
  received_field field v = record field { value = c.canonical v.value; has_value = true }

  -- The first fields, each with the value that stands for it.
  unfoldable pub received_fields :
      List (DataValue c.Variant) → List (DataValue c.Variant) → List (DataValue c.Variant)
  received_fields [] vs = []
  received_fields (field ∷ fields) [] = field ∷ fields
  received_fields (field ∷ fields) (v ∷ vs) = received_field field v ∷ received_fields fields vs

  -- The buffer's message with given fields in its first message `t`.
  abbrev pub with_fields :
      NetworkMessage c.Variant
      → DataSetMessage c.Variant
      → List (DataSetMessage c.Variant)
      → List (DataValue c.Variant)
      → NetworkMessage c.Variant
  with_fields nm t ts fields = record nm {
    data_set_messages = record t { data_set_fields = fields } ∷ ts;
  }

  module _ (vm : VariantMemory c) {S : Type 0} (at : Place c vm S) (position : ℕ)
      (nm : NetworkMessage c.Variant) (t : DataSetMessage c.Variant)
      (ts : List (DataSetMessage c.Variant)) where
    field-Gathers :
        (i : ℕ) (recorded : c.Variant) (done : List (DataValue c.Variant))
        (field : DataValue c.Variant) (fields : List (DataValue c.Variant))
        (v : DataValue c.Variant)
        → VariantFits c v
        → Gathers c position
            (λ place.
              record {
                content =
                    payload_variant
                      (λ s. vm.scalar (vm.data_type recorded) (at.address i) (at.heap s));
                offset = place;
              }
              ∷ [])
            (key_field_encoding c v)
            (with_fields nm t ts (done ++ (field ∷ fields)))
            (length done)
            (with_fields nm t ts (done ++ (received_field field v ∷ fields)))
            (suc (length done))
    unfolding receive_one update_at
    field-Gathers i recorded done field fields v f =
        slot-Gathers c position
          (payload_variant (λ s. vm.scalar (vm.data_type recorded) (at.address i) (at.heap s)))
          (key_field_encoding c v)
          (λ offset pre post e.
            rw
              (decode_at-there c.empty offset pre post
                (variant_decode_binary-Reads c v.value f.fits) e)
              (ap
                (λ fields.
                  proceed good (offset + length (key_field_encoding c v))
                    (with_fields nm t ts fields) (suc (length done)))
                (ap (update_at (length done) (λ x. record x { has_value = true })) (
                    update_at-length done field fields
                      (λ x. record x { value = c.canonical v.value }))
                  ∙ update_at-length done (record field { value = c.canonical v.value }) fields
                      (λ x. record x { has_value = true }))))

    pub fields-Gathers :
        (i : ℕ) (done fields vs : List (DataValue c.Variant))
        → length vs ≤ length fields
        → All (VariantFits c) vs
        → Gathers c position
            (record_variants c vm at i vs)
            (concat (key_field_encoding c) vs)
            (with_fields nm t ts (done ++ fields))
            (length done)
            (with_fields nm t ts (done ++ received_fields fields vs))
            (length done + length vs)
    unfolding record_variants received_fields
    fields-Gathers i done [] [] h fs =
        Gathers-states c position refl refl refl (omega arith)
          (skip-Gathers c position [] _ (length done))
    fields-Gathers i done (field ∷ fields) [] h fs =
        Gathers-states c position refl refl refl (omega arith)
          (skip-Gathers c position [] _ (length done))
    fields-Gathers i done [] (v ∷ vs) h fs = absurd (omega (arith, h))
    fields-Gathers i done (field ∷ fields) (v ∷ vs) h fs =
        let here = field-Gathers i v.value done field fields v fs.0 in
        let more =
          fields-Gathers (suc i) (done ++ (received_field field v ∷ [])) fields vs
            (omega (arith, h)) fs.1 in
        Gathers-eq c position (λ place. rw (c.length-encoding v.value fs.0.fits) refl)
          (Gathers-states c position refl refl refl
            (omega (arith, length-append done (received_field field v ∷ [])))
            (++-Gathers c position here (
              Gathers-states c position (ap (with_fields nm t ts) (append_assoc done _ _))
                (omega (arith, length-append done (received_field field v ∷ [])))
                (ap (with_fields nm t ts) (append_assoc done _ _)) refl more)))
