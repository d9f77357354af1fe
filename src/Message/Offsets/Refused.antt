-- ===== src/Message/Offsets/Refused.antt =====
-- Offsets whose content `UA_NetworkMessage_updateBufferedMessage` does not support.
use open_pub_sub.Base.{◌+◌, ◌*◌, ℕ, ◌≡◌, refl, true, false, List, [], ◌∷◌, ◌++◌, Option, none, some}
use open_pub_sub.Binary.Status.{Status, good, bad_not_supported}
use open_pub_sub.Binary.Writer.{Encoder}
use open_pub_sub.Binary.VariantCodec.{VariantCodec}
use open_pub_sub.Message.Offsets.Memory.{VariantMemory, Memory}
use open_pub_sub.Message.Network.{NetworkMessage}
use open_pub_sub.Message.Network.Size.{
  calc_size_front, calc_size_payload_header, calc_size_writer_ids,
}
use open_pub_sub.Message.Network.Fits.{NetworkMessageFits, PayloadFits, single, counted}
use open_pub_sub.Message.Offsets.{
  NetworkMessageOffset, encode_at, update_one, encoder_of, update_offsets, update_buffered_message,
}
use open_pub_sub.Message.Offsets.Network.{
  Offsets, record_front, record_rest, record_behind, record_writer_ids, record_network_message,
}

one_round :
    (e : Option Encoder) (offset : ℕ) (bytes : List ℕ) (rest : Status → List ℕ → Status × List ℕ)
    → ((s : Status) (bs : List ℕ) → (rest s bs).0 ≡ bad_not_supported)
    → (update_one e offset bytes rest).0 ≡ bad_not_supported
unfolding update_one
one_round none offset bytes rest h = refl
one_round (some e) offset bytes rest h = let (s, bs) = encode_at e offset bytes in h s bs

module _ (c : VariantCodec) {S : Type 0} (memory : S) where
  -- An offset that is not supported ends the loop with its status, whatever stands before it.
  refused :
      (o : NetworkMessageOffset S c.Variant) (xs ys : List (NetworkMessageOffset S c.Variant))
      (rv : Status) (bytes : List ℕ)
      → encoder_of c memory o.content ≡ none
      → (update_offsets c memory rv (xs ++ (o ∷ ys)) bytes).0 ≡ bad_not_supported
  unfolding update_offsets update_one
  refused o [] ys rv bytes e = rw e refl
  refused o (x ∷ xs) ys rv bytes e =
      one_round (encoder_of c memory x.content) x.offset bytes
        (λ s bs. update_offsets c memory s (xs ++ (o ∷ ys)) bs) (λ s bs. refused o xs ys s bs e)

module _ (c : VariantCodec) (vm : VariantMemory c) (w : Memory c vm) (m : NetworkMessage c.Variant)
    (timed : m.timestamp_enabled ≡ true) (bytes : List ℕ) where
  rest_refused :
      (size : ℕ) (before : Offsets c vm false)
      → (update_buffered_message c w (before ++ record_rest c vm false m size) bytes).0
        ≡ bad_not_supported
  unfolding update_buffered_message record_rest encoder_of
  rest_refused size before = rw timed (refused c w _ before _ good bytes refl)

  network_refused :
      PayloadFits c m
      → m.network_message_type ≡ 0
      → (update_buffered_message c w (record_network_message c vm false m) bytes).0
        ≡ bad_not_supported
  unfolding record_network_message record_behind record_writer_ids calc_size_payload_header
      calc_size_writer_ids
  network_refused (single off one) t =
      simp off (rest_refused (calc_size_front c m) (record_front c vm false m))
  network_refused (counted on ids given n k p) t =
      simp (on, t, given)
        (rest_refused (calc_size_front c m + 1 + 2 * m.count) (record_front c vm false m))

-- Over any codec of variants, for a NetworkMessage that fits and has a timestamp, the offsets that
-- its size computation records make the update of any buffer end with the status for what is not
-- supported, whatever the values are that are to be written.
pub update_buffered_message-timestamp :
    (c : VariantCodec) (vm : VariantMemory c) (w : Memory c vm) (m : NetworkMessage c.Variant)
    (bytes : List ℕ)
    → NetworkMessageFits c m
    → m.timestamp_enabled ≡ true
    → (update_buffered_message c w (record_network_message c vm false m) bytes).0
      ≡ bad_not_supported
update_buffered_message-timestamp c vm w m bytes f timed =
    network_refused c vm w m timed bytes f.payload_fits f.is_data_set
