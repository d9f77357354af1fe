-- ===== src/Message/Offsets/Receive/Correct.antt =====
-- Updating the buffer's message from an encoded message, through the offsets recorded for it.
use open_pub_sub.Base.{
  ℕ, ◌≤◌, ◌≡◌, true, List, [], ◌++◌, append-nil, append_assoc, drop, length, arith,
}
use open_pub_sub.Binary.Status.{Status, good}
use open_pub_sub.Binary.Writer.{Buffer, put}
use open_pub_sub.Binary.VariantCodec.{VariantCodec}
use open_pub_sub.Message.Offsets.Memory.{VariantMemory}
use open_pub_sub.Message.Network.{NetworkMessage}
use open_pub_sub.Message.Network.Encode.{encode_network_message}
use open_pub_sub.Message.Network.Size.{calc_size_network_message}
use open_pub_sub.Message.Network.Fits.{LateParts, network_message_encoding}
use open_pub_sub.Message.Network.Total.{length-network_message_encoding}
use open_pub_sub.Message.Network.Correct.{network_message-Writes}
use open_pub_sub.Message.Offsets.Network.{record_network_message}
use open_pub_sub.Message.Offsets.Receive.{update_buffered_nw_message, receive_offsets}
use open_pub_sub.Message.Offsets.Receive.Expected.{RealTime, Template, received_message}
use open_pub_sub.Message.Offsets.Receive.Whole.{offsets_from, network-Gathers}
use open_pub_sub.Message.Offsets.Receive.Recorded.{recorded}

-- Without the position.
abbrev pub status_and_message :
    {V : Type 0} → Status × NetworkMessage V × ℕ → Status × NetworkMessage V
status_and_message (s, m, position) = (s, m)

module _ (c : VariantCodec) (vm : VariantMemory c) (w nm : NetworkMessage c.Variant)
    (r : RealTime c w) (t : Template c w r nm) where
  received :
      (pre post : List ℕ)
      → status_and_message (
          update_buffered_nw_message c
            (pre ++ (network_message_encoding c w ++ post))
            (length pre)
            (record_network_message c vm true w)
            nm)
        ≡ (good, received_message c w nm r t)
  unfolding update_buffered_nw_message receive_offsets
  received pre post =
      rw (recorded c vm w r, ← append-nil (offsets_from c vm w r 0))
        ((network-Gathers c vm w r nm t (length pre)).gathers 0 pre post [] 0 (omega arith))

  encoded :
      (b : Buffer)
      → LateParts c w
      → calc_size_network_message c w ≤ length b.after
      → (encode_network_message c w b).1.before ++ (encode_network_message c w b).1.after
        ≡ b.before
          ++ (network_message_encoding c w ++ drop (length (network_message_encoding c w)) b.after)
  unfolding put
  encoded b late room =
      rw
        ((network_message-Writes c w r.fits late).fits b
          (omega (arith, room, length-network_message_encoding c w r.fits)))
        (append_assoc b.before _ _)

-- Over any codec of variants, and whatever takes the value of a variant as a scalar: let `w` be a
-- NetworkMessage that is encoded into a buffer with room for its size, with values in range, no part
-- longer than what follows it, neither a timestamp nor picoseconds, a publisher id that is not a
-- string, and one DataSetMessage, a key frame of variants without a sequence number. Let the buffer's
-- message `nm` have the same type of publisher id and at least as many fields, and let the offsets be
-- those that the size computation records for a subscriber for `w`, or for a message `m` of the same
-- layout. Then updating the buffer's message from the encoded bytes, at the position where they start,
-- ends with status good, and the buffer's message is `nm` with the publisher id, the writer group id,
-- the sequence number and the first writer id that `w` has, each where it is enabled, and with the
-- values of `w`, as they are decoded, in the fields of its first DataSetMessage.
pub update_buffered_nw_message-encode_network_message :
    (c : VariantCodec) (vm : VariantMemory c) (w m nm : NetworkMessage c.Variant) (b : Buffer)
    (r : RealTime c w) (t : Template c w r nm)
    → record_network_message c vm true m ≡ record_network_message c vm true w
    → LateParts c w
    → calc_size_network_message c w ≤ length b.after
    → status_and_message (
        update_buffered_nw_message c
          ((encode_network_message c w b).1.before ++ (encode_network_message c w b).1.after)
          (length b.before)
          (record_network_message c vm true m)
          nm)
      ≡ (good, received_message c w nm r t)
update_buffered_nw_message-encode_network_message c vm w m nm b r t same late room =
    rw (same, encoded c vm w nm r t b late room) (received c vm w nm r t b.before _)
