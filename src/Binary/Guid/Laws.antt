-- ===== src/Binary/Guid/Laws.antt =====
-- Guids: sixteen bytes are written or none is kept, and they are read back.
use open_pub_sub.Base.{
  ℕ, ◌<◌, ◌≤◌, ◌^◌, ◌≡◌, false, List, ◌++◌, length, arith, append_assoc, ltb, length-append,
  Bool-cases, inl, inr, take_front, drop_front,
}
use open_pub_sub.Binary.Status.{is_good}
use open_pub_sub.Binary.Writer.{Buffer}
use open_pub_sub.Binary.Writer.Writes.{Writes, also-Writes, length-after_put, put-put}
use open_pub_sub.Binary.Writer.Safe.{Safe, Extends, also-Safe, put-Extends, Extends-trans}
use open_pub_sub.Binary.Reader.{ok}
use open_pub_sub.Binary.Reader.Reads.{Reads, also-Reads}
use open_pub_sub.Binary.Scalars.{encode16, encode32}
use open_pub_sub.Binary.Scalars.Laws.{
  uint16-Writes, uint32-Writes, uint16-Safe, uint32-Safe, uint16-Reads, uint32-Reads,
  length-encode16, length-encode32,
}
use open_pub_sub.Binary.Guid.{
  Guid, encode_guid_head, encode_guid, decode_guid_head, decode_guid_tail, decode_guid,
  calc_size_guid,
}
use native.Mathlib.Decide.{dec_le}

-- The parts are in the ranges of their C types.
pub record GuidFits (g : Guid) : Type 0 where
  pub first : g.data1 < 2 ^ 32
  pub second : g.data2 < 2 ^ 16
  pub third : g.data3 < 2 ^ 16
  pub last : length g.data4 ≡ 8

abbrev pub guid_head : Guid → List ℕ
guid_head g = (encode32 g.data1 ++ encode16 g.data2) ++ encode16 g.data3

unfoldable pub guid_encoding : Guid → List ℕ
guid_encoding g = guid_head g ++ g.data4

length-guid_head : (g : Guid) → length (guid_head g) ≡ 8
length-guid_head g = omega (
  arith,
  length-append (encode32 g.data1 ++ encode16 g.data2) (encode16 g.data3),
  length-append (encode32 g.data1) (encode16 g.data2),
  length-encode32 g.data1,
  length-encode16 g.data2,
  length-encode16 g.data3,
)

pub length-guid_encoding : (g : Guid) → GuidFits g → length (guid_encoding g) ≡ calc_size_guid g
unfolding guid_encoding calc_size_guid
length-guid_encoding g h =
    omega (arith, length-append (guid_head g) g.data4, length-guid_head g, h.last)

head-Writes : (g : Guid) → Writes (encode_guid_head g) (guid_head g)
unfolding encode_guid_head
head-Writes g =
    also-Writes (also-Writes (uint32-Writes g.data1) (uint16-Writes g.data2))
      (uint16-Writes g.data3)

head-Safe : (g : Guid) → Safe (encode_guid_head g)
unfolding encode_guid_head
head-Safe g =
    also-Safe (also-Safe (uint32-Safe g.data1) (uint16-Safe g.data2)) (uint16-Safe g.data3)

pub guid-Writes : (g : Guid) → GuidFits g → Writes (encode_guid g) (guid_encoding g)
unfolding encode_guid guid_encoding
guid-Writes g h = record {
  fits = λ b room.
      let whole = length-append (guid_head g) g.data4 in
      let first = length-guid_head g in
      let left = length-after_put (guid_head g) b in
      rw (Writes.fits (head-Writes g) b (omega (arith, h.last)))
        (ground (arith, h.last, put-put (guid_head g) g.data4 b));
  short = λ b tight. no_room b tight (dec_le 8 (length b.after));
}
  where
    no_room :
        (b : Buffer)
        → length b.after < length (guid_head g ++ g.data4)
        → Dec (8 ≤ length b.after)
        → is_good (encode_guid g b).0 ≡ false
    no_room b tight (yes p) =
        let whole = length-append (guid_head g) g.data4 in
        let first = length-guid_head g in
        let left = length-after_put (guid_head g) b in
        rw (Writes.fits (head-Writes g) b (omega arith)) (ground (arith, h.last))
    no_room b tight (no p) = ground (arith, Extends.size (Safe.extends (head-Safe g) b))

tail-ok :
    (g : Guid) (rest : List ℕ)
    → length g.data4 ≡ 8
    → decode_guid_tail (ok ((g.data1, g.data2), g.data3) (g.data4 ++ rest)) ≡ ok g rest
tail-ok g rest h =
    rw (take_front 8 g.data4 rest h, drop_front 8 g.data4 rest h)
      (ground (arith, length-append g.data4 rest))

pub guid-Reads : (g : Guid) → GuidFits g → Reads decode_guid (guid_encoding g) g
unfolding decode_guid guid_encoding decode_guid_head
guid-Reads g h = record {
  reads = λ rest.
      rw (append_assoc (guid_head g) g.data4 rest)
        (rw (Reads.reads head (g.data4 ++ rest)) (tail-ok g rest h.last));
}
  where
    head : Reads decode_guid_head (guid_head g) ((g.data1, g.data2), g.data3)
    head =
        also-Reads (also-Reads (uint32-Reads g.data1 h.first) (uint16-Reads g.data2 h.second))
          (uint16-Reads g.data3 h.third)

pub guid-Safe : (g : Guid) → GuidFits g → Safe (encode_guid g)
unfolding encode_guid
guid-Safe g h = record {
  extends = λ b. elim (Bool-cases (ltb (length (encode_guid_head g b).1.after) 8)) [
    | inl p ↦ rw p (Safe.extends (head-Safe g) b)
    | inr p ↦ rw p (
        Extends-trans (Safe.extends (head-Safe g) b)
          (put-Extends g.data4 _ (ground (arith, h.last))))
  ];
}
