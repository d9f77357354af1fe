-- ===== src/Binary/Parts.antt =====
-- The optional parts of a message: what they add to its size.
use open_pub_sub.Base.{
  ℕ, ◌+◌, ◌≡◌, refl, Bool, true, false, List, [], length, length-append, if◌then◌else◌, arith,
}
use open_pub_sub.Binary.Writer.Writes.{part}
use open_pub_sub.Binary.Scalars.Laws.{length-encode16, length-encode32, length-encode64}

-- `if(c) size += n;`
unfoldable pub add_if : Bool → ℕ → ℕ → ℕ
add_if c n size = if c then size + n else size

-- The size of a part that is there only if `c` holds.
pub sized : Bool → ℕ → ℕ
sized true n = n
sized false n = 0

pub add_if_lem : (c : Bool) (n size : ℕ) → add_if c n size ≡ size + sized c n
unfolding add_if sized
add_if_lem true n size = refl
add_if_lem false n size = omega arith

pub length-part : (c : Bool) (bs : List ℕ) → length (part c bs) ≡ sized c (length bs)
unfolding part sized
length-part true bs = refl
length-part false bs = refl

-- For `simp`: a length or a size as a sum.
pub ruleset sums =
    (length-append, length-part, add_if_lem, length-encode16, length-encode32, length-encode64)
