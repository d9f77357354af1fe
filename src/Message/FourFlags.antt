-- ===== src/Message/FourFlags.antt =====
-- The byte of four flags at the front of the group header and of the security header, in
-- openPubSub/ua_pubsub/ua_pubsub_networkmessage.c. Both use the masks 1, 2, 4 and 8.
use open_pub_sub.Base.{ℕ, ◌≡◌, refl, Bool, true, false, set_flag, has_flag}

-- `v = 0; if(a) v |= 1; if(b) v |= 2; if(c) v |= 4; if(d) v |= 8;`
unfoldable pub four_flags : Bool → Bool → Bool → Bool → ℕ
four_flags a b c d = set_flag d 8 (set_flag c 4 (set_flag b 2 (set_flag a 1 0)))

pub four_flags_bits :
    (a b c d : Bool)
    → let v : ℕ = four_flags a b c d in
      (has_flag v 1 ≡ a) × (has_flag v 2 ≡ b) × (has_flag v 4 ≡ c) × (has_flag v 8 ≡ d)
unfolding four_flags set_flag has_flag
four_flags_bits true true true true = (refl, refl, refl, refl)
four_flags_bits true true true false = (refl, refl, refl, refl)
four_flags_bits true true false true = (refl, refl, refl, refl)
four_flags_bits true true false false = (refl, refl, refl, refl)
four_flags_bits true false true true = (refl, refl, refl, refl)
four_flags_bits true false true false = (refl, refl, refl, refl)
four_flags_bits true false false true = (refl, refl, refl, refl)
four_flags_bits true false false false = (refl, refl, refl, refl)
four_flags_bits false true true true = (refl, refl, refl, refl)
four_flags_bits false true true false = (refl, refl, refl, refl)
four_flags_bits false true false true = (refl, refl, refl, refl)
four_flags_bits false true false false = (refl, refl, refl, refl)
four_flags_bits false false true true = (refl, refl, refl, refl)
four_flags_bits false false true false = (refl, refl, refl, refl)
four_flags_bits false false false true = (refl, refl, refl, refl)
four_flags_bits false false false false = (refl, refl, refl, refl)
