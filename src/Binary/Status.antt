-- ===== src/Binary/Status.antt =====
-- The status codes that the encoders and decoders return, and `ret |= code` on them.
use open_pub_sub.Base.{ℕ, ◌≡◌, Bool, true, false, ◌==◌, if◌then◌else◌, arith, refl}

-- The numbers behind the names are those of open62541. `mixed` is the bitwise or of two different
-- codes other than `good`; it is never `good`, and nothing compares it with a name.
pub data Status : Type 0 where
  good : Status
  bad_internal_error bad_out_of_memory bad_encoding_error bad_decoding_error : Status
  bad_encoding_limits_exceeded bad_not_implemented bad_not_supported : Status
  mixed : Status

-- A number for each name, to compare them.
abbrev pub ordinal : Status → ℕ
ordinal good = 0
ordinal bad_internal_error = 1
ordinal bad_out_of_memory = 2
ordinal bad_encoding_error = 3
ordinal bad_decoding_error = 4
ordinal bad_encoding_limits_exceeded = 5
ordinal bad_not_implemented = 6
ordinal bad_not_supported = 7
ordinal mixed = 8

abbrev pub is_good : Status → Bool
is_good good = true
is_good _ = false

-- `ret == UA_STATUSCODE_BADENCODINGLIMITSEXCEEDED`
abbrev pub is_limits_exceeded : Status → Bool
is_limits_exceeded bad_encoding_limits_exceeded = true
is_limits_exceeded _ = false

-- `s | t`
unfoldable pub or : Status → Status → Status
or good t = t
or s good = s
or s t = if ordinal s == ordinal t then s else mixed

pub is_good→eq : (s : Status) → is_good s ≡ true → s ≡ good
is_good→eq good h = refl
is_good→eq s h = ground arith

pub or-good : (t : Status) → or good t ≡ t
unfolding or
or-good t = refl

pub is_good-or_right : (s t : Status) → is_good t ≡ false → is_good (or s t) ≡ false
unfolding or
is_good-or_right s t h = ground arith

pub is_good-or_left : (s t : Status) → is_good s ≡ false → is_good (or s t) ≡ false
unfolding or
is_good-or_left s t h = ground arith
