-- ===== src/Base/Bits.antt =====
-- Masks on one byte as arithmetic: each law is a table of 256 entries, checked by evaluation.
use Prim.Native.Nat.{ℕ, zero, suc, ◌+◌, ◌*◌, ◌/◌, ◌%◌, ◌^◌, ◌≤◌, ◌<◌, bit_and, bit_or}
use mathlib.Core.Path.{◌≡◌, refl, ◌∙◌}
use mathlib.Core.Bool.{Bool, true, false, ◌&&◌, not}
use native.Mathlib.Omega.{arith}
use open_pub_sub.Base.Tests.{◌==◌, if◌then◌else◌}

abbrev pub bit : Bool → ℕ
bit true = 1
bit false = 0

-- `if(c) v |= mask;`
unfoldable pub set_flag : Bool → ℕ → ℕ → ℕ
set_flag c mask v = if c then bit_or v mask else v

-- `(v & mask) != 0`
unfoldable pub has_flag : ℕ → ℕ → Bool
has_flag v mask = not (bit_and v mask == 0)

-- Evaluates a test on the `n` numbers under `n`, the last one first.
tabulate : (ℕ → Bool) → ℕ → Bool
tabulate test zero = true
tabulate test (suc n) = if test n then tabulate test n else false

tabulate-entry : (test : ℕ → Bool) (v n : ℕ) → v < n → tabulate test n ≡ true → test v ≡ true
unfolding tabulate
tabulate-entry test v zero less table = absurd (omega arith)
tabulate-entry test v (suc n) less table = ground (arith, tabulate-entry test v n)

-- A mask of one bit, over the bytes: the test reads the bit, and setting a clear bit adds the mask.
abbrev mask_laws : ℕ → ℕ → Bool
mask_laws mask v =
    bit (has_flag v mask) == v / mask % 2
    && (if v / mask % 2 == 0 then bit_or v mask == v + mask else true)

mask_table : tabulate (λ i. tabulate (mask_laws (2 ^ i)) 256) 8 ≡ true
unfolding tabulate has_flag
mask_table = refl

mask_row : (i v : ℕ) → i < 8 → v < 256 → mask_laws (2 ^ i) v ≡ true
mask_row i v hi hv =
    tabulate-entry (mask_laws (2 ^ i)) v 256 hv
      (tabulate-entry (λ j. tabulate (mask_laws (2 ^ j)) 256) i 8 hi mask_table)

pub bit-has_flag : (i v : ℕ) → i < 8 → v < 256 → bit (has_flag v (2 ^ i)) ≡ v / 2 ^ i % 2
bit-has_flag i v hi hv = ground (arith, mask_row i v hi hv)

bit_or_clear : (i v : ℕ) → i < 8 → v < 256 → v / 2 ^ i % 2 ≡ 0 → bit_or v (2 ^ i) ≡ v + 2 ^ i
bit_or_clear i v hi hv clear = ground (arith, mask_row i v hi hv)

pub set_flag_lem :
    (i : ℕ) (c : Bool) (v : ℕ)
    → i < 8
    → v < 256
    → v / 2 ^ i % 2 ≡ 0
    → set_flag c (2 ^ i) v ≡ v + bit c * 2 ^ i
unfolding set_flag
set_flag_lem i true v hi hv clear = bit_or_clear i v hi hv clear ∙ omega arith
set_flag_lem i false v hi hv clear = omega arith

pub bit_le : (b : Bool) → bit b ≤ 1
bit_le b = ground arith

pub bit_injective : (a b : Bool) → bit a ≡ bit b → a ≡ b
bit_injective a b h = ground arith

-- The fields of more than one bit.
abbrev field_laws : ℕ → Bool
field_laws v =
    bit_and v 15 == v % 16
    && (bit_and v 7 == v % 8 && (bit_and v 6 == v / 2 % 4 * 2 && bit_and v 28 == v / 4 % 8 * 4))

field_table : tabulate field_laws 256 ≡ true
unfolding tabulate
field_table = refl

pub bit_and_fields :
    (v : ℕ)
    → v < 256
    → (bit_and v 15 ≡ v % 16)
      × (bit_and v 7 ≡ v % 8)
      × (bit_and v 6 ≡ v / 2 % 4 * 2)
      × (bit_and v 28 ≡ v / 4 % 8 * 4)
bit_and_fields v h = ground (arith, tabulate-entry field_laws v 256 h field_table)

-- A bit that is known is what the test answers.
pub has_flag-eq :
    (i v : ℕ) (c : Bool) → i < 8 → v < 256 → v / 2 ^ i % 2 ≡ bit c → has_flag v (2 ^ i) ≡ c
has_flag-eq i v c hi hv e = bit_injective _ _ (bit-has_flag i v hi hv ∙ e)
