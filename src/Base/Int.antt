-- ===== src/Base/Int.antt =====
-- Signed integers over the native numbers, and C++'s conversions between the signed and the
-- unsigned integers of one width.
use Prim.Native.Nat.{ℕ, ◌-◌, ◌*◌, ◌%◌, ◌^◌, ◌<◌}
use ecat_v2_master.Base.Tests.{ltb, leb, if◌then◌else◌}

-- `negsuc n` is -(n + 1).
pub data ℤ : Type 0 where
  pos : ℕ → ℤ
  negsuc : ℕ → ℤ

-- a - b, as an integer.
abbrev pub sub_ℕ : ℕ → ℕ → ℤ
sub_ℕ a b = if leb b a then pos (a - b) else negsuc (b - a - 1)

-- static_cast of a signed integer to the unsigned type of `w` bits: the residue.
abbrev pub to_unsigned : ℕ → ℤ → ℕ
to_unsigned w (pos n) = n % 2 ^ w
to_unsigned w (negsuc n) = 2 ^ w - 1 - n % 2 ^ w

-- static_cast of an unsigned integer to the signed type of `w + 1` bits: two's complement.
abbrev pub to_signed : ℕ → ℕ → ℤ
to_signed w n = if ltb n (2 ^ w) then pos n else negsuc (2 * 2 ^ w - 1 - n)

-- The integers of the signed type of `w + 1` bits.
abbrev pub InRange : ℕ → ℤ → Type 0
InRange w (pos n) = n < 2 ^ w
InRange w (negsuc n) = n < 2 ^ w
