-- ===== src/Io/Half.antt =====
-- `read_float16` (src/soem_wrapper/src/utils/io_utils.cpp): a half-precision number. The powers of
-- two, the NaN and the infinity are the C library's and are parameters.
use ecat_v2_master.Base.{
  ℕ, ◌+◌, ℤ, pos, negsuc, sub_ℕ, Option, some, ◌>>=◌, get_elem?, ◌>>>◌, ◌<<<◌, low_bits, bit_or,
  ◌==◌, if◌then◌else◌,
}
use ecat_v2_master.Float.{Float}
use ecat_v2_master.Io.{Cursor}

pub record Powers (fl : Float) : Type 0 where
  pub pow2 : ℤ → fl.Real
  pub nan : fl.Real
  pub infinity : fl.Real

module _ (fl : Float) (p : Powers fl) where
  open fl use {Real, of_int, neg, add, mul, div}

  -- frac / 1024.0f
  abbrev pub fraction : ℕ → Real
  fraction frac = div (of_int (pos frac)) (of_int (pos 1024))

  -- The sign, the exponent and the fraction to the number
  unfoldable pub half_value : ℤ → ℕ → ℕ → Real
  half_value sign exp frac =
      if exp == 0
      then (if frac == 0
          then mul (of_int sign) (of_int (pos 0))
          else mul (mul (of_int sign) (p.pow2 (negsuc 13))) (fraction frac))
      else (if exp == 0x1F
          then (if frac == 0
              then elim sign [ pos n ↦ p.infinity | negsuc n ↦ neg p.infinity ]
              else p.nan)
          else mul (mul (of_int sign) (p.pow2 (sub_ℕ exp 15)))
              (add (of_int (pos 1)) (fraction frac)))

  -- (h & 0x7C00) >> 10, h & 0x03FF and h & 0x8000
  unfoldable pub decode_half : ℕ → Real
  unfolding half_value
  decode_half h =
      half_value (if low_bits (h >>> 15) 1 == 0 then pos 1 else negsuc 0) (low_bits (h >>> 10) 5)
        (low_bits h 10)

  unfoldable pub read_float16 : Cursor → Option (Real × Cursor)
  unfolding decode_half
  read_float16 c = do
    lo ← get_elem? c.bytes c.offset
    hi ← get_elem? c.bytes (c.offset + 1)
    some (decode_half (bit_or lo (hi <<< 8)), record c { offset = c.offset + 2 })
